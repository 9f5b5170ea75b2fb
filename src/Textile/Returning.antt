-- ===== src/Textile/Returning.antt =====
-- No operation on Textile panics.
use hackfs_mdc.Base.{refl, inl, inr, String, Bool, Option-cases}
use hackfs_mdc.Go.Laws.{Result-cases}
use hackfs_mdc.Go.Yielding.{Yields, Any}
use hackfs_mdc.Messages.{Bytes, JsonQuery}
use hackfs_mdc.Services.{Services}
use hackfs_mdc.Textile.{
  Clients, get_query_from_json_api_query, get_instanceable_from_collection,
  query_with_json_api_query, link_bucket, push_data, create_bucket, create_bucket_and_push_data,
  pull_bytes_from_bucket,
}

module _ (env : Services) (clients : Clients env) where
  open clients use {db_thread_id, context_with_db_thread_id}

  link_bucket-Yields : (key : String) → Yields Any (link_bucket env clients key)
  unfolding link_bucket
  link_bucket-Yields key w =
      elim (Result-cases (env.buckets_links_ipns context_with_db_thread_id key w).0) [
        | inl (x, e) ↦ rw (e, link_bucket) (_, tt, refl)
        | inr (l, e) ↦ rw (e, link_bucket) (_, tt, refl)
      ]

  push_data-Yields : (key path : String) (b : Bytes) → Yields Any (push_data env clients key path b)
  unfolding push_data
  push_data-Yields key path b w =
      elim (Option-cases (env.buckets_push_path context_with_db_thread_id key path b w).0) [
        | inr (x, e) ↦ rw (e, push_data) (_, tt, refl)
        | inl e ↦ rw (e, push_data) (link_bucket-Yields key _)
      ]

  pub create_bucket_and_push_data-Yields :
      (name path : String) (b : Bytes) (private : Bool)
      → Yields Any (create_bucket_and_push_data env clients name path b private)
  unfolding create_bucket_and_push_data create_bucket
  create_bucket_and_push_data-Yields name path b private w =
      let c = env.new_thread_id_context context_with_db_thread_id db_thread_id in
      elim (Result-cases (env.buckets_init c name private w).0) [
        | inl (x, e) ↦ rw (e, create_bucket_and_push_data) (_, tt, refl)
        | inr (key, e) ↦ rw (e, create_bucket_and_push_data) (push_data-Yields key path b _)
      ]

  pub pull-Yields : (key path : String) → Yields Any (pull_bytes_from_bucket env clients key path)
  unfolding pull_bytes_from_bucket
  pull-Yields key path w =
      elim (Option-cases (env.buckets_pull_path context_with_db_thread_id key path w).0.1) [
        | inr (x, e) ↦ rw (e, pull_bytes_from_bucket) (_, tt, refl)
        | inl e ↦ rw (e, pull_bytes_from_bucket) (_, tt, refl)
      ]

  pub query-Yields : (jq : JsonQuery) → Yields Any (query_with_json_api_query env clients jq)
  unfolding query_with_json_api_query
  query-Yields jq w = elim (Result-cases (get_query_from_json_api_query env jq)) [
    | inl (x, e) ↦ rw (e, query_with_json_api_query) (_, tt, refl)
    | inr (q, e) ↦ elim (Result-cases (get_instanceable_from_collection jq.collection)) [
      | inl (x, f) ↦ rw (e, f, query_with_json_api_query) (_, tt, refl)
      | inr (d, f) ↦ rw (e, f, query_with_json_api_query) (_, tt, refl)
    ]
  ]
