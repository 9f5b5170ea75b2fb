-- ===== src/Textile/Queries.antt =====
-- The queries of the JSON protocol.
use hackfs_mdc.Base.{
  ◌≡◌, refl, ap, ◌≢◌, ◌⊎◌, String, false, none, some, inl, inr, arith, Bool-cases, ◌==◌, ==_iff,
  ◌<>◌,
}
use hackfs_mdc.Go.{ok, err, returned}
use hackfs_mdc.Go.Laws.{Result-cases}
use hackfs_mdc.Common.{Error, errorf, in_pkg}
use hackfs_mdc.Messages.{JsonQuery, ContentData, zero_content_data}
use hackfs_mdc.Services.{Services, Found}
use hackfs_mdc.Textile.{
  Clients, get_query_from_json_api_query, get_instanceable_from_collection, query_content_db,
  query_with_json_api_query, content_data_collection_name,
}
use hackfs_mdc.Textile.Promises.{View, Extends, Extends-refl, Promises}

module _ (env : Services) where
  open env use {World, Query}

  -- The four operations, and the conditions that they stand for.
  pub data Asks (jq : JsonQuery) : Query → Type 0 where
    eq : jq.operation ≡ "Eq" → Asks jq (env.where_eq jq.field_path jq.value)
    ge : jq.operation ≡ "Ge" → Asks jq (env.where_ge jq.field_path jq.value)
    le : jq.operation ≡ "Le" → Asks jq (env.where_le jq.field_path jq.value)
    ne : jq.operation ≡ "Ne" → Asks jq (env.where_ne jq.field_path jq.value)

  refuses :
      (jq : JsonQuery)
      → (jq.operation == "Eq") ≡ false
      → (jq.operation == "Ge") ≡ false
      → (jq.operation == "Le") ≡ false
      → (jq.operation == "Ne") ≡ false
      → (q : Query) → ¬ Asks jq q
  refuses jq a b c d _ (eq h) = ground (arith, ==_iff jq.operation "Eq")
  refuses jq a b c d _ (ge h) = ground (arith, ==_iff jq.operation "Ge")
  refuses jq a b c d _ (le h) = ground (arith, ==_iff jq.operation "Le")
  refuses jq a b c d _ (ne h) = ground (arith, ==_iff jq.operation "Ne")

  query-Asks :
      (jq : JsonQuery)
      → ((q : Query) × (get_query_from_json_api_query env jq ≡ ok q) × Asks jq q)
        ⊎ ((e : Error) × (get_query_from_json_api_query env jq ≡ err e)
            × ((q : Query) → ¬ Asks jq q))
  unfolding get_query_from_json_api_query
  query-Asks jq = elim (Bool-cases (jq.operation == "Eq")) [
    | inl h ↦ inl (_, rw h refl, eq (ground (arith, ==_iff jq.operation "Eq")))
    | inr a ↦ elim (Bool-cases (jq.operation == "Ge")) [
      | inl h ↦ inl (_, rw (a, h) refl, ge (ground (arith, ==_iff jq.operation "Ge")))
      | inr b ↦ elim (Bool-cases (jq.operation == "Le")) [
        | inl h ↦ inl (_, rw (a, b, h) refl, le (ground (arith, ==_iff jq.operation "Le")))
        | inr c ↦ elim (Bool-cases (jq.operation == "Ne")) [
          | inl h ↦ inl (_, rw (a, b, c, h) refl, ne (ground (arith, ==_iff jq.operation "Ne")))
          | inr d ↦ inr (
            errorf (in_pkg "textilehelper.GetQueryFromJsonApiQuery" 241) none
                ("Unsupported operation: " <> jq.operation),
            rw (a, b, c, d) refl,
            refuses jq a b c d,
          )
        ]
      ]
    ]
  ]

  module _ (clients : Clients env) (view : View env) (law : Promises env view) where
    pub query-Extends :
        (jq : JsonQuery) (w : World)
        → Extends env view w (query_with_json_api_query env clients jq w).1
    unfolding query_with_json_api_query
    query-Extends jq w = elim (Result-cases (get_query_from_json_api_query env jq)) [
      | inl (e, h) ↦ rw (h, query_with_json_api_query) (Extends-refl env view w)
      | inr (q, h) ↦ elim (Result-cases (get_instanceable_from_collection jq.collection)) [
        | inl (e, g) ↦
            rw (h, query_with_json_api_query)
              (rw (g, query_with_json_api_query) (Extends-refl env view w))
        | inr (d, g) ↦
            rw (h, query_with_json_api_query)
              (rw (g, query_with_json_api_query)
                (law.find_extends clients.context_with_db_thread_id clients.db_thread_id
                  jq.collection q w))
      ]
    ]

  collection-cases :
      (collection : String)
      → ((d : ContentData) × (get_instanceable_from_collection collection ≡ ok d)
          × (collection ≡ content_data_collection_name))
        ⊎ ((e : Error) × (get_instanceable_from_collection collection ≡ err e)
            × (collection ≢ content_data_collection_name))
  unfolding get_instanceable_from_collection
  collection-cases collection = elim (Bool-cases (collection == "ContentData")) [
    | inl h ↦ inl (zero_content_data, rw h refl, ground (arith, ==_iff collection "ContentData"))
    | inr h ↦ inr (
      errorf (in_pkg "textilehelper.GetInstanceableFromCollection" 250) none
          ("Unsupported collection: " <> collection),
      rw h refl,
      ground (arith, ==_iff collection "ContentData"),
    )
  ]

  -- A JSON query with one of the four operations over the content records is the query that its
  -- operation stands for; any other is an error, and nothing is asked of Textile.
  pub query_lem :
      (clients : Clients env) (jq : JsonQuery) (w : World)
      → ((q : Query) × Asks jq q
          × (jq.collection ≡ content_data_collection_name)
          × (query_with_json_api_query env clients jq w ≡ query_content_db env clients q w))
        ⊎ ((e : Error) × (query_with_json_api_query env clients jq w
              ≡ (returned (Found.nil, some e), w))
            × (((q : Query) → ¬ Asks jq q) ⊎ (jq.collection ≢ content_data_collection_name)))
  unfolding query_with_json_api_query query_content_db
  query_lem clients jq w = elim (query-Asks jq) [
    | inr (e, h, other) ↦ inr (
      errorf (in_pkg "textilehelper.QueryWithJsonApiQuery" 257) (some e)
          "GetQueryFromJsonApiQuery failed",
      rw (h, query_with_json_api_query) refl,
      inl other,
    )
    | inl (q, h, asks) ↦ elim (collection-cases jq.collection) [
      | inr (e, g, other) ↦ inr (
        errorf (in_pkg "textilehelper.QueryWithJsonApiQuery" 261) (some e)
            "GetInstanceableFromCollection failed",
        rw (h, query_with_json_api_query) (rw (g, query_with_json_api_query) refl),
        inr other,
      )
      | inl (d, g, same) ↦ inl (
        q,
        asks,
        same,
        rw (h, query_with_json_api_query)
            (rw (g, query_with_json_api_query)
              (ap
                (λ c. (
                  returned
                      (env.threads_find clients.context_with_db_thread_id clients.db_thread_id c q
                        w).0,
                  (env.threads_find clients.context_with_db_thread_id clients.db_thread_id c q w).1,
                ))
                same)),
      )
    ]
  ]
