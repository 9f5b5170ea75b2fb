-- ===== src/Content/Returning.antt =====
-- Storing an upload and looking up a record return, also where they fail.
use hackfs_mdc.Base.{
  refl, inl, inr, String, true, Option, none, some, Option-cases, Bool-cases, is_empty,
}
use hackfs_mdc.Base.Int.{ℤ}
use hackfs_mdc.Go.{Result, err, pure, ◌>>=◌}
use hackfs_mdc.Common.{Error, errorf}
use hackfs_mdc.Node.{get_time_stamp_millisecond}
use hackfs_mdc.Go.Laws.{Result-cases}
use hackfs_mdc.Go.Yielding.{Yields, Any, bind-Yields}
use hackfs_mdc.Messages.{UploadData, ContentData, DownloadData}
use hackfs_mdc.Services.{Services, Found}
use hackfs_mdc.Node.Working.{Working, time-Yields}
use hackfs_mdc.Textile.{
  Clients, insert_to_content_db, query_content_db, content_data_collection_name,
}
use hackfs_mdc.Textile.Returning.{create_bucket_and_push_data-Yields}
use hackfs_mdc.Preview.{Preview, new_bucket_name, get_preview_from}
use hackfs_mdc.Preview.Returning.{new_bucket_name-Yields, get_preview_from-Yields}
use hackfs_mdc.Content.{
  Places, content_of, insert_content, preview_content, store_named, store_content, find_content,
  content_found, get_content_data_record_with_download_data,
}

module _ (env : Services) (clients : Clients env) where
  insert_content-Yields :
      (places : Places) (d : ContentData) → Yields Any (insert_content env clients places d)
  unfolding insert_content insert_to_content_db
  insert_content-Yields places d w =
      let r =
        env.threads_create clients.context_with_db_thread_id clients.db_thread_id
          content_data_collection_name d w in
      elim (Option-cases r.0.1) [
        | inr (x, e) ↦ rw (e, insert_content) (_, tt, refl)
        | inl e ↦ rw (e, insert_content) (_, tt, refl)
      ]

  find_content-Yields : (d : DownloadData) → Yields Any (find_content env clients d)
  unfolding find_content query_content_db
  find_content-Yields d w = elim (Bool-cases (is_empty d.bucket_key)) [
    | inr a ↦ rw (a, find_content) (_, tt, refl)
    | inl a ↦ elim (Bool-cases (is_empty d.preview_url)) [
      | inr b ↦ rw (a, b, find_content) (_, tt, refl)
      | inl b ↦ rw (a, b, find_content) (_, tt, refl)
    ]
  ]

  pub get_record-Yields :
      (d : DownloadData) → Yields Any (get_content_data_record_with_download_data env clients d)
  unfolding get_content_data_record_with_download_data
  get_record-Yields d =
      bind-Yields Any Any (find_content env clients d) _ (find_content-Yields d)
        (λ res _. checked res)
    where
      checked :
          (res : Found × Option Error)
          → Yields {W = env.World} {A = Result Error ContentData} Any
              (elim res.1 [ some e ↦ pure (err e) | none ↦ pure (content_found res.0) ])
      checked (found, some e) = λ w. (_, tt, refl)
      checked (found, none) = λ w. (_, tt, refl)

module _ (env : Services) (k : Working env) (clients : Clients env) where
  preview_content-Yields :
      (places : Places) (received_at : ℤ) (d : UploadData) (keys : String × String × String)
      → Yields Any (preview_content env clients places received_at d keys)
  unfolding preview_content
  preview_content-Yields places received_at d keys =
      bind-Yields Any Any (get_preview_from env clients d) _
        (get_preview_from-Yields env k clients d) (λ preview _. checked preview)
    where
      checked :
          (preview : Preview)
          → Yields {W = env.World} {A = Result Error ContentData} Any (elim preview.2 [
            | some e ↦ pure (err (errorf places.at_preview (some e) "GetPreviewFrom failed"))
            | none ↦ do
              updated_at ← get_time_stamp_millisecond env
              insert_content env clients places
                  (content_of d keys preview.0 preview.1 received_at updated_at)
          ])
      checked (url, kind, some e) = λ w. (_, tt, refl)
      checked (url, kind, none) = bind-Yields Any Any _ _ (time-Yields env) (λ t _.
          insert_content-Yields env clients places (content_of d keys url kind received_at t))

  store_named-Yields :
      (places : Places) (received_at : ℤ) (d : UploadData) (name : String)
      → Yields Any (store_named env clients places received_at d name)
  unfolding store_named
  store_named-Yields places received_at d name w =
      let (pushed, _, h) =
        create_bucket_and_push_data-Yields env clients name d.file_name d.file_bytes true w in
      elim (Result-cases pushed) [
        | inl (x, e) ↦ rw (h, store_named) (rw (e, store_named) (_, tt, refl))
        | inr (keys, e) ↦
            rw (h, store_named)
              (rw (e, store_named) (preview_content-Yields places received_at d keys _))
      ]

  pub store_content-Yields :
      (places : Places) (received_at : ℤ) (d : UploadData)
      → Yields Any (store_content env clients places received_at d)
  unfolding store_content
  store_content-Yields places received_at d =
      bind-Yields Any Any (new_bucket_name env d.owner_id) _
        (new_bucket_name-Yields env k d.owner_id)
        (λ name _. store_named-Yields places received_at d name)
