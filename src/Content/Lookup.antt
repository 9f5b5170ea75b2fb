-- ===== src/Content/Lookup.antt =====
-- What `GetContentDataRecordWithDownloadData` finds.
use hackfs_mdc.Base.{
  ◌≡◌, inl, inr, String, true, false, none, List, [], ◌∷◌, arith, Option-cases, is_empty,
}
use hackfs_mdc.Go.{ok, err, returned}
use hackfs_mdc.Common.{Error, errorf, in_pkg}
use hackfs_mdc.Messages.{ContentData, DownloadData}
use hackfs_mdc.Services.{Services, Found}
use hackfs_mdc.Textile.{Clients, query_content_db, content_data_collection_name}
use hackfs_mdc.Textile.Promises.{View, Extends, Extends-refl, Promises, with_bucket_key}
use hackfs_mdc.Content.{
  first_content, content_found, find_content, get_content_data_record_with_download_data,
}

content_found-ok :
    (f : Found) (c : ContentData)
    → content_found f ≡ ok c
    → (rest : List ContentData) × (f ≡ Found.content_datas (c ∷ rest))
unfolding content_found first_content
content_found-ok Found.nil c h = cc
content_found-ok Found.other c h = cc
content_found-ok (Found.content_datas []) c h = cc
content_found-ok (Found.content_datas (d ∷ ds)) c h = (ds, ground arith)

module _ (env : Services) (clients : Clients env) where
  -- A look-up with neither a bucket's key nor a preview's URL is an error, and nothing is asked
  -- of Textile.
  pub get_record-nothing :
      (d : DownloadData) (w : env.World)
      → is_empty d.bucket_key ≡ true
      → is_empty d.preview_url ≡ true
      → (e : Error) × (get_content_data_record_with_download_data env clients d w
          ≡ (returned (err e), w))
  unfolding get_content_data_record_with_download_data find_content content_found
  get_record-nothing d w h k = (
    errorf (in_pkg "libp2pnode.GetContentDataRecordWithDownloadData" 64) none "res is nil",
    ground arith,
  )

module _ (env : Services) (clients : Clients env) (view : View env) (law : Promises env view) where
  open env use {World}
  open view use {content, records}

  pub get_record-Extends :
      (d : DownloadData) (w : World)
      → Extends env view w (get_content_data_record_with_download_data env clients d w).1
  unfolding get_content_data_record_with_download_data find_content query_content_db
  get_record-Extends d w =
      let asked = λ (field v : String).
        law.find_extends clients.context_with_db_thread_id clients.db_thread_id
          content_data_collection_name (env.where_eq field v) w in
      ground (
        arith,
        Extends-refl env view w,
        asked "bucketKey" d.bucket_key,
        asked "previewUrl" d.preview_url,
      )

  -- By a bucket's key it finds the first record that has it.
  pub get_record-by_key :
      (d : DownloadData) (c : ContentData) (w w' : World)
      → is_empty d.bucket_key ≡ false
      → get_content_data_record_with_download_data env clients d w ≡ (returned (ok c), w')
      → (rest : List ContentData) × (with_bucket_key d.bucket_key (records w) ≡ c ∷ rest)
  unfolding get_content_data_record_with_download_data find_content query_content_db
  get_record-by_key d c w w' h run =
      let ctx = clients.context_with_db_thread_id in
      let t = clients.db_thread_id in
      let key = d.bucket_key in
      let r =
        env.threads_find ctx t content_data_collection_name (env.where_eq "bucketKey" key) w in
      elim (Option-cases r.0.1) [
        | inl e ↦
            let answer = law.find_reads ctx t key r.0.0 w r.1 (λ i. ((r.0.0, e i), r.1)) in
            let (rest, found) = content_found-ok r.0.0 c (ground arith) in (rest, ground arith)
        | inr (x, e) ↦ absurd (ground arith)
      ]
