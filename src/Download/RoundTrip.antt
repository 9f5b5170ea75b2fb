-- ===== src/Download/RoundTrip.antt =====
-- From an upload to the download of its bytes.
use hackfs_mdc.Base.{
  ◌≡◌, sym, ap, ◌∙◌, subst, inl, inr, String, false, Option, some, List, [], ◌∷◌, arith, is_empty,
}
use mathlib.Core.Option.{some-injective}
use hackfs_mdc.Base.Int.{ℤ}
use hackfs_mdc.Go.{ok, returned}
use hackfs_mdc.Common.{get_millisecond}
use hackfs_mdc.Messages.{
  Bytes, MessageData, ResponseData, UploadRequest, UploadResponse, UploadData, ContentData,
  DownloadRequest, DownloadResponse, DownloadData, ContentDeliveryData,
}
use hackfs_mdc.Services.{Services}
use hackfs_mdc.Textile.{Clients}
use hackfs_mdc.Textile.Promises.{View, Extends, Promises, with_bucket_key}
use hackfs_mdc.Content.Storing.{IsStored}
use hackfs_mdc.Content.Backing.{IsBacked, IsStored-found}
use hackfs_mdc.Serve.{status_ok}
use hackfs_mdc.Upload.{process_upload_request}
use hackfs_mdc.Upload.Responses.{UploadAnswer, process_upload_request_lem}
use hackfs_mdc.Download.{process_download_request}
use hackfs_mdc.Download.Responses.{Delivers, DownloadAnswer, process_download_request_lem}

abbrev head_or {ℓ} : {A : Type ℓ} → A → List A → A
head_or a [] = a
head_or a (x ∷ xs) = x

abbrev success : Option ResponseData
success = some (record { code = status_ok; err = "" })

module _ (env : Services) (pk : Bytes) (keyed : env.host_pub_key_bytes ≡ ok pk)
    (clients : Clients env) (view : View env) (law : Promises env view) where
  open env use {World, unix_nano}

  -- A successful response to an upload carries a record under which the upload is stored.
  pub uploaded :
      (req : UploadRequest) (md : MessageData) (d : UploadData) (resp : UploadResponse)
      → (w w' : World) → req.message_data ≡ some md
      → req.upload_data ≡ some d
      → process_upload_request env clients req w ≡ (returned resp, w')
      → resp.response_data ≡ success
      → (cd : ContentData) × (resp.content_data ≡ some cd)
        × IsStored env clients view law d (get_millisecond (unix_nano w).0) w cd w'
  uploaded req md d resp w w' hm hd run good =
      let answer : UploadAnswer env pk keyed clients view law md d (get_millisecond (unix_nano w).0)
          w resp w' =
        rw run at (process_upload_request_lem env pk keyed clients view law req md d w hm hd) in
      elim answer.outcome [
        | inl (_, (cd, carried, stored, _)) ↦ (cd, carried, stored)
        | inr ((text, bad), _, _) ↦ absurd (ground arith)
      ]

  downloaded :
      (req : DownloadRequest) (md : MessageData) (dd : DownloadData) (resp : DownloadResponse)
      → (w w' : World) → req.message_data ≡ some md
      → req.download_data ≡ some dd
      → process_download_request env clients req w ≡ (returned resp, w')
      → resp.response_data ≡ success
      → is_empty dd.bucket_key ≡ false
      → Extends env view w w'
        × ((cd : ContentData) × Delivers env pk keyed clients view law dd
              (get_millisecond (unix_nano w).0)
              cd
              resp
              w'
            × ((rest : List ContentData) × (with_bucket_key dd.bucket_key (view.records w)
                  ≡ cd ∷ rest)))
  downloaded req md dd resp w w' hm hd run good filled =
      let answer : DownloadAnswer env pk keyed clients view law md dd
          (get_millisecond (unix_nano w).0) w resp w' =
        rw run at (process_download_request_lem env pk keyed clients view law req md dd w hm hd) in
      elim answer.outcome [
        | inl (_, (cd, delivers, first)) ↦ (answer.unchanged, (cd, delivers, first filled))
        | inr (text, bad) ↦ absurd (ground arith)
      ]

  -- What a delivery by the key of a stored upload holds.
  delivered_lem :
      (d : UploadData) (t t' : ℤ) (w1 w2 w3 w4 : World) (cd c : ContentData)
      → (dd : DownloadData) (resp : DownloadResponse) (rest : List ContentData)
      → IsBacked env view w1
      → (stored : IsStored env clients view law d t w1 cd w2) → Extends env view w2 w3
      → Extends env view w3 w4
      → dd.bucket_key ≡ cd.bucket_key
      → with_bucket_key dd.bucket_key (view.records w3) ≡ c ∷ rest
      → Delivers env pk keyed clients view law dd t' c resp w4
      → (delivery : ContentDeliveryData) × (resp.content_delivery_data ≡ some delivery)
        × (delivery.file_bytes ≡ d.file_bytes)
        × ((id : String) × (resp.content_data ≡ some (record cd { id = id })))
  delivered_lem d t t' w1 w2 w3 w4 cd c dd resp rest h stored x y key first v =
      let found = IsStored-found env clients view law d t w1 cd w2 stored h in
      let lists : c ∷ rest ≡ record cd { id = stored.adds.id } ∷ [] =
        sym first ∙ (λ i. with_bucket_key (key i) (x.same_records i)) ∙ found in
      let only : c ≡ record cd { id = stored.adds.id } = ap (head_or c) lists in
      let kept =
        y.keeps cd.bucket_key cd.file_name d.file_bytes
          (x.keeps cd.bucket_key cd.file_name d.file_bytes stored.bytes_there) in
      let there =
        subst
          (λ (e : ContentData).
            view.content w4 e.bucket_key e.file_name ≡ some v.delivery.file_bytes)
          only v.bytes_there in
      (
        v.delivery,
        v.delivered,
        ground (arith, kept, there),
        (stored.adds.id, v.described ∙ ap some only),
      )

  -- If every content record has its bytes, an upload request is processed with status 200 and a
  -- content record, Textile only keeps its bytes and its records in between, and a download
  -- request for the record's non-empty bucket key is then processed with status 200, then the
  -- download delivers the uploaded bytes, with that content record up to its ID.
  pub download-upload :
      (req : UploadRequest) (md : MessageData) (d : UploadData) (resp : UploadResponse)
      → (cd : ContentData)
      → (req' : DownloadRequest) (md' : MessageData) (dd : DownloadData) (resp' : DownloadResponse)
      → (w1 w2 w3 w4 : World) → IsBacked env view w1
      → req.message_data ≡ some md
      → req.upload_data ≡ some d
      → process_upload_request env clients req w1 ≡ (returned resp, w2)
      → resp.response_data ≡ success
      → resp.content_data ≡ some cd
      → Extends env view w2 w3
      → req'.message_data ≡ some md'
      → req'.download_data ≡ some dd
      → dd.bucket_key ≡ cd.bucket_key
      → is_empty dd.bucket_key ≡ false
      → process_download_request env clients req' w3 ≡ (returned resp', w4)
      → resp'.response_data ≡ success
      → (delivery : ContentDeliveryData) × (resp'.content_delivery_data ≡ some delivery)
        × (delivery.file_bytes ≡ d.file_bytes)
        × ((id : String) × (resp'.content_data ≡ some (record cd { id = id })))
  download-upload req md d resp cd req' md' dd resp' w1 w2 w3 w4 h hm hd up good carried x hm' hd'
        key filled down good' =
      let (c, carried', stored) = uploaded req md d resp w1 w2 hm hd up good in
      let (y, (c', delivers, (rest, first))) =
        downloaded req' md' dd resp' w3 w4 hm' hd' down good' filled in
      let same = some-injective c cd (sym carried' ∙ carried) in
      let stored' =
        subst
          (λ (e : ContentData).
            IsStored env clients view law d (get_millisecond (unix_nano w1).0) w1 e w2)
          same stored in
      delivered_lem d _ _ w1 w2 w3 w4 cd c' dd resp' rest h stored' x y key first delivers
