-- ===== src/Upload/Responses.antt =====
-- The response to an upload request, on every branch.
use hackfs_mdc.Base.{◌≡◌, refl, ◌⊎◌, inl, inr, String, false, none, some, arith, Bool-cases, length}
use hackfs_mdc.Base.Int.{ℤ, pos, ltb_ℤ, ◌<ℤ◌, ◌≤ℤ◌, ltb_ℤ→le, lt→ltb_ℤ}
use hackfs_mdc.Go.{ok, err, returned}
use hackfs_mdc.Go.Laws.{Outcome-cases}
use hackfs_mdc.Common.{Error, errorf, error_text, in_pkg, get_millisecond}
use hackfs_mdc.Messages.{
  Bytes, MessageData, UploadRequest, UploadResponse, UploadData, ContentData, zero_content_data,
}
use hackfs_mdc.Services.{Services}
use hackfs_mdc.Node.{get_time_stamp_millisecond}
use hackfs_mdc.Node.Signing.{own_data, new_message_data_lem}
use hackfs_mdc.Textile.{Clients}
use hackfs_mdc.Textile.Promises.{View, Extends, Extends-trans, Promises}
use hackfs_mdc.Content.{store_content}
use hackfs_mdc.Content.Storing.{IsStored, IsStored-around, store_content_lem}
use hackfs_mdc.Serve.{status_ok, status_internal_server_error}
use hackfs_mdc.Serve.Replies.{IsReply, Returns, own_reply}
use hackfs_mdc.Upload.{
  upload_places, get_upload_response_with_error, upload_response, store_upload,
  process_upload_request,
}

module _ (env : Services) (pk : Bytes) (keyed : env.host_pub_key_bytes ≡ ok pk) where
  open env use {World, unix_nano}

  abbrev error_response : MessageData → ℤ → Error → World → UploadResponse
  error_response md code e w = record {
    message_data = some (own_data env pk (unix_nano w).0 md.id false);
    response_data = some (record { code = code; err = error_text e });
    content_data = some zero_content_data;
  }

  get_upload_response_with_error_lem :
      (req : UploadRequest) (md : MessageData) (code : ℤ) (e : Error) (w : World)
      → req.message_data ≡ some md
      → get_upload_response_with_error env req code e w
        ≡ (returned (error_response md code e w), (unix_nano w).1)
  unfolding get_upload_response_with_error
  get_upload_response_with_error_lem req md code e w h =
      ground (arith, new_message_data_lem env pk md.id false w keyed)

  abbrev success_response : MessageData → ContentData → World → UploadResponse
  success_response md cd w = record {
    message_data = some (own_data env pk (unix_nano w).0 md.id false);
    response_data = some (record { code = status_ok; err = "" });
    content_data = some cd;
  }

  upload_response_lem :
      (req : UploadRequest) (md : MessageData) (cd : ContentData) (w : World)
      → req.message_data ≡ some md
      → upload_response env req cd w ≡ (returned (success_response md cd w), (unix_nano w).1)
  unfolding upload_response
  upload_response_lem req md cd w h =
      ground (arith, new_message_data_lem env pk md.id false w keyed)

  module _ (clients : Clients env) where
    -- An upload of fewer bytes than it declares gets a response with status 500 and an empty
    -- content record under the request's ID; the clock is read twice, and nothing else is called.
    pub process_upload_request-short :
        (req : UploadRequest) (md : MessageData) (d : UploadData) (w : World)
        → req.message_data ≡ some md
        → req.upload_data ≡ some d
        → pos (length d.file_bytes) <ℤ d.file_size
        → let v = (unix_nano w).1 in
          (resp : UploadResponse) × (process_upload_request env clients req w
            ≡ (returned resp, (unix_nano v).1))
          × IsReply env md.id resp.message_data
          × ((text : String) × (resp.response_data
                ≡ some (record { code = status_internal_server_error; err = text })))
          × (resp.content_data ≡ some zero_content_data)
    unfolding process_upload_request get_time_stamp_millisecond
    process_upload_request-short req md d w hm hd short =
        let v = (unix_nano w).1 in
        let e =
          errorf (in_pkg "libp2pnode.(*UploadProtocol).processUploadRequest" 70) none
            "receivedFileSize not match" in
        (
          error_response md status_internal_server_error e v,
          ground (
            arith,
            lt→ltb_ℤ (pos (length d.file_bytes)) d.file_size short,
            get_upload_response_with_error_lem req md status_internal_server_error e v hm,
          ),
          own_reply env pk keyed (unix_nano v).0 md.id,
          (error_text e, refl),
          refl,
        )

  module _ (clients : Clients env) (view : View env) (law : Promises env view) where
    -- The response to an upload, and what it says of Textile: with status 200 the upload is stored
    -- under the record that the response carries; with status 500 no record was added and no bytes
    -- were lost.
    pub record UploadAnswer (md : MessageData) (d : UploadData) (received_at : ℤ) (w : World)
        (resp : UploadResponse) (w' : World) : Type 0 where
      pub reply : IsReply env md.id resp.message_data
      pub outcome :
          ((resp.response_data ≡ some (record { code = status_ok; err = "" }))
            × ((cd : ContentData) × (resp.content_data ≡ some cd)
                × IsStored env clients view law d received_at w cd w'
                × (d.file_size ≤ℤ pos (length d.file_bytes))))
          ⊎ (((text : String) × (resp.response_data
                  ≡ some (record { code = status_internal_server_error; err = text })))
              × (resp.content_data ≡ some zero_content_data)
              × Extends env view w w')

    error_answer :
        (md : MessageData) (d : UploadData) (received_at : ℤ) (e : Error) (u w : World)
        → Extends env view u w
        → UploadAnswer md d received_at u
            (error_response md status_internal_server_error e w)
            (unix_nano w).1
    error_answer md d received_at e u w x = record {
      reply = own_reply env pk keyed (unix_nano w).0 md.id;
      outcome =
          inr ((error_text e, refl), refl, Extends-trans env view u w _ x (law.clock_extends w));
    }

    store_upload_lem :
        (req : UploadRequest) (md : MessageData) (d : UploadData) (received_at : ℤ) (u w : World)
        → req.message_data ≡ some md
        → d.file_size ≤ℤ pos (length d.file_bytes)
        → Extends env view u w
        → let r = store_upload env clients req received_at d w in
          Returns (UploadAnswer md d received_at u) (Extends env view u) r.0 r.1
    unfolding store_upload
    store_upload_lem req md d received_at u w hm long x =
        let w1 = (store_content env clients upload_places received_at d w).1 in
        let s = store_content_lem env clients view law upload_places received_at d w in
        elim (Outcome-cases (store_content env clients upload_places received_at d w).0) [
          | inl e ↦ rw (e, store_upload) (Extends-trans env view u w w1 x (rw e at s))
          | inr (err er, e) ↦
              rw (e, store_upload)
                (rw
                  (get_upload_response_with_error_lem req md status_internal_server_error er w1 hm)
                  (error_answer md d received_at er u w1
                    (Extends-trans env view u w w1 x (rw e at s))))
          | inr (ok cd, e) ↦
              let stored : IsStored env clients view law d received_at w cd w1 = rw e at s in
              rw (e, store_upload)
                (rw (upload_response_lem req md cd w1 hm) (record {
                  reply = own_reply env pk keyed (unix_nano w1).0 md.id;
                  outcome = inl (
                    refl,
                    (
                      cd,
                      refl,
                      IsStored-around env clients view law d received_at u w w1 _ cd x stored
                          (law.clock_extends w1),
                      long,
                    ),
                  );
                }))
        ]

    -- An upload request with its message data and its upload data either gets a response over the
    -- host's message data under the request's ID, which is status 200 with the record of the
    -- stored upload, of no more than the received bytes, or status 500 with no record added and
    -- no bytes lost; or a service panics with no record added and no bytes lost.
    pub process_upload_request_lem :
        (req : UploadRequest) (md : MessageData) (d : UploadData) (w : World)
        → req.message_data ≡ some md
        → req.upload_data ≡ some d
        → let r = process_upload_request env clients req w in
          Returns
            (UploadAnswer md d (get_millisecond (unix_nano w).0) w)
            (Extends env view w)
            r.0
            r.1
    unfolding process_upload_request get_time_stamp_millisecond
    process_upload_request_lem req md d w hm hd =
        let v = (unix_nano w).1 in
        let t = get_millisecond (unix_nano w).0 in
        let e =
          errorf (in_pkg "libp2pnode.(*UploadProtocol).processUploadRequest" 70) none
            "receivedFileSize not match" in
        elim (Bool-cases (ltb_ℤ (pos (length d.file_bytes)) d.file_size)) [
          | inl short ↦ ground (
            arith,
            get_upload_response_with_error_lem req md status_internal_server_error e v hm,
            error_answer md d t e w v (law.clock_extends w),
          )
          | inr long ↦ ground (
            arith,
            store_upload_lem req md d t w v hm
                (ltb_ℤ→le (pos (length d.file_bytes)) d.file_size long) (law.clock_extends w),
          )
        ]
