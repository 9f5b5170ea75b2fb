-- ===== src/Upload/Returning.antt =====
-- The handler of upload requests returns.
use hackfs_mdc.Base.{◌≡◌, refl, inl, inr, false, some, Bool-cases, length}
use hackfs_mdc.Base.Int.{ℤ, pos, ltb_ℤ}
use hackfs_mdc.Go.{ok, returned}
use hackfs_mdc.Go.Laws.{Result-cases}
use hackfs_mdc.Go.Yielding.{Yields, Any, bind-Yields, deref-Yields}
use hackfs_mdc.Common.{Error}
use hackfs_mdc.Messages.{Bytes, MessageData, UploadRequest, UploadData, ContentData}
use hackfs_mdc.Messages.Envelope.{upload_request_envelope, upload_response_envelope}
use hackfs_mdc.Services.{Services}
use hackfs_mdc.Node.Working.{Working, HasData, time-Yields, new_message_data-Yields}
use hackfs_mdc.Textile.{Clients}
use hackfs_mdc.Content.Returning.{store_content-Yields}
use hackfs_mdc.Serve.Returning.{serve_request-Yields}
use hackfs_mdc.Upload.{
  upload_places, upload_response_protocol_name, get_upload_response_with_error, upload_response,
  compact_log_upload_request, store_upload, process_upload_request, on_upload_request,
}

-- An upload request has its message data and its upload data.
pub record IsComplete (req : UploadRequest) : Type 0 where
  pub md : MessageData
  pub d : UploadData
  pub has_message : req.message_data ≡ some md
  pub has_upload : req.upload_data ≡ some d

module _ (env : Services) (k : Working env) (req : UploadRequest) (c : IsComplete req) where
  error_response-Yields :
      (code : ℤ) (e : Error) → Yields (HasData env) (get_upload_response_with_error env req code e)
  unfolding get_upload_response_with_error
  error_response-Yields code e w =
      let (md, _, h) = new_message_data-Yields env k c.md.id false w in
      rw (c.has_message, get_upload_response_with_error)
        (rw (h, get_upload_response_with_error) (_, (md, refl), refl))

  response-Yields : (cd : ContentData) → Yields (HasData env) (upload_response env req cd)
  unfolding upload_response
  response-Yields cd w =
      let (md, _, h) = new_message_data-Yields env k c.md.id false w in
      rw (c.has_message, upload_response) (rw (h, upload_response) (_, (md, refl), refl))

  module _ (clients : Clients env) where
    store_upload-Yields :
        (received_at : ℤ) (d : UploadData)
        → Yields (HasData env) (store_upload env clients req received_at d)
    unfolding store_upload
    store_upload-Yields received_at d w =
        let (stored, _, h) = store_content-Yields env k clients upload_places received_at d w in
        elim (Result-cases stored) [
          | inl (x, e) ↦ rw (h, store_upload) (rw (e, store_upload) (error_response-Yields _ x _))
          | inr (cd, e) ↦ rw (h, store_upload) (rw (e, store_upload) (response-Yields cd _))
        ]

    process_upload_request-Yields : Yields (HasData env) (process_upload_request env clients req)
    unfolding process_upload_request
    process_upload_request-Yields = bind-Yields Any (HasData env) _ _ (time-Yields env) (λ t _.
        bind-Yields Any (HasData env) _ _ (deref-Yields Any req.upload_data c.d c.has_upload tt)
          (λ d _ w. elim (Bool-cases (ltb_ℤ (pos (length d.file_bytes)) d.file_size)) [
            | inl short ↦ rw short (error_response-Yields _ _ w)
            | inr long ↦ rw long (store_upload-Yields t d w)
          ]))

module _ (env : Services) (k : Working env) (clients : Clients env) where
  pub on_upload_request-returns :
      (s : env.Stream) (w : env.World)
      → ((bytes : Bytes)
          → (env.read_all s w).0 ≡ ok bytes
          → IsComplete (env.unmarshal_upload_request bytes).0)
      → (on_upload_request env clients s w).0 ≡ returned tt
  unfolding on_upload_request compact_log_upload_request
  on_upload_request-returns s w complete =
      serve_request-Yields env (compact_log_upload_request env) (process_upload_request env clients)
        env.unmarshal_upload_request upload_response_protocol_name s w
        (λ bytes h.
          let c = complete bytes h in
          (
            (c.md, c.has_message),
            (λ v. rw (c.has_upload, compact_log_upload_request) (tt, tt, refl)),
            process_upload_request-Yields env k (env.unmarshal_upload_request bytes).0 c clients,
          ))
