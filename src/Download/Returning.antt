-- ===== src/Download/Returning.antt =====
-- The handler of download requests returns.
use hackfs_mdc.Base.{◌≡◌, refl, inl, inr, false, some, Bool-cases, length}
use hackfs_mdc.Base.Int.{ℤ, pos, ltb_ℤ}
use hackfs_mdc.Go.{ok, returned, pure}
use hackfs_mdc.Go.Laws.{Result-cases}
use hackfs_mdc.Go.Yielding.{Yields, Any, bind-Yields, deref-Yields}
use hackfs_mdc.Common.{Error}
use hackfs_mdc.Messages.{Bytes, MessageData, DownloadRequest, DownloadData, ContentData}
use hackfs_mdc.Messages.Envelope.{download_request_envelope, download_response_envelope}
use hackfs_mdc.Services.{Services}
use hackfs_mdc.Node.Working.{Working, HasData, time-Yields, ulid-Yields, new_message_data-Yields}
use hackfs_mdc.Textile.{Clients}
use hackfs_mdc.Textile.Returning.{pull-Yields}
use hackfs_mdc.Content.Returning.{get_record-Yields}
use hackfs_mdc.Serve.Returning.{serve_request-Yields}
use hackfs_mdc.Download.{
  download_response_protocol_name, get_download_response_with_error, download_response, deliver,
  look_up, process_download_request, on_download_request,
}

-- A download request has its message data and its download data.
pub record IsComplete (req : DownloadRequest) : Type 0 where
  pub md : MessageData
  pub d : DownloadData
  pub has_message : req.message_data ≡ some md
  pub has_download : req.download_data ≡ some d

module _ (env : Services) (k : Working env) (req : DownloadRequest) (c : IsComplete req) where
  error_response-Yields :
      (code : ℤ) (e : Error)
      → Yields (HasData env) (get_download_response_with_error env req code e)
  unfolding get_download_response_with_error
  error_response-Yields code e w =
      let (md, _, h) = new_message_data-Yields env k c.md.id false w in
      rw (c.has_message, get_download_response_with_error)
        (rw (h, get_download_response_with_error) (_, (md, refl), refl))

  response-Yields :
      (d : DownloadData) (received_at : ℤ) (cd : ContentData) (b : Bytes)
      → Yields (HasData env) (download_response env req d received_at cd b)
  unfolding download_response
  response-Yields d received_at cd b =
      bind-Yields Any (HasData env) _ _ (deref-Yields Any req.message_data c.md c.has_message tt)
        (λ md _.
          bind-Yields Any (HasData env) _ _ (new_message_data-Yields env k md.id false) (λ own _.
            bind-Yields Any (HasData env) _ _ (ulid-Yields env k) (λ u _.
              bind-Yields Any (HasData env) _ _ (time-Yields env)
                (λ t _ w. (_, (own, refl), refl)))))

  module _ (clients : Clients env) where
    deliver-Yields :
        (d : DownloadData) (received_at : ℤ) (cd : ContentData)
        → Yields (HasData env) (deliver env clients req d received_at cd)
    unfolding deliver
    deliver-Yields d received_at cd w =
        let (pulled, _, h) = pull-Yields env clients cd.bucket_key cd.file_name w in
        elim (Result-cases pulled) [
          | inl (x, e) ↦ rw (h, deliver) (rw (e, deliver) (error_response-Yields _ _ _))
          | inr (b, e) ↦ elim (Bool-cases (ltb_ℤ (pos (length b)) cd.file_size)) [
            | inl short ↦ rw (h, deliver) (rw (e, deliver) (rw short (error_response-Yields _ _ _)))
            | inr long ↦
                rw (h, deliver) (rw (e, deliver) (rw long (response-Yields d received_at cd b _)))
          ]
        ]

    look_up-Yields :
        (d : DownloadData) (received_at : ℤ)
        → Yields (HasData env) (look_up env clients req d received_at)
    unfolding look_up
    look_up-Yields d received_at w =
        let (found, _, h) = get_record-Yields env clients d w in
        elim (Result-cases found) [
          | inl (x, e) ↦ rw (h, look_up) (rw (e, look_up) (error_response-Yields _ _ _))
          | inr (cd, e) ↦ rw (h, look_up) (rw (e, look_up) (deliver-Yields d received_at cd _))
        ]

    process_download_request-Yields :
        Yields (HasData env) (process_download_request env clients req)
    unfolding process_download_request
    process_download_request-Yields = bind-Yields Any (HasData env) _ _ (time-Yields env) (λ t _.
        bind-Yields Any (HasData env) _ _ (deref-Yields Any req.download_data c.d c.has_download tt)
          (λ d _. look_up-Yields d t))

module _ (env : Services) (k : Working env) (clients : Clients env) where
  pub on_download_request-returns :
      (s : env.Stream) (w : env.World)
      → ((bytes : Bytes)
          → (env.read_all s w).0 ≡ ok bytes
          → IsComplete (env.unmarshal_download_request bytes).0)
      → (on_download_request env clients s w).0 ≡ returned tt
  unfolding on_download_request
  on_download_request-returns s w complete =
      serve_request-Yields env (λ _. pure tt) (process_download_request env clients)
        env.unmarshal_download_request download_response_protocol_name s w
        (λ bytes h.
          let c = complete bytes h in
          (
            (c.md, c.has_message),
            (λ v. (tt, tt, refl)),
            process_download_request-Yields env k (env.unmarshal_download_request bytes).0 c
                clients,
          ))
