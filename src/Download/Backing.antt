-- ===== src/Download/Backing.antt =====
-- The handler of download requests keeps every content record with its bytes.
use hackfs_mdc.Base.{true, false, some, inl, inr, Option-cases, Bool-cases, length}
use hackfs_mdc.Base.Int.{ℤ, pos, ltb_ℤ}
use hackfs_mdc.Go.{ok, err}
use hackfs_mdc.Go.Laws.{Outcome-cases}
use hackfs_mdc.Common.{Error}
use hackfs_mdc.Messages.{Bytes, DownloadRequest, DownloadData, ContentData}
use hackfs_mdc.Messages.Envelope.{download_request_envelope, download_response_envelope}
use hackfs_mdc.Services.{Services}
use hackfs_mdc.Node.{new_message_data, get_time_stamp_millisecond, get_ulid}
use hackfs_mdc.Textile.{Clients, pull_bytes_from_bucket}
use hackfs_mdc.Textile.Promises.{View, Extends, Extends-refl, Extends-trans, Promises}
use hackfs_mdc.Content.{get_content_data_record_with_download_data}
use hackfs_mdc.Content.Lookup.{get_record-Extends}
use hackfs_mdc.Content.Backing.{IsBacked}
use hackfs_mdc.Content.Evolution.{Evolves, same, Evolves-IsBacked}
use hackfs_mdc.Serve.Effects.{new_message_data-Extends, Handling-Evolves}
use hackfs_mdc.Download.{
  download_response_protocol_name, get_download_response_with_error, download_response, deliver,
  look_up, process_download_request, on_download_request,
}
use hackfs_mdc.Textile.Buckets.{pull-Extends}
use hackfs_mdc.Download.Handler.{on_download_request-Handling}

module _ (env : Services) (clients : Clients env) (view : View env) (law : Promises env view) where
  open env use {World}

  error-Extends :
      (req : DownloadRequest) (code : ℤ) (e : Error) (w : World)
      → Extends env view w (get_download_response_with_error env req code e w).1
  unfolding get_download_response_with_error
  error-Extends req code e w = elim (Option-cases req.message_data) [
    | inl h ↦ rw (h, get_download_response_with_error) (Extends-refl env view w)
    | inr (md, h) ↦
        let x = new_message_data-Extends env view law md.id false w in
        elim (Outcome-cases (new_message_data env md.id false w).0) [
          | inl f ↦
              rw (h, get_download_response_with_error) (rw (f, get_download_response_with_error) x)
          | inr (d, f) ↦
              rw (h, get_download_response_with_error) (rw (f, get_download_response_with_error) x)
        ]
  ]

  get_ulid-Extends : (w : World) → Extends env view w (get_ulid env w).1
  unfolding get_ulid
  get_ulid-Extends w =
      Extends-trans env view w (env.unix_nano w).1 _ (law.clock_extends w)
        (law.ulid_extends (env.unix_nano w).0 (env.unix_nano w).1)

  success-Extends :
      (req : DownloadRequest) (d : DownloadData) (t : ℤ) (cd : ContentData) (b : Bytes) (w : World)
      → Extends env view w (download_response env req d t cd b w).1
  unfolding download_response get_time_stamp_millisecond
  success-Extends req d t cd b w = elim (Option-cases req.message_data) [
    | inl h ↦ rw (h, download_response) (Extends-refl env view w)
    | inr (md, h) ↦
        let made = new_message_data env md.id false w in
        let w1 = made.1 in
        let x1 = new_message_data-Extends env view law md.id false w in
        elim (Outcome-cases made.0) [
          | inl f ↦ rw (h, download_response) (rw (f, download_response) x1)
          | inr (own, f) ↦
              let w2 = (get_ulid env w1).1 in
              let x2 = Extends-trans env view w w1 w2 x1 (get_ulid-Extends w1) in
              elim (Outcome-cases (get_ulid env w1).0) [
                | inl g ↦
                    rw (h, download_response)
                      (rw (f, download_response) (rw (g, download_response) x2))
                | inr (ulid, g) ↦
                    rw (h, download_response)
                      (rw (f, download_response)
                        (rw (g, download_response)
                          (Extends-trans env view w w2 _ x2 (law.clock_extends w2))))
              ]
        ]
  ]

  deliver-Extends :
      (req : DownloadRequest) (d : DownloadData) (t : ℤ) (cd : ContentData) (w : World)
      → Extends env view w (deliver env clients req d t cd w).1
  unfolding deliver
  deliver-Extends req d t cd w =
      let pulling = pull_bytes_from_bucket env clients cd.bucket_key cd.file_name w in
      let x = pull-Extends env clients view law cd.bucket_key cd.file_name w in
      elim (Outcome-cases pulling.0) [
        | inl e ↦ rw (e, deliver) x
        | inr (err er, e) ↦
            rw (e, deliver)
              (Extends-trans env view w pulling.1 _ x (error-Extends req _ _ pulling.1))
        | inr (ok b, e) ↦ elim (Bool-cases (ltb_ℤ (pos (length b)) cd.file_size)) [
          | inl short ↦
              rw (e, deliver)
                (rw short
                  (Extends-trans env view w pulling.1 _ x (error-Extends req _ _ pulling.1)))
          | inr long ↦
              rw (e, deliver)
                (rw long
                  (Extends-trans env view w pulling.1 _ x (success-Extends req d t cd b pulling.1)))
        ]
      ]

  look_up-Extends :
      (req : DownloadRequest) (d : DownloadData) (t : ℤ) (w : World)
      → Extends env view w (look_up env clients req d t w).1
  unfolding look_up
  look_up-Extends req d t w =
      let finding = get_content_data_record_with_download_data env clients d w in
      let x = get_record-Extends env clients view law d w in
      elim (Outcome-cases finding.0) [
        | inl e ↦ rw (e, look_up) x
        | inr (err er, e) ↦
            rw (e, look_up)
              (Extends-trans env view w finding.1 _ x (error-Extends req _ _ finding.1))
        | inr (ok cd, e) ↦
            rw (e, look_up)
              (Extends-trans env view w finding.1 _ x (deliver-Extends req d t cd finding.1))
      ]

  pub process_download_request-Extends :
      (req : DownloadRequest) (w : World)
      → Extends env view w (process_download_request env clients req w).1
  unfolding process_download_request get_time_stamp_millisecond
  process_download_request-Extends req w =
      let v = (env.unix_nano w).1 in
      elim (Option-cases req.download_data) [
        | inl e ↦ rw (e, process_download_request) (law.clock_extends w)
        | inr (d, e) ↦
            rw (e, process_download_request)
              (Extends-trans env view w v _ (law.clock_extends w)
                (look_up-Extends (record req { download_data = some d }) d _ v))
      ]

  -- The handler of download requests, seen from the content store.
  pub on_download_request-Evolves :
      (s : env.Stream) (w : World)
      → Evolves env clients view law w (on_download_request env clients s w).1
  on_download_request-Evolves s w =
      Handling-Evolves env view law clients (process_download_request env clients)
        env.unmarshal_download_request download_response_protocol_name (λ _. true)
        (λ req u v x.
          same (Extends-trans env view u v _ x (process_download_request-Extends req v)))
        s w (on_download_request env clients s w) (on_download_request-Handling env clients s w)

  -- Whatever a stream carries, and however the handler of download requests ends, every content
  -- record has its bytes afterwards if it had them before.
  pub on_download_request-IsBacked :
      (s : env.Stream) (w : World)
      → IsBacked env view w
      → IsBacked env view (on_download_request env clients s w).1
  on_download_request-IsBacked s w h =
      Evolves-IsBacked env clients view law w _ (on_download_request-Evolves s w) h
