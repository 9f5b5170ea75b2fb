-- ===== src/Host/Evolving.antt =====
-- What the handlers of a node do to the content store.
use hackfs_mdc.Base.{◌≡◌, refl, String, Option, inl, inr}
use hackfs_mdc.Go.{Go, pure, ◌>>=◌, ◌>>◌}
use hackfs_mdc.Go.Laws.{Outcome-cases, Result-cases}
use hackfs_mdc.Common.{Error}
use hackfs_mdc.Messages.{Bytes}
use hackfs_mdc.Messages.Envelope.{
  Envelope, upload_response_envelope, download_response_envelope, json_response_envelope,
}
use hackfs_mdc.Services.{Services}
use hackfs_mdc.Node.Authenticity.{nil_data, accepts, refuses, authenticate_message-Verdict}
use hackfs_mdc.Textile.{Clients}
use hackfs_mdc.Textile.Promises.{View, Extends, Extends-refl, Extends-trans, Promises}
use hackfs_mdc.Content.Evolution.{Evolves, same}
use hackfs_mdc.Upload.{on_upload_request}
use hackfs_mdc.Upload.Backing.{on_upload_request-Evolves}
use hackfs_mdc.Download.{on_download_request}
use hackfs_mdc.Download.Backing.{on_download_request-Evolves}
use hackfs_mdc.Json.{on_json_request}
use hackfs_mdc.Json.Backing.{on_json_request-Evolves}
use hackfs_mdc.Client.{
  Exchange, accept_response, on_response, on_upload_response, on_download_response,
  on_json_response,
}
use hackfs_mdc.Host.{Node, handle}
use hackfs_mdc.Host.Dispatch.{
  Dispatched, upload, upload_answer, download, download_answer, json, json_answer, refused,
  handle-Dispatched,
}

module _ (env : Services) (clients : Clients env) (view : View env) (law : Promises env view) where
  open env use {World, Stream}

  module _ {Req Resp : Type 0} ⦃r : Envelope Resp⦄ where
    -- The check of a response has no effect on the world.
    accept_response-world :
        (ex : Exchange Req Resp) (resp : Resp) (w : World) → (accept_response env ex resp w).1 ≡ w
    unfolding accept_response
    accept_response-world ex resp w = elim (authenticate_message-Verdict env resp w) [
      | nil_data absent run ↦ rw (run, accept_response) refl
      | accepts a run ↦ rw (run, accept_response) (rw (a.present, accept_response) refl)
      | refuses bad m run ↦ rw (run, accept_response) refl
    ]

    on_response-Extends :
        (unmarshal : Bytes → Resp × Option Error) (ex : Exchange Req Resp) (s : Stream) (w : World)
        → Extends env view w (on_response env unmarshal ex s w).1
    unfolding on_response
    on_response-Extends unmarshal ex s w =
        let w1 = (env.read_all s w).1 in
        let x = law.read_all_extends s w in
        elim (Result-cases (env.read_all s w).0) [
          | inl (e, h) ↦
              rw (h, on_response) (Extends-trans env view w w1 _ x (law.reset_extends s w1))
          | inr (bytes, h) ↦
              rw (h, on_response)
                (rw (accept_response-world ex (unmarshal bytes).0 (env.close s w1))
                  (Extends-trans env view w w1 _ x (law.close_extends s w1)))
        ]

  -- What comes after a handler in the dispatch does not touch the world.
  pure-Evolves :
      {A B : Type 0} (m : Go World A) (f : A → B) (w : World)
      → Evolves env clients view law w (m w).1
      → Evolves env clients view law w ((do a ← m; pure (f a)) w).1
  pure-Evolves m f w e = elim (Outcome-cases (m w).0) [ inl h ↦ rw h e | inr (a, h) ↦ rw h e ]

  unit-Evolves :
      {B : Type 0} (m : Go World (Unit {0})) (b : B) (w : World)
      → Evolves env clients view law w (m w).1
      → Evolves env clients view law w ((do m; pure b) w).1
  unit-Evolves m b w e = elim (Outcome-cases (m w).0) [ inl h ↦ rw h e | inr (a, h) ↦ rw h e ]

  dispatched-Evolves :
      (protocol : String) (s : Stream) (n : Node) (w : World) (m : Go World Node)
      → Dispatched env clients protocol s n m
      → Evolves env clients view law w (m w).1
  unfolding on_upload_response on_download_response on_json_response
  dispatched-Evolves protocol s n w _ (upload h) =
      unit-Evolves (on_upload_request env clients s) n w
        (on_upload_request-Evolves env clients view law s w)
  dispatched-Evolves protocol s n w _ (download h) =
      unit-Evolves (on_download_request env clients s) n w
        (on_download_request-Evolves env clients view law s w)
  dispatched-Evolves protocol s n w _ (json h) =
      unit-Evolves (on_json_request env clients s) n w
        (on_json_request-Evolves env clients view law s w)
  dispatched-Evolves protocol s n w _ (upload_answer h) =
      pure-Evolves (on_upload_response env n.upload s) (λ ex. record n { upload = ex }) w
        (same (on_response-Extends env.unmarshal_upload_response n.upload s w))
  dispatched-Evolves protocol s n w _ (download_answer h) =
      pure-Evolves (on_download_response env n.download s) (λ ex. record n { download = ex }) w
        (same (on_response-Extends env.unmarshal_download_response n.download s w))
  dispatched-Evolves protocol s n w _ (json_answer h) =
      pure-Evolves (on_json_response env n.json s) (λ ex. record n { json = ex }) w
        (same (on_response-Extends env.unmarshal_json_response n.json s w))
  dispatched-Evolves protocol s n w _ refused = same (Extends-refl env view w)

  -- A stream makes a node store at most one upload, and change nothing else of Textile.
  pub handle-Evolves :
      (protocol : String) (s : Stream) (n : Node) (w : World)
      → Evolves env clients view law w (handle env clients protocol s n w).1
  handle-Evolves protocol s n w =
      dispatched-Evolves protocol s n w (handle env clients protocol s n)
        (handle-Dispatched env clients protocol s n)
