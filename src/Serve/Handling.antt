-- ===== src/Serve/Handling.antt =====
-- A handler of requests on every branch, from the stream to the answer.
use hackfs_mdc.Base.{
  ◌≡◌, refl, ap, ◌∙◌, ◌⊎◌, inl, inr, String, Bool, false, Option, none, some, Option-cases,
  Bool-cases, if◌then◌else◌,
}
use hackfs_mdc.Go.{Go, Outcome, ok, err, returned, panicked, ◌>>=◌}
use hackfs_mdc.Go.Laws.{Result-cases}
use hackfs_mdc.Common.{Error}
use hackfs_mdc.Messages.{Bytes, MessageData}
use hackfs_mdc.Messages.Envelope.{Envelope}
use hackfs_mdc.Services.{Services}
use hackfs_mdc.Node.Authenticity.{
  IsAuthentic, nil_data, accepts, refuses, authenticate_message-Verdict,
}
use hackfs_mdc.Serve.{respond, answer, serve_request}
use hackfs_mdc.Serve.Outcomes.{answer_authentic, answer_nil, answer_other, serve_read, serve_unread}

module _ (env : Services) {Req Resp : Type 0} ⦃q : Envelope Req⦄ ⦃r : Envelope Resp⦄
    (process : Req → Go env.World Resp) (unmarshal : Bytes → Req × Option Error) (protocol : String)
    (complete : Req → Bool) where
  open env use {World, Stream, read_all, reset, close, remote_peer}

  -- How the handler ends, in the world `w`, on the stream `s`: a stream that cannot be read is reset;
  -- a request without what the log line reads, or without message data, is a panic; one that is not
  -- authentic changes nothing but the stream; one that is authentic is processed and answered. That
  -- the request could not be unmarshalled plays no part.
  pub data Handling (s : Stream) (w : World) : Outcome (Unit {0}) × World → Type 0 where
    unread :
        (e : Error) (w' : World)
        → read_all s w ≡ (err e, w')
        → Handling s w (returned tt, reset s w')
    nil :
        (bytes : Bytes) (w' : World)
        → read_all s w ≡ (ok bytes, w')
        → (complete (unmarshal bytes).0 ≡ false) ⊎ (q.get (unmarshal bytes).0 ≡ none)
        → Handling s w (panicked, close s w')
    rejected :
        (bytes : Bytes) (w' : World) (d : MessageData)
        → read_all s w ≡ (ok bytes, w')
        → q.get (unmarshal bytes).0 ≡ some d
        → (¬ IsAuthentic env (unmarshal bytes).0)
        → Handling s w (returned tt, close s w')
    answered :
        (bytes : Bytes) (w' : World)
        → read_all s w ≡ (ok bytes, w')
        → IsAuthentic env (unmarshal bytes).0
        → Handling s w (
            (do resp ← process (unmarshal bytes).0; respond env (remote_peer s) protocol resp)
              (close s w'))

  module _ (inspect : Req → Go World (Unit {0}))
      (inspects : (req : Req) (w : World)
        → inspect req w ≡ (if complete req then returned tt else panicked, w)) where
    answer-incomplete :
        (peer : String) (req : Req) (w : World)
        → complete req ≡ false
        → answer env inspect process peer protocol req w ≡ (panicked, w)
    unfolding answer
    answer-incomplete peer req w h = rw (inspects req w, answer) (rw (h, answer) refl)

    answer_read :
        (s : Stream) (bytes : Bytes) (w w' : World)
        → read_all s w ≡ (ok bytes, w')
        → Handling s w
            (answer env inspect process (remote_peer s) protocol (unmarshal bytes).0 (close s w'))
    answer_read s bytes w w' h =
        let req = (unmarshal bytes).0 in
        let v = close s w' in
        elim (Bool-cases (complete req)) [
          | inr lacks ↦
              rw (answer-incomplete (remote_peer s) req v lacks) (nil bytes w' h (inl lacks))
          | inl whole ↦
              let inspected : inspect req v ≡ (returned tt, v) =
                inspects req v ∙ ap (λ b. (if b then returned tt else panicked, v)) whole in
              elim (authenticate_message-Verdict env req v) [
                | nil_data absent _ ↦
                    rw
                      (answer_nil env inspect process (remote_peer s) protocol req v inspected
                        absent)
                      (nil bytes w' h (inr absent))
                | accepts a _ ↦
                    rw
                      (answer_authentic env inspect process (remote_peer s) protocol req v inspected
                        a)
                      (answered bytes w' h a)
                | refuses bad _ _ ↦ elim (Option-cases (q.get req)) [
                  | inl absent ↦
                      rw
                        (answer_nil env inspect process (remote_peer s) protocol req v inspected
                          absent)
                        (nil bytes w' h (inr absent))
                  | inr (d, present) ↦
                      rw
                        (answer_other env inspect process (remote_peer s) protocol req v inspected d
                          present bad)
                        (rejected bytes w' d h present bad)
                ]
              ]
        ]

    pub serve_request-Handling :
        (s : Stream) (w : World)
        → Handling s w (serve_request env inspect process unmarshal protocol s w)
    serve_request-Handling s w =
        let w1 = (read_all s w).1 in
        elim (Result-cases (read_all s w).0) [
          | inl (e, h) ↦
              let read : read_all s w ≡ (err e, w1) = λ i. (h i, w1) in
              rw (serve_unread env inspect process unmarshal protocol s w w1 e read)
                (unread e w1 read)
          | inr (bytes, h) ↦
              let read : read_all s w ≡ (ok bytes, w1) = λ i. (h i, w1) in
              rw (serve_read env inspect process unmarshal protocol s w w1 bytes read)
                (answer_read s bytes w w1 read)
        ]
