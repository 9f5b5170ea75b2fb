-- ===== src/Serve/Outcomes.antt =====
-- What a handler does with each request.
use hackfs_mdc.Base.{◌≡◌, String, Option, none, some, arith}
use hackfs_mdc.Go.{Go, ok, err, returned, panicked, ◌>>=◌}
use hackfs_mdc.Common.{Error}
use hackfs_mdc.Messages.{Bytes, MessageData}
use hackfs_mdc.Messages.Envelope.{Envelope}
use hackfs_mdc.Services.{Services}
use hackfs_mdc.Node.Authenticity.{
  IsAuthentic, nil_data, accepts, refuses, authenticate_message-Verdict, authenticate_authentic,
  authenticate_nil,
}
use hackfs_mdc.Serve.{respond, answer, serve_request}

module _ (env : Services) where
  open env use {World, Stream, read_all, reset, close, remote_peer}

  module _ {Req Resp : Type 0} ⦃q : Envelope Req⦄ ⦃r : Envelope Resp⦄
      (inspect : Req → Go World (Unit {0})) (process : Req → Go World Resp) (peer protocol : String)
      (req : Req) (w : World) (inspected : inspect req w ≡ (returned tt, w)) where
    -- An authentic request is processed and answered.
    pub answer_authentic :
        IsAuthentic env req
        → answer env inspect process peer protocol req w
          ≡ (do resp ← process req; respond env peer protocol resp) w
    unfolding answer
    answer_authentic a = rw (inspected, answer) (rw (authenticate_authentic env req w a, answer))

    pub answer_nil :
        q.get req ≡ none → answer env inspect process peer protocol req w ≡ (panicked, w)
    unfolding answer
    answer_nil absent = rw (inspected, answer) (rw (authenticate_nil env req w absent, answer))

    -- Any other request with message data changes nothing.
    pub answer_other :
        (d : MessageData)
        → q.get req ≡ some d
        → (¬ IsAuthentic env req)
        → answer env inspect process peer protocol req w ≡ (returned tt, w)
    unfolding answer
    answer_other d present bad = elim (authenticate_message-Verdict env req w) [
      | nil_data absent _ ↦ ground (arith)
      | accepts a _ ↦ absurd (bad a)
      | refuses _ m run ↦ rw (inspected, answer) (rw (run, answer))
    ]

  module _ {Req Resp : Type 0} ⦃q : Envelope Req⦄ ⦃r : Envelope Resp⦄
      (inspect : Req → Go World (Unit {0})) (process : Req → Go World Resp)
      (unmarshal : Bytes → Req × Option Error) (protocol : String) (s : Stream) (w w' : World) where
    pub serve_read :
        (bytes : Bytes)
        → read_all s w ≡ (ok bytes, w')
        → serve_request env inspect process unmarshal protocol s w
          ≡ answer env inspect process (remote_peer s) protocol (unmarshal bytes).0 (close s w')
    unfolding serve_request
    serve_read bytes h = rw (h, serve_request)

    pub serve_unread :
        (e : Error)
        → read_all s w ≡ (err e, w')
        → serve_request env inspect process unmarshal protocol s w ≡ (returned tt, reset s w')
    unfolding serve_request
    serve_unread e h = rw (h, serve_request)
