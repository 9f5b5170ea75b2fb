-- ===== src/Serve/Returning.antt =====
-- A handler returns if the processing of its requests does.
use hackfs_mdc.Base.{◌≡◌, refl, inl, inr, String, Bool, true, false, Option}
use hackfs_mdc.Go.{Go, Result, ok, err, returned, pure, ◌>>=◌}
use hackfs_mdc.Go.Laws.{Result-cases}
use hackfs_mdc.Go.Yielding.{Yields, Any, bind-Yields}
use hackfs_mdc.Common.{Error}
use hackfs_mdc.Messages.{Bytes}
use hackfs_mdc.Messages.Envelope.{Envelope}
use hackfs_mdc.Services.{Services}
use hackfs_mdc.Node.{authenticate_message, sign_proto_message, set_sign, send_proto_message}
use hackfs_mdc.Node.Working.{
  HasData, authenticate_message-Yields, sign_proto_message-Yields, set_sign-Yields,
  send_proto_message-Yields,
}
use hackfs_mdc.Serve.{respond, answer, serve_request}

module _ (env : Services) where
  open env use {World}

  module _ {Resp : Type 0} ⦃r : Envelope Resp⦄ where
    respond-Yields :
        (peer protocol : String) (resp : Resp)
        → HasData env resp
        → Yields Any (respond env peer protocol resp)
    unfolding respond
    respond-Yields peer protocol resp h =
        bind-Yields Any Any (sign_proto_message env resp) _ (sign_proto_message-Yields env resp)
          (λ signed _. signed_lem signed)
      where
        signed_lem :
            (signed : Result Error Bytes)
            → Yields {W = World} {A = Unit {0}} Any (elim signed [
              | err x ↦ pure tt
              | ok signature ↦ do
                resp' ← set_sign env signature resp
                sent ← send_proto_message env peer protocol resp'
                pure tt
            ])
        signed_lem (err x) = λ w. (tt, tt, refl)
        signed_lem (ok sig) =
            bind-Yields Any Any (set_sign env sig resp) _ (set_sign-Yields env sig resp h) (λ m _.
              bind-Yields Any Any (send_proto_message env peer protocol m) _
                (send_proto_message-Yields env peer protocol m) (λ sent _ w. (tt, tt, refl)))

  module _ {Req Resp : Type 0} ⦃q : Envelope Req⦄ ⦃r : Envelope Resp⦄
      (inspect : Req → Go World (Unit {0})) (process : Req → Go World Resp) where
    answer-Yields :
        (peer protocol : String) (req : Req)
        → HasData env req
        → Yields Any (inspect req)
        → Yields (HasData env) (process req)
        → Yields Any (answer env inspect process peer protocol req)
    unfolding answer
    answer-Yields peer protocol req h yi yp = bind-Yields Any Any (inspect req) _ yi (λ _ _.
        bind-Yields _ Any (authenticate_message env req) _ (authenticate_message-Yields env req h)
          (λ checked same. checked_lem checked same))
      where
        checked_lem :
            (checked : Bool × Req)
            → (checked.0 ≡ true → checked.1 ≡ req)
            → Yields {W = World} {A = Unit {0}} Any (elim checked.0 [
              | false ↦ pure tt
              | true ↦ do resp ← process checked.1; respond env peer protocol resp
            ])
        checked_lem (false, m) same = λ w. (tt, tt, refl)
        checked_lem (true, m) same = rw (same refl) (
            bind-Yields (HasData env) Any (process req) _ yp
              (λ resp h'. respond-Yields peer protocol resp h'))

    pub serve_request-Yields :
        (unmarshal : Bytes → Req × Option Error) (protocol : String) (s : env.Stream) (w : World)
        → ((bytes : Bytes)
            → (env.read_all s w).0 ≡ ok bytes
            → HasData env (unmarshal bytes).0
              × Yields Any (inspect (unmarshal bytes).0)
              × Yields (HasData env) (process (unmarshal bytes).0))
        → (serve_request env inspect process unmarshal protocol s w).0 ≡ returned tt
    unfolding serve_request
    serve_request-Yields unmarshal protocol s w complete =
        elim (Result-cases (env.read_all s w).0) [
          | inl (x, f) ↦ rw (f, serve_request) refl
          | inr (bytes, f) ↦
              let (h, yi, yp) = complete bytes f in
              let (u, _, run) =
                answer-Yields (env.remote_peer s) protocol (unmarshal bytes).0 h yi yp
                  (env.close s (env.read_all s w).1) in
              rw (f, serve_request) run
        ]
