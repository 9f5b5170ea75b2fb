-- ===== src/Serve/Effects.antt =====
-- What the handlers and the sending of a response do to the content store.
use hackfs_mdc.Base.{◌≡◌, subst, String, Bool, Option, inl, inr, Option-cases}
use hackfs_mdc.Go.{Go, Outcome, Result, ok, err, pure, ◌>>=◌}
use hackfs_mdc.Go.Laws.{Result-cases, Outcome-cases}
use hackfs_mdc.Common.{Error}
use hackfs_mdc.Messages.{Bytes}
use hackfs_mdc.Messages.Envelope.{Envelope}
use hackfs_mdc.Services.{Services}
use hackfs_mdc.Node.{
  new_message_data, get_time_stamp_millisecond, sign_proto_message, sign_data, set_sign,
  send_proto_message, send_over,
}
use hackfs_mdc.Textile.{Clients}
use hackfs_mdc.Textile.Promises.{View, Extends, Extends-refl, Extends-trans, Promises}
use hackfs_mdc.Content.Evolution.{Evolves, same, Evolves-Extends}
use hackfs_mdc.Serve.{respond}
use hackfs_mdc.Serve.Handling.{Handling, unread, nil, rejected, answered}

module _ (env : Services) (view : View env) (law : Promises env view) where
  open env use {World, unix_nano}

  pub new_message_data-Extends :
      (id : String) (gossip : Bool) (w : World)
      → Extends env view w (new_message_data env id gossip w).1
  unfolding new_message_data
  new_message_data-Extends id gossip w = elim (Result-cases env.host_pub_key_bytes) [
    | inl (x, e) ↦ rw (e, new_message_data) (Extends-refl env view w)
    | inr (pk, e) ↦ rw (e, new_message_data) (law.clock_extends w)
  ]

  pub get_time_stamp_millisecond-Extends :
      (w : World) → Extends env view w (get_time_stamp_millisecond env w).1
  unfolding get_time_stamp_millisecond
  get_time_stamp_millisecond-Extends w = law.clock_extends w

  module _ {M : Type 0} ⦃e : Envelope M⦄ where
    sign_proto_message-Extends :
        (m : M) (w : World) → Extends env view w (sign_proto_message env m w).1
    unfolding sign_proto_message sign_data
    sign_proto_message-Extends m w = elim (Result-cases (env.proto_marshal (e.message m))) [
      | inl (x, f) ↦ rw (f, sign_proto_message) (Extends-refl env view w)
      | inr (b, f) ↦ rw (f, sign_proto_message) (law.sign_extends b w)
    ]

    set_sign-Extends :
        (sig : Bytes) (m : M) (w : World) → Extends env view w (set_sign env sig m w).1
    unfolding set_sign
    set_sign-Extends sig m w = elim (Option-cases (e.get m)) [
      | inl f ↦ rw (f, set_sign) (Extends-refl env view w)
      | inr (d, f) ↦ rw (f, set_sign) (Extends-refl env view w)
    ]

    send_over-Extends :
        (m : M) (s : env.Stream) (w : World) → Extends env view w (send_over env m s w).1
    unfolding send_over
    send_over-Extends m s w =
        let w1 = (env.write_msg s (e.message m) w).1 in
        let w2 = (env.full_close s w1).1 in
        let x1 = law.write_msg_extends s (e.message m) w in
        let x2 = Extends-trans env view w w1 w2 x1 (law.full_close_extends s w1) in
        elim (Option-cases (env.write_msg s (e.message m) w).0) [
          | inr (x, f) ↦
              rw (f, send_over) (Extends-trans env view w w1 _ x1 (law.reset_extends s w1))
          | inl f ↦ elim (Option-cases (env.full_close s w1).0) [
            | inr (x, g) ↦
                rw (f, send_over)
                  (rw (g, send_over) (Extends-trans env view w w2 _ x2 (law.reset_extends s w2)))
            | inl g ↦ rw (f, send_over) (rw (g, send_over) x2)
          ]
        ]

    send_proto_message-Extends :
        (peer protocol : String) (m : M) (w : World)
        → Extends env view w (send_proto_message env peer protocol m w).1
    unfolding send_proto_message
    send_proto_message-Extends peer protocol m w =
        let w1 = (env.new_stream peer protocol w).1 in
        let x1 = law.new_stream_extends peer protocol w in
        elim (Result-cases (env.new_stream peer protocol w).0) [
          | inl (x, f) ↦ rw (f, send_proto_message) x1
          | inr (s, f) ↦
              rw (f, send_proto_message)
                (Extends-trans env view w w1 _ x1 (send_over-Extends m s w1))
        ]

    respond-sends :
        (peer protocol : String) (m : M) (w : World)
        → Extends env view w ((do sent ← send_proto_message env peer protocol m; pure tt) w).1
    respond-sends peer protocol m w =
        let x = send_proto_message-Extends peer protocol m w in
        elim (Outcome-cases (send_proto_message env peer protocol m w).0) [
          | inl f ↦ rw f x
          | inr (sent, f) ↦ rw f x
        ]

    pub respond-Extends :
        (peer protocol : String) (m : M) (w : World)
        → Extends env view w (respond env peer protocol m w).1
    unfolding respond
    respond-Extends peer protocol m w =
        let w1 = (sign_proto_message env m w).1 in
        let x1 = sign_proto_message-Extends m w in
        elim (Outcome-cases (sign_proto_message env m w).0) [
          | inl f ↦ rw (f, respond) x1
          | inr (err x, f) ↦ rw (f, respond) x1
          | inr (ok sig, f) ↦
              let w2 = (set_sign env sig m w1).1 in
              let x2 = Extends-trans env view w w1 w2 x1 (set_sign-Extends sig m w1) in
              elim (Outcome-cases (set_sign env sig m w1).0) [
                | inl g ↦ rw (f, respond) (rw (g, respond) x2)
                | inr (signed, g) ↦
                    rw (f, respond)
                      (rw (g, respond)
                        (Extends-trans env view w w2 _ x2 (respond-sends peer protocol signed w2)))
              ]
        ]

  read-Extends :
      (s : env.Stream) (o : Result Error Bytes) (w w' : World)
      → env.read_all s w ≡ (o, w')
      → Extends env view w w'
  read-Extends s o w w' h =
      subst (λ v. Extends env view w v) (λ i. (h i).1) (law.read_all_extends s w)

  closed-Extends :
      (s : env.Stream) (bytes : Bytes) (w w' : World)
      → env.read_all s w ≡ (ok bytes, w')
      → Extends env view w (env.close s w')
  closed-Extends s bytes w w' h =
      Extends-trans env view w w' _ (read-Extends s (ok bytes) w w' h) (law.close_extends s w')

  module _ {Req Resp : Type 0} ⦃q : Envelope Req⦄ ⦃r : Envelope Resp⦄ (clients : Clients env)
      (process : Req → Go World Resp) (unmarshal : Bytes → Req × Option Error) (protocol : String)
      (complete : Req → Bool)
      (evolves : (req : Req) (u w : World)
        → Extends env view u w
        → Evolves env clients view law u (process req w).1) where
    answered-Evolves :
        (peer : String) (req : Req) (u w : World)
        → Extends env view u w
        → Evolves env clients view law u
            ((do resp ← process req; respond env peer protocol resp) w).1
    answered-Evolves peer req u w x =
        let e = evolves req u w x in
        let w1 = (process req w).1 in
        elim (Outcome-cases (process req w).0) [
          | inl f ↦ rw f e
          | inr (resp, f) ↦ rw f (
              Evolves-Extends env clients view law u w1 _ e (respond-Extends peer protocol resp w1))
        ]

    -- A handler does to the content store what the processing of its requests does.
    pub Handling-Evolves :
        (s : env.Stream) (w : World) (o : Outcome (Unit {0}) × World)
        → Handling env process unmarshal protocol complete s w o
        → Evolves env clients view law w o.1
    Handling-Evolves s w _ (unread e w' h) =
        same
          (Extends-trans env view w w' _ (read-Extends s (err e) w w' h) (law.reset_extends s w'))
    Handling-Evolves s w _ (nil bytes w' h _) = same (closed-Extends s bytes w w' h)
    Handling-Evolves s w _ (rejected bytes w' d h _ _) = same (closed-Extends s bytes w w' h)
    Handling-Evolves s w _ (answered bytes w' h a) =
        answered-Evolves (env.remote_peer s) (unmarshal bytes).0 w (env.close s w')
          (closed-Extends s bytes w w' h)
