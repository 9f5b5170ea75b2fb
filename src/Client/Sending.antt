-- ===== src/Client/Sending.antt =====
-- What UploadTo, DownloadFrom and SendJsonAPITo send, and what they leave in the map of requests.
use hackfs_mdc.Base.{◌≡◌, refl, String, true, false, Option, some, inl, inr, Option-cases}
use hackfs_mdc.Go.{Result, ok, err, returned, panicked}
use hackfs_mdc.Go.Laws.{Result-cases, Outcome-cases}
use hackfs_mdc.Common.{Caller, Error}
use hackfs_mdc.Messages.{Bytes, MessageData}
use hackfs_mdc.Messages.Envelope.{Envelope}
use hackfs_mdc.Services.{Services}
use hackfs_mdc.Serve.Replies.{Returns}
use hackfs_mdc.Node.{
  get_ulid, sign_proto_message, sign_data, set_sign, send_over, send_proto_message,
}
use hackfs_mdc.Node.Authenticity.{IsAuthentic}
use hackfs_mdc.Node.Signing.{
  HostKeys, own_data, own_data-IsOwn, new_message_data_lem, signed-IsAuthentic,
}
use hackfs_mdc.Client.{Exchange, register, transmit, send_request}

module _ (env : Services) where
  open env use {World, unix_nano, host_pub_key_bytes}

  module _ {M : Type 0} ⦃e : Envelope M⦄ where
    -- A computation that may not panic, taken apart by its value.
    data Signing (m : M) (w : World) : Type 0 where
      unsigned :
          (x : Error) (w' : World)
          → sign_proto_message env m w ≡ (returned (err x), w')
          → Signing m w
      signed :
          (sig : Bytes) (w' : World)
          → sign_proto_message env m w ≡ (returned (ok sig), w')
          → Signing m w

    sign_proto_message-Signing : (m : M) (w : World) → Signing m w
    unfolding sign_proto_message sign_data
    sign_proto_message-Signing m w = elim (Result-cases (env.proto_marshal (e.message m))) [
      | inl (x, f) ↦ unsigned x w (rw (f, sign_proto_message) refl)
      | inr (b, f) ↦
          let w' = (env.host_key_sign b w).1 in
          elim (Result-cases (env.host_key_sign b w).0) [
            | inl (x, g) ↦ unsigned x w' (rw (f, sign_proto_message) (rw (g, sign_data) refl))
            | inr (sig, g) ↦ signed sig w' (rw (f, sign_proto_message) (rw (g, sign_data) refl))
          ]
    ]

    set_sign_lem :
        (m : M) (d : MessageData) (sig : Bytes) (w : World)
        → e.get m ≡ some d
        → set_sign env sig m w ≡ (returned (e.put m (record d { sign = sig })), w)
    unfolding set_sign
    set_sign_lem m d sig w present = rw (present, set_sign) refl

    data Sending (peer protocol : String) (m : M) (w : World) : Type 0 where
      unsent :
          (w' : World)
          → send_proto_message env peer protocol m w ≡ (returned false, w')
          → Sending peer protocol m w
      sent :
          (w' : World)
          → send_proto_message env peer protocol m w ≡ (returned true, w')
          → Sending peer protocol m w

    send_proto_message-Sending :
        (peer protocol : String) (m : M) (w : World) → Sending peer protocol m w
    unfolding send_proto_message send_over
    send_proto_message-Sending peer protocol m w =
        let w1 = (env.new_stream peer protocol w).1 in
        elim (Result-cases (env.new_stream peer protocol w).0) [
          | inl (x, f) ↦ unsent w1 (rw (f, send_proto_message) refl)
          | inr (s, f) ↦
              let w2 = (env.write_msg s (e.message m) w1).1 in
              let w3 = (env.full_close s w2).1 in
              elim (Option-cases (env.write_msg s (e.message m) w1).0) [
                | inr (x, g) ↦
                    unsent (env.reset s w2) (rw (f, send_proto_message) (rw (g, send_over) refl))
                | inl g ↦ elim (Option-cases (env.full_close s w2).0) [
                  | inr (x, h) ↦
                      unsent (env.reset s w3)
                        (rw (f, send_proto_message) (rw (g, send_over) (rw (h, send_over) refl)))
                  | inl h ↦
                      sent w3
                        (rw (f, send_proto_message) (rw (g, send_over) (rw (h, send_over) refl)))
                ]
              ]
        ]

  module _ {Req : Type 0} ⦃q : Envelope Req⦄ (pk : Bytes) (keyed : host_pub_key_bytes ≡ ok pk)
      (keys : HostKeys env) (caller : Option Caller) (peer protocol : String)
      (make : MessageData → Req) (makes : (md : MessageData) → q.get (make md) ≡ some md) where
    -- `req` is authentic, is what `make` makes, carries the fresh ULID that is read in the world `w`, and was sent to the
    -- peer by the call that ends in `w'`.
    pub record IsSent (w : World) (req : Req) (w' : World) : Type 0 where
      pub d : MessageData
      pub present : q.get req ≡ some d
      pub made : (md : MessageData) × (req ≡ q.put (make md) d)
      pub authentic : IsAuthentic env req
      pub fresh : (get_ulid env w).0 ≡ returned d.id
      pub delivered :
          (v : World) × (send_proto_message env peer protocol req v ≡ (returned true, w'))

    abbrev WasSent : World → Result Error Req → World → Type 0
    WasSent w (ok req) w' = IsSent w req w'
    WasSent w (err x) w' = Unit {0}

    transmit_lem :
        (w : World)
        → let r = transmit env caller peer protocol make w in
          Returns (WasSent w) (λ w'. (get_ulid env w).0 ≡ panicked) r.0 r.1
    unfolding transmit set_sign
    transmit_lem w = elim (Outcome-cases (get_ulid env w).0) [
      | inl e ↦ rw (e, transmit) refl
      | inr (ulid, e) ↦
          let w1 = (get_ulid env w).1 in
          let w2 = (unix_nano w1).1 in
          let md = own_data env pk (unix_nano w1).0 ulid false in
          let own = own_data-IsOwn env pk (unix_nano w1).0 ulid false keyed in
          elim (sign_proto_message-Signing (make md) w2) [
            | unsigned x w3 f ↦
                rw (e, transmit)
                  (rw (new_message_data_lem env pk ulid false w1 keyed, transmit)
                    (rw (f, transmit) tt))
            | signed sig w3 f ↦
                let req = q.put (make md) (record md { sign = sig }) in
                elim (send_proto_message-Sending peer protocol req w3) [
                  | unsent w4 g ↦
                      rw (e, transmit)
                        (rw (new_message_data_lem env pk ulid false w1 keyed, transmit)
                          (rw (f, transmit)
                            (rw (set_sign_lem (make md) md sig w3 (makes md), transmit)
                              (rw (g, transmit) tt))))
                  | sent w4 g ↦
                      rw (e, transmit)
                        (rw (new_message_data_lem env pk ulid false w1 keyed, transmit)
                          (rw (f, transmit)
                            (rw (set_sign_lem (make md) md sig w3 (makes md), transmit)
                              (rw (g, transmit)
                                (record {
                                  d = record md { sign = sig };
                                  present = q.get-put (make md) (record md { sign = sig });
                                  made = (md, refl);
                                  authentic =
                                      signed-IsAuthentic env keys (make md) md sig w2 w3 (makes md)
                                        own f;
                                  fresh = e;
                                  delivered = (w3, g);
                                })))))
                ]
          ]
    ]

    -- Sending fails, and the map of requests is as before; or the request that was sent, an
    -- authentic one with a fresh ID, is in the map under that ID.
    abbrev pub SendAnswer :
        {Resp : Type 0}
        → Exchange Req Resp
        → World
        → Result Error String × Exchange Req Resp
        → World
        → Type 0
    SendAnswer ex w (err x, after) w' = after ≡ ex
    SendAnswer ex w (ok id, after) w' =
        (req : Req) × (s : IsSent w req w') × (id ≡ s.d.id) × (after ≡ register ex id req)

    -- If the host's keys are in order, sending a request fails and leaves the requests that wait
    -- as they were, or gives the fresh ID of an authentic request that was sent to the peer and
    -- waits under that ID, or panics in the making of the ID.
    pub send_request_lem :
        {Resp : Type 0} (ex : Exchange Req Resp) (w : World)
        → let r = send_request env caller peer protocol make ex w in
          Returns (SendAnswer ex w) (λ w'. (get_ulid env w).0 ≡ panicked) r.0 r.1
    unfolding send_request
    send_request_lem ex w =
        let w1 = (transmit env caller peer protocol make w).1 in
        let t = transmit_lem w in
        elim (Outcome-cases (transmit env caller peer protocol make w).0) [
          | inl e ↦ rw (e, send_request) (rw e at t)
          | inr (err x, e) ↦ rw (e, send_request) refl
          | inr (ok req, e) ↦
              let s : IsSent w req w1 = rw e at t in
              rw (e, send_request) (rw (s.present, send_request) (req, s, refl, refl))
        ]
