-- ===== src/Node/Working.antt =====
-- A node whose services work: what keeps backend/pkg/libp2pnode/node.go from panicking.
use hackfs_mdc.Base.{◌≡◌, refl, inl, inr, String, Bool, true, false, some, Option-cases, arith}
use hackfs_mdc.Base.Int.{ℤ}
use hackfs_mdc.Go.{ok}
use hackfs_mdc.Go.Laws.{Result-cases}
use hackfs_mdc.Go.Yielding.{Yields, Any}
use hackfs_mdc.Messages.{Bytes, MessageData}
use hackfs_mdc.Messages.Envelope.{Envelope}
use hackfs_mdc.Services.{Services}
use hackfs_mdc.Node.{
  get_time_stamp_millisecond, get_ulid, new_message_data, authenticate_message, sign_proto_message,
  sign_data, set_sign, send_over, send_proto_message,
}
use hackfs_mdc.Node.Authenticity.{nil_data, accepts, refuses, authenticate_message-Verdict}

module _ (env : Services) where
  open env use {World}

  -- The host has a public key, and the source of ULIDs is not exhausted.
  pub record Working : Type 0 where
    pub pk : Bytes
    pub keyed : env.host_pub_key_bytes ≡ ok pk
    pub ulids : (t : ℤ) → Yields Any (env.ulid_must_new t)

  pub time-Yields : Yields Any (get_time_stamp_millisecond env)
  unfolding get_time_stamp_millisecond
  time-Yields w = (_, tt, refl)

  pub ulid-Yields : Working → Yields Any (get_ulid env)
  unfolding get_ulid
  ulid-Yields k w = k.ulids (env.unix_nano w).0 (env.unix_nano w).1

  pub new_message_data-Yields :
      Working → (id : String) (gossip : Bool) → Yields Any (new_message_data env id gossip)
  unfolding new_message_data
  new_message_data-Yields k id gossip w = rw (k.keyed, new_message_data) (_, tt, refl)

  module _ {M : Type 0} ⦃e : Envelope M⦄ where
    -- The message points to message data.
    abbrev pub HasData : M → Type 0
    HasData m = (d : MessageData) × (e.get m ≡ some d)

    pub authenticate_message-Yields :
        (m : M) → HasData m → Yields (λ r. r.0 ≡ true → r.1 ≡ m) (authenticate_message env m)
    authenticate_message-Yields m (d, present) w = elim (authenticate_message-Verdict env m w) [
      | nil_data absent run ↦ absurd (ground arith)
      | accepts a run ↦ rw run ((true, m), (λ h. refl), refl)
      | refuses bad m' run ↦ rw run ((false, m'), (λ h. absurd (ground arith)), refl)
    ]

    pub sign_proto_message-Yields : (m : M) → Yields Any (sign_proto_message env m)
    unfolding sign_proto_message sign_data
    sign_proto_message-Yields m w = elim (Result-cases (env.proto_marshal (e.message m))) [
      | inl (x, f) ↦ rw (f, sign_proto_message) (_, tt, refl)
      | inr (b, f) ↦ rw (f, sign_proto_message) (_, tt, refl)
    ]

    pub set_sign-Yields : (sig : Bytes) (m : M) → HasData m → Yields Any (set_sign env sig m)
    unfolding set_sign
    set_sign-Yields sig m (d, present) w = rw (present, set_sign) (_, tt, refl)

    send_over-Yields : (m : M) (s : env.Stream) → Yields Any (send_over env m s)
    unfolding send_over
    send_over-Yields m s w =
        let w1 = (env.write_msg s (e.message m) w).1 in
        elim (Option-cases (env.write_msg s (e.message m) w).0) [
          | inr (x, f) ↦ rw (f, send_over) (_, tt, refl)
          | inl f ↦ elim (Option-cases (env.full_close s w1).0) [
            | inr (x, g) ↦ rw (f, send_over) (rw (g, send_over) (_, tt, refl))
            | inl g ↦ rw (f, send_over) (rw (g, send_over) (_, tt, refl))
          ]
        ]

    pub send_proto_message-Yields :
        (peer protocol : String) (m : M) → Yields Any (send_proto_message env peer protocol m)
    unfolding send_proto_message
    send_proto_message-Yields peer protocol m w =
        elim (Result-cases (env.new_stream peer protocol w).0) [
          | inl (x, f) ↦ rw (f, send_proto_message) (_, tt, refl)
          | inr (s, f) ↦ rw (f, send_proto_message) (send_over-Yields m s _)
        ]
