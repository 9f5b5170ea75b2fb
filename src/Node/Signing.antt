-- ===== src/Node/Signing.antt =====
-- What a node signs is accepted: the message data that it makes and the signature that it adds pass
-- the check of the receiver.
use hackfs_mdc.Base.{◌≡◌, refl, inl, inr, sym, ap, ◌∙◌, subst, String, Bool, true, some, [], arith}
use hackfs_mdc.Base.Int.{ℤ, floor_ℕ}
use hackfs_mdc.Go.{ok, returned}
use hackfs_mdc.Go.Laws.{Result-cases}
use hackfs_mdc.Messages.{Bytes, MessageData}
use hackfs_mdc.Messages.Envelope.{Envelope}
use hackfs_mdc.Services.{Services}
use hackfs_mdc.Node.{
  client_version, sign_data, sign_proto_message, set_sign, new_message_data, authenticate_message,
}
use hackfs_mdc.Node.Authenticity.{IsAuthentic, authenticate_authentic}

module _ (env : Services) where
  open env use {
    World, PubKey, unmarshal_public_key, id_from_public_key, key_verify, peer_decode, peer_encode,
    host_id, host_pub_key_bytes, host_key_sign, proto_marshal, unix_nano,
  }

  -- What libp2p promises of the host's keys: the public key survives its encoding and belongs to
  -- the host, an ID survives its encoding, and a signature of the private key verifies.
  pub record HostKeys : Type 0 where
    pub key : PubKey
    pub key_read : (pk : Bytes) → host_pub_key_bytes ≡ ok pk → unmarshal_public_key pk ≡ ok key
    pub key_owner : id_from_public_key key ≡ ok host_id
    pub id_decoded : peer_decode (peer_encode host_id) ≡ ok host_id
    pub signs :
        (bin sig : Bytes) (w w' : World)
        → host_key_sign bin w ≡ (ok sig, w')
        → key_verify key bin sig ≡ ok true

  -- The message data names the host and carries its key, and is not signed yet.
  pub record IsOwn (d : MessageData) : Type 0 where
    pub named : d.node_id ≡ peer_encode host_id
    pub keyed : host_pub_key_bytes ≡ ok d.node_pub_key
    pub unsigned : d.sign ≡ []

  -- The message data of the host, with its key `pk`, at the time `t`.
  abbrev pub own_data : Bytes → ℤ → String → Bool → MessageData
  own_data pk t id gossip = record {
    client_version = client_version;
    timestamp = floor_ℕ t 1000000000;
    id = id;
    gossip = gossip;
    node_id = peer_encode host_id;
    node_pub_key = pk;
    sign = [];
  }

  pub own_data-IsOwn :
      (pk : Bytes) (t : ℤ) (id : String) (gossip : Bool)
      → host_pub_key_bytes ≡ ok pk
      → IsOwn (own_data pk t id gossip)
  own_data-IsOwn pk t id gossip h = record { named = refl; keyed = h; unsigned = refl }

  pub new_message_data_lem :
      (pk : Bytes) (id : String) (gossip : Bool) (w : World)
      → host_pub_key_bytes ≡ ok pk
      → new_message_data env id gossip w
        ≡ (returned (own_data pk (unix_nano w).0 id gossip), (unix_nano w).1)
  unfolding new_message_data
  new_message_data_lem pk id gossip w h = rw (h, new_message_data)

  module _ {M : Type 0} ⦃e : Envelope M⦄ where
    sign_proto_message-inv :
        (m : M) (sig : Bytes) (w w' : World)
        → sign_proto_message env m w ≡ (returned (ok sig), w')
        → (bin : Bytes) × (proto_marshal (e.message m) ≡ ok bin)
          × (host_key_sign bin w ≡ (ok sig, w'))
    unfolding sign_proto_message sign_data
    sign_proto_message-inv m sig w w' h = elim (Result-cases (proto_marshal (e.message m))) [
      | inl (x, q) ↦ absurd (ground arith)
      | inr (b, q) ↦ (b, q, ground arith)
    ]

    put_unsigned :
        (m : M) (d : MessageData) (sig : Bytes)
        → e.get m ≡ some d
        → d.sign ≡ []
        → e.put (e.put m (record d { sign = sig })) (record d { sign = [] }) ≡ m
    put_unsigned m d sig present unsigned =
        e.put-put m (record d { sign = sig }) (record d { sign = [] })
        ∙ ap (λ s. e.put m (record d { sign = s })) (sym unsigned)
        ∙ e.put-get m d present

    pub signed-IsAuthentic :
        HostKeys
        → (m : M) (d : MessageData) (sig : Bytes) (w w' : World) → e.get m ≡ some d
        → IsOwn d
        → sign_proto_message env m w ≡ (returned (ok sig), w')
        → IsAuthentic env (e.put m (record d { sign = sig }))
    signed-IsAuthentic keys m d sig w w' present own h =
        let (b, q, r) = sign_proto_message-inv m sig w w' h in
        record {
          d = record d { sign = sig };
          bin = b;
          peer_id = host_id;
          present = e.get-put m (record d { sign = sig });
          marshalled =
              subst (λ n. proto_marshal (e.message n) ≡ ok b)
                (sym (put_unsigned m d sig present own.unsigned)) q;
          decoded = rw own.named keys.id_decoded;
          signed = record {
            key = keys.key;
            key_read = keys.key_read d.node_pub_key own.keyed;
            key_owner = keys.key_owner;
            verified = keys.signs b sig w w' r;
          };
        }

    -- If the host's keys are in order, a message over the host's own message data, with the
    -- signature that the host makes for it, is accepted by the check, and unchanged by it.
    pub authenticate-sign :
        HostKeys
        → (m : M) (d : MessageData) (sig : Bytes) (w w' v : World) → e.get m ≡ some d
        → IsOwn d
        → sign_proto_message env m w ≡ (returned (ok sig), w')
        → let signed = e.put m (record d { sign = sig }) in
          (set_sign env sig m v ≡ (returned signed, v))
          × (authenticate_message env signed v ≡ (returned (true, signed), v))
    unfolding set_sign
    authenticate-sign keys m d sig w w' v present own h =
        let signed = e.put m (record d { sign = sig }) in
        (
          rw (present, set_sign),
          authenticate_authentic env signed v (signed-IsAuthentic keys m d sig w w' present own h),
        )
