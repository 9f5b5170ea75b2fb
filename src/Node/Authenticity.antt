-- ===== src/Node/Authenticity.antt =====
-- What it takes for a message to be accepted.
use hackfs_mdc.Base.{
  ◌≡◌, inl, inr, String, true, false, none, some, [], arith, Option-cases, Bool-cases, ==_iff,
  ==_refl,
}
use hackfs_mdc.Go.{ok, returned, panicked}
use hackfs_mdc.Go.Laws.{Result-cases}
use hackfs_mdc.Messages.{Bytes, MessageData}
use hackfs_mdc.Messages.Envelope.{Envelope}
use hackfs_mdc.Services.{Services}
use hackfs_mdc.Node.{verify_data, check_key, authenticate_data, authenticate_message}

module _ (env : Services) where
  open env use {
    World, PubKey, unmarshal_public_key, id_from_public_key, key_verify, peer_decode, proto_marshal,
  }

  -- `signature` signs `bin` under a key that is in `pub_key_data` and belongs to `peer_id`.
  pub record Signs (bin signature : Bytes) (peer_id : String) (pub_key_data : Bytes) : Type 0 where
    pub key : PubKey
    pub key_read : unmarshal_public_key pub_key_data ≡ ok key
    pub key_owner : id_from_public_key key ≡ ok peer_id
    pub verified : key_verify key bin signature ≡ ok true

  check_key_sound :
      (bin signature : Bytes) (peer_id : String) (key : PubKey)
      → check_key env bin signature peer_id key ≡ true
      → (id_from_public_key key ≡ ok peer_id) × (key_verify key bin signature ≡ ok true)
  unfolding check_key
  check_key_sound bin signature peer_id key h = elim (Result-cases (id_from_public_key key)) [
    | inl (x, e) ↦ ground arith
    | inr (i, e) ↦ ground (arith, ==_iff i peer_id)
  ]

  verify_data_sound :
      (bin signature : Bytes) (peer_id : String) (pub_key_data : Bytes)
      → verify_data env bin signature peer_id pub_key_data ≡ true
      → Signs bin signature peer_id pub_key_data
  unfolding verify_data
  verify_data_sound bin signature peer_id pub_key_data h =
      elim (Result-cases (unmarshal_public_key pub_key_data)) [
        | inl (x, e) ↦ absurd (ground arith)
        | inr (k, e) ↦
            let (owner, ver) = check_key_sound bin signature peer_id k (ground arith) in
            record { key = k; key_read = e; key_owner = owner; verified = ver }
      ]

  verify_data_complete :
      (bin signature : Bytes) (peer_id : String) (pub_key_data : Bytes)
      → Signs bin signature peer_id pub_key_data
      → verify_data env bin signature peer_id pub_key_data ≡ true
  unfolding verify_data check_key
  verify_data_complete bin signature peer_id pub_key_data s =
      ground (arith, ==_refl peer_id, s.key_read, s.key_owner, s.verified)

  module _ {M : Type 0} ⦃e : Envelope M⦄ where
    -- The message data is there, its signature signs the message without the signature, and the
    -- key that comes with it belongs to the node that it names.
    pub record IsAuthentic (m : M) : Type 0 where
      pub d : MessageData
      pub bin : Bytes
      pub peer_id : String
      pub present : e.get m ≡ some d
      pub marshalled : proto_marshal (e.message (e.put m (record d { sign = [] }))) ≡ ok bin
      pub decoded : peer_decode d.node_id ≡ ok peer_id
      pub signed : Signs bin d.sign peer_id d.node_pub_key

    -- What `authenticate_message` does on each message, with no effect on the world: it panics where
    -- the message data is nil, accepts an authentic message and leaves it as it was, and refuses
    -- any other.
    pub data Verdict (m : M) (w : World) : Type 0 where
      nil_data : e.get m ≡ none → authenticate_message env m w ≡ (panicked, w) → Verdict m w
      accepts : IsAuthentic m → authenticate_message env m w ≡ (returned (true, m), w) → Verdict m w
      refuses :
          (¬ IsAuthentic m)
          → (m' : M) → authenticate_message env m w ≡ (returned (false, m'), w)
          → Verdict m w

    authenticate_data_sound :
        (m : M) (d : MessageData)
        → e.get m ≡ some d
        → (authenticate_data env m d).0 ≡ true
        → IsAuthentic m × ((authenticate_data env m d).1 ≡ m)
    unfolding authenticate_data
    authenticate_data_sound m d present h =
        elim (Result-cases (proto_marshal (e.message (e.put m (record d { sign = [] }))))) [
          | inl (x, q) ↦ absurd (ground arith)
          | inr (b, q) ↦ elim (Result-cases (peer_decode d.node_id)) [
            | inl (x, r) ↦ absurd (ground arith)
            | inr (p, r) ↦ (
              record {
                d = d;
                bin = b;
                peer_id = p;
                present = present;
                marshalled = q;
                decoded = r;
                signed = verify_data_sound b d.sign p d.node_pub_key (ground arith);
              },
              ground (arith, e.put-get m d present),
            )
          ]
        ]

    authenticate_data_complete :
        (m : M) → (a : IsAuthentic m) → (authenticate_data env m a.d).0 ≡ true
    unfolding authenticate_data
    authenticate_data_complete m a = ground (
      arith,
      a.marshalled,
      a.decoded,
      verify_data_complete a.bin a.d.sign a.peer_id a.d.node_pub_key a.signed,
    )

    authenticate_some :
        (m : M) (w : World) (d : MessageData)
        → e.get m ≡ some d
        → authenticate_message env m w ≡ (returned (authenticate_data env m d), w)
    unfolding authenticate_message
    authenticate_some m w d present = rw (present, authenticate_message)

    pub authenticate_message-Verdict : (m : M) (w : World) → Verdict m w
    authenticate_message-Verdict m w = elim (Option-cases (e.get m)) [
      | inl absent ↦
          nil_data absent (unfold authenticate_message in rw (absent, authenticate_message))
      | inr (d, present) ↦
          let run = authenticate_some m w d present in
          elim (Bool-cases (authenticate_data env m d).0) [
            | inl good ↦
                let (a, same) = authenticate_data_sound m d present good in
                accepts a (ground (arith, run, same))
            | inr bad ↦
                refuses (λ a. ground (arith, authenticate_data_complete m a, a.present))
                  (authenticate_data env m d).1 (ground (arith, run))
          ]
    ]

    pub authenticate_authentic :
        (m : M) (w : World) → IsAuthentic m → authenticate_message env m w ≡ (returned (true, m), w)
    authenticate_authentic m w a = elim (authenticate_message-Verdict m w) [
      | nil_data absent _ ↦ ground (arith, a.present)
      | accepts _ run ↦ run
      | refuses bad _ _ ↦ absurd (bad a)
    ]

    pub authenticate_nil :
        (m : M) (w : World) → e.get m ≡ none → authenticate_message env m w ≡ (panicked, w)
    unfolding authenticate_message
    authenticate_nil m w absent = rw (absent, authenticate_message)
