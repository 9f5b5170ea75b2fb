-- ===== src/Node.antt =====
-- backend/pkg/libp2pnode/node.go, and the clock and ULIDs of backend/pkg/common: the signing, the
-- authentication and the sending of messages by a node.
pub mod Authenticity
pub mod Signing
pub mod Working
use hackfs_mdc.Base.{
  ℕ, String, Bool, true, false, not, Option, none, some, List, [], ◌==◌, if◌then◌else◌,
}
use hackfs_mdc.Base.Int.{ℤ, floor_ℕ}
use hackfs_mdc.Go.{Go, Result, ok, err, returned, panicked, pure, panic, call, effect, ◌>>=◌, ◌>>◌}
use hackfs_mdc.Common.{Error, get_millisecond}
use hackfs_mdc.Messages.{Bytes, MessageData}
use hackfs_mdc.Messages.Envelope.{Envelope}
use hackfs_mdc.Services.{Services}

abbrev pub client_version : String
client_version = "pay3-server-node/0.0.1"

module _ (env : Services) where
  open env use {
    World, unix_nano, ulid_must_new, unmarshal_public_key, id_from_public_key, key_verify,
    peer_decode, peer_encode, host_id, host_pub_key_bytes, host_key_sign, proto_marshal, Stream,
    new_stream, write_msg, full_close, reset,
  }

  -- common.GetTimeStampMillisecond
  unfoldable pub get_time_stamp_millisecond : Go World ℤ
  get_time_stamp_millisecond = do t ← call unix_nano; pure (get_millisecond t)

  -- common.GetUlid, as a text
  unfoldable pub get_ulid : Go World String
  get_ulid = do t ← call unix_nano; ulid_must_new t

  unfoldable pub check_key : Bytes → Bytes → String → env.PubKey → Bool
  check_key bin signature peer_id key = elim (id_from_public_key key) [
    | err e ↦ false
    | ok id_from_key ↦
        if not (id_from_key == peer_id)
        then false
        else elim (key_verify key bin signature) [ err e ↦ false | ok res ↦ res ]
  ]

  unfoldable pub verify_data : Bytes → Bytes → String → Bytes → Bool
  verify_data bin signature peer_id pub_key_data = elim (unmarshal_public_key pub_key_data) [
    | err e ↦ false
    | ok key ↦ check_key bin signature peer_id key
  ]

  unfoldable pub sign_data : Bytes → Go World (Result Error Bytes)
  sign_data bin = call (host_key_sign bin)

  module _ {M : Type 0} ⦃e : Envelope M⦄ where
    -- `d` is the message's own message data, as in every call: a write to it is seen in the
    -- message. Also gives the message as it is left.
    unfoldable pub authenticate_data : M → MessageData → Bool × M
    authenticate_data m d =
        let sign = d.sign in
        let unsigned = record d { sign = [] } in
        elim (proto_marshal (e.message (e.put m unsigned))) [
          | err _ ↦ (false, e.put m unsigned)
          | ok bin ↦
              let restored = e.put m (record unsigned { sign = sign }) in
              elim (peer_decode d.node_id) [
                | err _ ↦ (false, restored)
                | ok peer_id ↦ (verify_data bin sign peer_id d.node_pub_key, restored)
              ]
        ]

    -- A nil pointer to the message data panics at the read of the signature.
    unfoldable pub authenticate_message : M → Go World (Bool × M)
    authenticate_message m = elim (e.get m) [ none ↦ panic | some d ↦ pure (authenticate_data m d) ]

    unfoldable pub sign_proto_message : M → Go World (Result Error Bytes)
    sign_proto_message m = elim (proto_marshal (e.message m)) [
      | err x ↦ pure (err x)
      | ok bin ↦ sign_data bin
    ]

    -- `m.MessageData.Sign = signature`
    unfoldable pub set_sign : Bytes → M → Go World M
    set_sign signature m = elim (e.get m) [
      | none ↦ panic
      | some d ↦ pure (e.put m (record d { sign = signature }))
    ]

    unfoldable pub send_over : M → Stream → Go World Bool
    send_over m s = do
      written ← call (write_msg s (e.message m))
      elim written [
        | some x ↦ do effect (reset s); pure false
        | none ↦ do
          closed ← call (full_close s)
          elim closed [ some x ↦ do effect (reset s); pure false | none ↦ pure true ]
      ]

    unfoldable pub send_proto_message : String → String → M → Go World Bool
    send_proto_message peer_id protocol m = do
      opened ← call (new_stream peer_id protocol)
      elim opened [ err x ↦ pure false | ok s ↦ send_over m s ]

  -- The key of the node's own host, which `Bytes` turns into bytes, or a panic.
  unfoldable pub new_message_data : String → Bool → Go World MessageData
  new_message_data message_id gossip = elim host_pub_key_bytes [
    | err x ↦ panic
    | ok node_pub_key ↦ do
      t ← call unix_nano
      pure (record {
        client_version = client_version;
        timestamp = floor_ℕ t 1000000000;
        id = message_id;
        gossip = gossip;
        node_id = peer_encode host_id;
        node_pub_key = node_pub_key;
        sign = [];
      })
  ]
