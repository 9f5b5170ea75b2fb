-- ===== src/Serve/Replies.antt =====
-- What the responses of the three protocols have in common.
use hackfs_mdc.Base.{◌≡◌, refl, String, false, Option, some}
use hackfs_mdc.Base.Int.{ℤ}
use hackfs_mdc.Go.{ok, Outcome, returned, panicked}
use hackfs_mdc.Messages.{Bytes, MessageData}
use hackfs_mdc.Services.{Services}
use hackfs_mdc.Node.Signing.{IsOwn, own_data, own_data-IsOwn}

-- The message data of a response: the host's own, under the ID of the request, not for gossip.
pub record IsReply (env : Services) (id : String) (o : Option MessageData) : Type 0 where
  pub d : MessageData
  pub present : o ≡ some d
  pub own : IsOwn env d
  pub same_id : d.id ≡ id
  pub private : d.gossip ≡ false

-- `Q` of the response and the world where there is one, `R` of the world after a panic.
abbrev pub Returns {ℓ} : {A W : Type 0} → (A → W → Type ℓ) → (W → Type ℓ) → Outcome A → W → Type ℓ
Returns Q R (returned a) w = Q a w
Returns Q R panicked w = R w

pub own_reply :
    (env : Services) (pk : Bytes)
    → env.host_pub_key_bytes ≡ ok pk
    → (t : ℤ) (id : String) → IsReply env id (some (own_data env pk t id false))
own_reply env pk keyed t id = record {
  d = own_data env pk t id false;
  present = refl;
  own = own_data-IsOwn env pk t id false keyed;
  same_id = refl;
  private = refl;
}
