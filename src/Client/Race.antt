-- ===== src/Client/Race.antt =====
-- Responses that arrive while a request is being sent and after it is put into the map.
use hackfs_mdc.Base.{
  ℕ, ◌+◌, ◌≡◌, refl, String, Bool, true, false, List, [], ◌∷◌, ◌++◌, ◌==◌, arith, ==_iff, ==_refl,
  if◌then◌else◌,
}
use hackfs_mdc.Client.{Exchange, has_request, settle, register}
use hackfs_mdc.Client.Delivery.{has_request-store, has_request-settle}

module _ {Resp : Type 0} (id_of : Resp → String) where
  unfoldable pub answers : String → List Resp → Bool
  answers id [] = false
  answers id (r ∷ rs) = if id_of r == id then true else answers id rs

  -- How many of the responses are to the request `id`.
  unfoldable pub count : String → List Resp → ℕ
  count id [] = 0
  count id (r ∷ rs) = let rest = count id rs in if id_of r == id then rest + 1 else rest

  count-snoc :
      (id : String) (rs : List Resp) (r : Resp)
      → count id (rs ++ r ∷ []) ≡ count id rs + (if id_of r == id then 1 else 0)
  unfolding count
  count-snoc id [] r = ground arith
  count-snoc id (x ∷ rs) r = ground (arith, count-snoc id rs r)

module _ {Req Resp : Type 0} (id_of : Resp → String) where
  -- Authentic responses that arrive one after another.
  unfoldable pub arrive : List Resp → Exchange Req Resp → Exchange Req Resp
  arrive [] ex = ex
  arrive (r ∷ rs) ex = arrive rs (settle ex (id_of r) r)

  count-settle :
      (id i : String) (r : Resp) (ex : Exchange Req Resp)
      → id_of r ≡ i
      → count id_of id (settle ex i r).channel
        ≡ count id_of id ex.channel
          + (if has_request id ex.requests then (if i == id then 1 else 0) else 0)
  unfolding settle
  count-settle id i r ex h = ground (arith, count-snoc id_of id ex.channel r, ==_iff i id)

  -- Of the responses to a request that waits, exactly one is handed on. None is of a request that
  -- does not wait.
  pub count-arrive :
      (id : String) (rs : List Resp) (ex : Exchange Req Resp)
      → count id_of id (arrive rs ex).channel
        ≡ count id_of id ex.channel
          + (if has_request id ex.requests then (if answers id_of id rs then 1 else 0) else 0)
  unfolding arrive answers
  count-arrive id [] ex = ground arith
  count-arrive id (r ∷ rs) ex = ground (
    arith,
    count-arrive id rs (settle ex (id_of r) r),
    count-settle id (id_of r) r ex refl,
    has_request-settle ex (id_of r) id r,
  )

  has_request-arrive :
      (id : String) (rs : List Resp) (ex : Exchange Req Resp)
      → has_request id (arrive rs ex).requests
        ≡ (if answers id_of id rs then false else has_request id ex.requests)
  unfolding arrive answers
  has_request-arrive id [] ex = refl
  has_request-arrive id (r ∷ rs) ex = ground (
    arith,
    has_request-arrive id rs (settle ex (id_of r) r),
    has_request-settle ex (id_of r) id r,
  )

  -- For an ID that does not wait yet: the responses that arrive before its request is put into
  -- the map are dropped, of those that arrive afterwards exactly one is handed on, and if there
  -- is none the request still waits.
  pub count-register :
      (id : String) (req : Req) (early late : List Resp) (ex : Exchange Req Resp)
      → has_request id ex.requests ≡ false
      → let sent = register (arrive early ex) id req in
        let end = arrive late sent in
        (count id_of id end.channel
          ≡ count id_of id ex.channel + (if answers id_of id late then 1 else 0))
        × (has_request id end.requests ≡ (if answers id_of id late then false else true))
  unfolding register
  count-register id req early late ex free =
      let sent = register (arrive early ex) id req in
      (
        ground (
          arith,
          count-arrive id late sent,
          count-arrive id early ex,
          has_request-store id id req (arrive early ex).requests,
          ==_refl id,
        ),
        ground (
          arith,
          has_request-arrive id late sent,
          has_request-store id id req (arrive early ex).requests,
          ==_refl id,
        ),
      )
