-- ===== src/Client/Delivery.antt =====
-- What the handlers of responses do to the requests that wait and to the channel.
use hackfs_mdc.Base.{
  ◌≡◌, String, true, false, some, List, [], ◌∷◌, ◌==◌, arith, ==_iff, ==_refl, if◌then◌else◌,
}
use hackfs_mdc.Go.{returned}
use hackfs_mdc.Messages.{MessageData}
use hackfs_mdc.Messages.Envelope.{Envelope}
use hackfs_mdc.Services.{Services}
use hackfs_mdc.Node.Authenticity.{
  IsAuthentic, nil_data, accepts, refuses, authenticate_message-Verdict, authenticate_authentic,
}
use hackfs_mdc.Client.{
  Exchange, has_request, delete_request, store_request, settle, accept_response,
}

module _ {Req : Type 0} where
  pub has_request-delete :
      (i j : String) (m : List (String × Req))
      → has_request j (delete_request i m) ≡ (if i == j then false else has_request j m)
  unfolding has_request delete_request
  has_request-delete i j [] = ground arith
  has_request-delete i j ((k, r) ∷ m) =
      ground (arith, has_request-delete i j m, ==_iff k i, ==_iff k j, ==_iff i j, ==_refl i)

  pub has_request-store :
      (i j : String) (req : Req) (m : List (String × Req))
      → has_request j (store_request i req m) ≡ (if i == j then true else has_request j m)
  unfolding has_request store_request
  has_request-store i j req [] = ground arith
  has_request-store i j req ((k, r) ∷ m) =
      ground (arith, has_request-store i j req m, ==_iff k i, ==_iff k j, ==_iff i j, ==_refl i)

module _ {Req Resp : Type 0} where
  pub has_request-settle :
      (ex : Exchange Req Resp) (i j : String) (resp : Resp)
      → has_request j (settle ex i resp).requests
        ≡ (if i == j then false else has_request j ex.requests)
  unfolding settle
  has_request-settle ex i j resp = ground (arith, has_request-delete i j ex.requests, ==_iff i j)

  pub settle-unknown :
      (ex : Exchange Req Resp) (id : String) (resp : Resp)
      → has_request id ex.requests ≡ false
      → settle ex id resp ≡ ex
  unfolding settle
  settle-unknown ex id resp h = rw (h, settle)

  -- A second response to the same request changes neither the requests that wait nor the channel.
  pub settle-settle :
      (ex : Exchange Req Resp) (id : String) (first second : Resp)
      → settle (settle ex id first) id second ≡ settle ex id first
  settle-settle ex id first second =
      settle-unknown (settle ex id first) id second
        (ground (arith, has_request-settle ex id id first, ==_refl id))

module _ (env : Services) {Req Resp : Type 0} ⦃r : Envelope Resp⦄ where
  -- An authentic response settles the request that its message data names.
  pub accept_authentic :
      (ex : Exchange Req Resp) (resp : Resp) (w : env.World) (d : MessageData)
      → r.get resp ≡ some d
      → IsAuthentic env resp
      → accept_response env ex resp w ≡ (returned (settle ex d.id resp), w)
  unfolding accept_response
  accept_authentic ex resp w d present a =
      rw (authenticate_authentic env resp w a, accept_response) (rw (present, accept_response))

  -- A response with message data that is not authentic changes neither the requests that wait nor
  -- the channel.
  pub accept_other :
      (ex : Exchange Req Resp) (resp : Resp) (w : env.World) (d : MessageData)
      → r.get resp ≡ some d
      → (¬ IsAuthentic env resp)
      → accept_response env ex resp w ≡ (returned ex, w)
  unfolding accept_response
  accept_other ex resp w d present bad = elim (authenticate_message-Verdict env resp w) [
    | nil_data absent _ ↦ ground arith
    | accepts a _ ↦ absurd (bad a)
    | refuses _ m run ↦ rw (run, accept_response)
  ]
