-- ===== src/HttpProxy/Arrival.antt =====
-- A route that waits gets its response, if one arrives after its request was put into the map.
use hackfs_mdc.Base.{
  ◌<◌, ◌≡◌, ◌≢◌, inl, inr, String, true, false, some, List, [], ◌∷◌, ◌++◌, arith, ◌==◌, ==_iff,
  Bool-cases,
}
use hackfs_mdc.Messages.{MessageData}
use hackfs_mdc.Messages.Envelope.{Envelope}
use hackfs_mdc.Client.{Exchange, has_request, register, settle}
use hackfs_mdc.Client.Race.{answers, count, arrive, count-register}
use hackfs_mdc.HttpProxy.{received, wait}
use hackfs_mdc.HttpProxy.Waiting.{wait-here, wait-next}

module _ {Resp : Type 0} ⦃r : Envelope Resp⦄ (id_of : Resp → String) where
  -- Each response has message data, with the ID that it answers.
  abbrev pub AllNamed : List Resp → Type 0
  AllNamed [] = Unit
  AllNamed (x ∷ xs) = ((d : MessageData) × (r.get x ≡ some d) × (d.id ≡ id_of x)) × AllNamed xs

  AllNamed-snoc :
      (xs : List Resp) (x : Resp) → AllNamed xs → AllNamed (x ∷ []) → AllNamed (xs ++ x ∷ [])
  AllNamed-snoc [] x h hx = hx
  AllNamed-snoc (y ∷ xs) x (hy, h) hx = (hy, AllNamed-snoc xs x h hx)

  AllNamed-settle :
      {Req : Type 0} (ex : Exchange Req Resp) (x : Resp)
      → AllNamed ex.channel
      → AllNamed (x ∷ [])
      → AllNamed (settle ex (id_of x) x).channel
  unfolding settle
  AllNamed-settle ex x h hx = elim (Bool-cases (has_request (id_of x) ex.requests)) [
    | inl waits ↦ rw (waits, settle) (AllNamed-snoc ex.channel x h hx)
    | inr other ↦ rw (other, settle) h
  ]

  AllNamed-arrive :
      {Req : Type 0} (xs : List Resp) (ex : Exchange Req Resp)
      → AllNamed xs
      → AllNamed ex.channel
      → AllNamed (arrive id_of xs ex).channel
  unfolding arrive
  AllNamed-arrive [] ex hs h = h
  AllNamed-arrive (x ∷ xs) ex (hx, hs) h =
      AllNamed-arrive xs (settle ex (id_of x) x) hs (AllNamed-settle ex x h (hx, tt))

  -- A wait ends with a response to the request, if the channel has one.
  wait-counted :
      (id : String) (xs : List Resp)
      → AllNamed xs
      → 0 < count id_of id xs
      → (x : Resp) × (rest : List Resp) × (wait id xs ≡ received x rest) × (id_of x ≡ id)
  unfolding count
  wait-counted id [] h some_there = absurd (ground arith)
  wait-counted id (x ∷ xs) ((d, present, named), hs) some_there =
      elim (Bool-cases (id_of x == id)) [
        | inl here ↦
            let same : id_of x ≡ id = ground (arith, ==_iff (id_of x) id) in
            (x, xs, wait-here id x xs d present (ground arith), same)
        | inr later ↦
            let other : d.id ≢ id = ground (arith, ==_iff (id_of x) id) in
            let (y, rest, run, same) = wait-counted id xs hs (ground arith) in
            (y, rest, rw (wait-next id x xs d present other) run, same)
      ]

  -- For an ID that does not wait yet, and responses with message data: if one of the responses
  -- that arrive after the request was put into the map answers it, then a wait for it on the
  -- channel ends with a response to it.
  pub wait-arrive :
      {Req : Type 0} (id : String) (req : Req) (early late : List Resp) (ex : Exchange Req Resp)
      → has_request id ex.requests ≡ false
      → AllNamed early
      → AllNamed late
      → AllNamed ex.channel
      → answers id_of id late ≡ true
      → let end = arrive id_of late (register (arrive id_of early ex) id req) in
        (x : Resp) × (rest : List Resp) × (wait id end.channel ≡ received x rest) × (id_of x ≡ id)
  unfolding register
  wait-arrive id req early late ex free he hl h answered =
      let sent = register (arrive id_of early ex) id req in
      let (counted, _) = count-register id_of id req early late ex free in
      wait-counted id (arrive id_of late sent).channel
        (AllNamed-arrive late sent hl (AllNamed-arrive early ex he h)) (ground arith)
