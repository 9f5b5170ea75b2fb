-- ===== src/HttpProxy/Waiting.antt =====
-- What a route's wait at the channel gives, and what it takes from the other routes.
use hackfs_mdc.Base.{
  ◌≡◌, ◌≢◌, refl, ap, ◌∙◌, inl, inr, String, none, some, List, [], ◌∷◌, ◌++◌, arith, ◌==◌, ==_iff,
  Bool-cases, Option-cases,
}
use hackfs_mdc.Messages.{MessageData}
use hackfs_mdc.Messages.Envelope.{Envelope}
use hackfs_mdc.HttpProxy.{Waited, received, nil_data, waiting, wait}

module _ {Resp : Type 0} ⦃r : Envelope Resp⦄ where
  -- Responses with message data, to other requests than `id`.
  abbrev pub Others : String → List Resp → Type 0
  Others id [] = Unit
  Others id (x ∷ xs) = ((d : MessageData) × (r.get x ≡ some d) × (d.id ≢ id)) × Others id xs

  pub wait-here :
      (id : String) (x : Resp) (xs : List Resp) (d : MessageData)
      → r.get x ≡ some d
      → d.id ≡ id
      → wait id (x ∷ xs) ≡ received x xs
  unfolding wait
  wait-here id x xs d present same = rw (present, wait) (ground (arith, ==_iff d.id id))

  pub wait-next :
      (id : String) (x : Resp) (xs : List Resp) (d : MessageData)
      → r.get x ≡ some d
      → d.id ≢ id
      → wait id (x ∷ xs) ≡ wait id xs
  unfolding wait
  wait-next id x xs d present other = rw (present, wait) (ground (arith, ==_iff d.id id))

  wait-nil :
      (id : String) (x : Resp) (xs : List Resp) → r.get x ≡ none → wait id (x ∷ xs) ≡ nil_data xs
  unfolding wait
  wait-nil id x xs absent = rw (absent, wait) refl

  pub wait-skip :
      (id : String) (skipped xs : List Resp)
      → Others id skipped
      → wait id (skipped ++ xs) ≡ wait id xs
  wait-skip id [] xs h = refl
  wait-skip id (x ∷ skipped) xs ((d, present, other), hs) =
      wait-next id x (skipped ++ xs) d present other ∙ wait-skip id skipped xs hs

  -- The first response to the request is received, and all before it are lost; the wait goes on
  -- where there is none, and a response without message data before it is a panic.
  pub data Waits (id : String) (rs : List Resp) : Waited Resp → Type 0 where
    found :
        (skipped rest : List Resp) (x : Resp) (d : MessageData)
        → rs ≡ skipped ++ x ∷ rest
        → Others id skipped
        → r.get x ≡ some d
        → d.id ≡ id
        → Waits id rs (received x rest)
    broken :
        (skipped rest : List Resp) (x : Resp)
        → rs ≡ skipped ++ x ∷ rest
        → Others id skipped
        → r.get x ≡ none
        → Waits id rs (nil_data rest)
    unanswered : Others id rs → Waits id rs waiting

  Waits-next :
      (id : String) (x : Resp) (xs : List Resp) (d : MessageData) (o : Waited Resp)
      → r.get x ≡ some d
      → d.id ≢ id
      → Waits id xs o
      → Waits id (x ∷ xs) o
  Waits-next id x xs d (received _ _) present other (found skipped rest y e h hs p same) =
      found (x ∷ skipped) rest y e (ap (λ l. x ∷ l) h) ((d, present, other), hs) p same
  Waits-next id x xs d (nil_data _) present other (broken skipped rest y h hs p) =
      broken (x ∷ skipped) rest y (ap (λ l. x ∷ l) h) ((d, present, other), hs) p
  Waits-next id x xs d waiting present other (unanswered hs) = unanswered ((d, present, other), hs)

  -- A wait gives the first response to its request, and drops the responses to other requests
  -- before it; it goes on if every response is to another request, and panics if a response
  -- without message data comes first.
  pub wait-Waits : (id : String) (rs : List Resp) → Waits id rs (wait id rs)
  wait-Waits id [] = unfold wait in unanswered tt
  wait-Waits id (x ∷ xs) = elim (Option-cases (r.get x)) [
    | inl absent ↦ rw (wait-nil id x xs absent) (broken [] xs x refl tt absent)
    | inr (d, present) ↦ elim (Bool-cases (d.id == id)) [
      | inl same ↦
          rw (wait-here id x xs d present (ground (arith, ==_iff d.id id)))
            (found [] xs x d refl tt present (ground (arith, ==_iff d.id id)))
      | inr differs ↦
          let other : d.id ≢ id = ground (arith, ==_iff d.id id) in
          rw (wait-next id x xs d present other)
            (Waits-next id x xs d (wait id xs) present other (wait-Waits id xs))
    ]
  ]

  pub wait-found :
      (id : String) (skipped rest : List Resp) (x : Resp) (d : MessageData)
      → Others id skipped
      → r.get x ≡ some d
      → d.id ≡ id
      → wait id (skipped ++ x ∷ rest) ≡ received x rest
  wait-found id skipped rest x d h present same =
      wait-skip id skipped (x ∷ rest) h ∙ wait-here id x rest d present same

  -- For two responses to different requests on the channel: if the route of the second reads
  -- first it receives its own and drops the other, whose route then waits on; if the route of the
  -- first reads first, both receive theirs.
  pub wait-wait :
      (x y : Resp) (d e : MessageData)
      → r.get x ≡ some d
      → r.get y ≡ some e
      → d.id ≢ e.id
      → let channel = x ∷ y ∷ [] in
        (wait e.id channel ≡ received y [])
        × (wait {Resp = Resp} d.id [] ≡ waiting)
        × (wait d.id channel ≡ received x (y ∷ []))
        × (wait e.id (y ∷ []) ≡ received y [])
  wait-wait x y d e px py differ = (
    wait-found e.id (x ∷ []) [] y e ((d, px, differ), tt) py refl,
    unfold wait in refl,
    wait-here d.id x (y ∷ []) d px refl,
    wait-here e.id y [] e py refl,
  )
