-- ===== src/Host/Refinement.antt =====
-- Runs of a node refine runs of the archive.
use hackfs_mdc.Base.{
  ◌≡◌, ◌≢◌, refl, sym, ap, ◌∙◌, String, false, some, inl, inr, List, [], ◌∷◌, ◌++◌, arith, ==_iff,
}
use hackfs_mdc.Go.Laws.{Outcome-cases}
use hackfs_mdc.Messages.{Bytes, ContentData}
use hackfs_mdc.Services.{Services}
use hackfs_mdc.Textile.{Clients}
use hackfs_mdc.Textile.Promises.{View, Promises}
use hackfs_mdc.Content.Evolution.{Evolves, same, stored}
use hackfs_mdc.Host.{Node, handle, run}
use hackfs_mdc.Host.Archive.{Entry, holds, ◌⟶◌, stay, add, ◌⟶*◌, here, step}
use hackfs_mdc.Host.Evolving.{handle-Evolves}

abbrev pub contents : List Entry → List ContentData
contents [] = []
contents (e ∷ a) = e.content ∷ contents a

contents-append : (a b : List Entry) → contents (a ++ b) ≡ contents a ++ contents b
contents-append [] b = refl
contents-append (e ∷ a) b = ap (λ l. e.content ∷ l) (contents-append a b)

module _ (env : Services) (view : View env) where
  open env use {World}
  open view use {content, records}

  -- The bytes of each entry are where its record points.
  abbrev pub AllHeld : World → List Entry → Type 0
  AllHeld w [] = Unit
  AllHeld w (e ∷ a) =
      (content w e.content.bucket_key e.content.file_name ≡ some e.bytes) × AllHeld w a

  -- The records are those of the archive, and Textile has its bytes.
  pub record Represents (w : World) (a : List Entry) : Type 0 where
    pub listed : records w ≡ contents a
    pub held : AllHeld w a

  AllHeld-keeps :
      (w w' : World)
      → ((key path : String) (b : Bytes)
          → content w key path ≡ some b
          → content w' key path ≡ some b)
      → (a : List Entry) → AllHeld w a
      → AllHeld w' a
  AllHeld-keeps w w' keeps [] h = tt
  AllHeld-keeps w w' keeps (e ∷ a) (h, hs) =
      (keeps e.content.bucket_key e.content.file_name e.bytes h, AllHeld-keeps w w' keeps a hs)

  AllHeld-snoc :
      (w : World) (a : List Entry) (e : Entry)
      → AllHeld w a
      → content w e.content.bucket_key e.content.file_name ≡ some e.bytes
      → AllHeld w (a ++ e ∷ [])
  AllHeld-snoc w [] e h there = (there, tt)
  AllHeld-snoc w (x ∷ a) e (h, hs) there = (h, AllHeld-snoc w a e hs there)

  -- No entry has a key under which there are no bytes.
  holds-fresh :
      (w : World) (key : String) (a : List Entry)
      → ((q : String) (b : Bytes) → content w key q ≢ some b)
      → AllHeld w a
      → holds key a ≡ false
  holds-fresh w key [] fresh h = refl
  holds-fresh w key (e ∷ a) fresh (h, hs) =
      let other : e.content.bucket_key ≢ key =
        λ same. fresh e.content.file_name e.bytes (rw (← same) h) in
      ground (arith, ==_iff e.content.bucket_key key, holds-fresh w key a fresh hs)

module _ (env : Services) (clients : Clients env) (view : View env) (law : Promises env view) where
  open env use {World, Stream}
  open view use {content, records}

  Evolves-⟶ :
      (u w : World) (a : List Entry)
      → Evolves env clients view law u w
      → Represents env view u a
      → (b : List Entry) × (a ⟶ b) × Represents env view w b
  Evolves-⟶ u w a (same x) r = (
    a,
    stay,
    record {
      listed = x.same_records ∙ r.listed;
      held = AllHeld-keeps env view u w x.keeps a r.held;
    },
  )
  Evolves-⟶ u w a (stored d t cd s) r =
      let e : Entry = record { content = record cd { id = s.adds.id }; bytes = d.file_bytes } in
      (
        a ++ e ∷ [],
        add e (holds-fresh env view u cd.bucket_key a s.fresh r.held),
        record {
          listed =
              s.adds.recorded
              ∙ ap (λ l. l ++ e.content ∷ []) r.listed
              ∙ sym (contents-append a (e ∷ []));
          held =
              AllHeld-snoc env view w a e (AllHeld-keeps env view u w s.adds.keeps a r.held)
                s.bytes_there;
        },
      )

  -- Whatever streams a node is given, and however their handlers end, the content store refines
  -- an archive: if it represents an archive before, it represents one afterwards that steps lead
  -- to, each of which leaves the archive or adds one entry under a new key.
  pub run-refines :
      (streams : List (String × Stream)) (n : Node) (w : World) (a : List Entry)
      → Represents env view w a
      → (b : List Entry) × (a ⟶* b) × Represents env view (run env clients streams n w).1 b
  unfolding run
  run-refines [] n w a r = (a, here, r)
  run-refines ((protocol, s) ∷ rest) n w a r =
      let w1 = (handle env clients protocol s n w).1 in
      let (b, ab, rb) = Evolves-⟶ w w1 a (handle-Evolves env clients view law protocol s n w) r in
      elim (Outcome-cases (handle env clients protocol s n w).0) [
        | inl h ↦ (b, step ab here, rw (h, run) rb)
        | inr (n', h) ↦
            let (c, bc, rc) = run-refines rest n' w1 b rb in (c, step ab bc, rw (h, run) rc)
      ]
