-- ===== src/Host/Lookups.antt =====
-- Uploads stay: what an archive has is found after every run of the node.
use hackfs_mdc.Base.{
  ◌≡◌, refl, ap, ◌∙◌, subst, String, false, some, List, [], ◌∷◌, ◌++◌, arith, ==_iff, ==_refl,
}
use mathlib.Core.List.{append_assoc}
use hackfs_mdc.Services.{Services}
use hackfs_mdc.Textile.{Clients}
use hackfs_mdc.Textile.Promises.{View, Promises, with_bucket_key}
use hackfs_mdc.Host.{Node, run}
use hackfs_mdc.Host.Archive.{Entry, holds, IsDistinct, holds-append, ⟶*-extends, ⟶*-IsDistinct}
use hackfs_mdc.Host.Refinement.{contents, AllHeld, Represents, run-refines}

with_bucket_key-absent :
    (key : String) (a : List Entry) → holds key a ≡ false → with_bucket_key key (contents a) ≡ []
with_bucket_key-absent key [] h = refl
with_bucket_key-absent key (e ∷ a) h = ground (arith, with_bucket_key-absent key a (ground arith))

-- Under the key of an entry there is its record, once.
with_bucket_key-once :
    (pre post : List Entry) (e : Entry)
    → IsDistinct (pre ++ e ∷ post)
    → with_bucket_key e.content.bucket_key (contents (pre ++ e ∷ post)) ≡ e.content ∷ []
with_bucket_key-once [] post e (h, hs) =
    ground (arith, ==_refl e.content.bucket_key, with_bucket_key-absent e.content.bucket_key post h)
with_bucket_key-once (x ∷ pre) post e (h, hs) = ground (
  arith,
  holds-append x.content.bucket_key pre (e ∷ post),
  ==_iff x.content.bucket_key e.content.bucket_key,
  ==_iff e.content.bucket_key x.content.bucket_key,
  with_bucket_key-once pre post e hs,
)

module _ (env : Services) (view : View env) where
  open env use {World}
  open view use {content}

  AllHeld-at :
      (w : World) (pre post : List Entry) (e : Entry)
      → AllHeld env view w (pre ++ e ∷ post)
      → content w e.content.bucket_key e.content.file_name ≡ some e.bytes
  AllHeld-at w [] post e (h, hs) = h
  AllHeld-at w (x ∷ pre) post e (h, hs) = AllHeld-at w pre post e hs

module _ (env : Services) (clients : Clients env) (view : View env) (law : Promises env view) where
  open env use {World, Stream}
  open view use {content, records}

  -- Every upload stays: if the content store represents an archive of distinct keys, then after a
  -- node is given any streams a query for the bucket key of each entry still gives its record and
  -- no other, and its bytes are still where the record points.
  pub run-finds :
      (streams : List (String × Stream)) (n : Node) (w : World) (pre post : List Entry) (e : Entry)
      → Represents env view w (pre ++ e ∷ post)
      → IsDistinct (pre ++ e ∷ post)
      → (let w' = (run env clients streams n w).1 in
          (with_bucket_key e.content.bucket_key (records w') ≡ e.content ∷ [])
          × (content w' e.content.bucket_key e.content.file_name ≡ some e.bytes))
  run-finds streams n w pre post e r distinct =
      let (c, steps, rc) = run-refines env clients view law streams n w (pre ++ e ∷ post) r in
      let (added, grown) = ⟶*-extends (pre ++ e ∷ post) c steps in
      let split = grown ∙ append_assoc pre (e ∷ post) added in
      let once =
        with_bucket_key-once pre (post ++ added) e
          (subst IsDistinct split (⟶*-IsDistinct (pre ++ e ∷ post) c steps distinct)) in
      let w' = (run env clients streams n w).1 in
      (
        ap (λ l. with_bucket_key e.content.bucket_key l) (rc.listed ∙ ap contents split) ∙ once,
        AllHeld-at env view w' pre (post ++ added) e
            (subst (λ l. AllHeld env view w' l) split rc.held),
      )
