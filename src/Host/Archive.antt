-- ===== src/Host/Archive.antt =====
-- What a server promises: an archive of uploads that only grows, under keys of their own.
use hackfs_mdc.Base.{
  ◌≡◌, refl, sym, ◌∙◌, String, Bool, false, ◌||◌, List, [], ◌∷◌, ◌++◌, arith, ◌==◌, ==_iff,
}
use mathlib.Core.List.{append-nil, append_assoc}
use hackfs_mdc.Messages.{Bytes, ContentData}

-- A content record and the uploaded bytes.
pub record Entry : Type 0 where
  pub content : ContentData
  pub bytes : Bytes

-- An entry of the archive has the bucket key.
abbrev pub holds : String → List Entry → Bool
holds key [] = false
holds key (e ∷ a) = e.content.bucket_key == key || holds key a

abbrev pub IsDistinct : List Entry → Type 0
IsDistinct [] = Unit
IsDistinct (e ∷ a) = (holds e.content.bucket_key a ≡ false) × IsDistinct a

infix 40 ◌⟶◌ ◌⟶*◌
-- A step leaves the archive, or adds one entry under a new key.
pub data ◌⟶◌ (a : List Entry) : List Entry → Type 0 where
  stay : a ⟶ a
  add : (e : Entry) → holds e.content.bucket_key a ≡ false → a ⟶ a ++ e ∷ []

pub data ◌⟶*◌ : List Entry → List Entry → Type 0 where
  here : {a : List Entry} → a ⟶* a
  step : {a b c : List Entry} → a ⟶ b → b ⟶* c → a ⟶* c

pub holds-append :
    (key : String) (a b : List Entry) → holds key (a ++ b) ≡ (holds key a || holds key b)
holds-append key [] b = refl
holds-append key (e ∷ a) b = ground (arith, holds-append key a b)

IsDistinct-snoc :
    (a : List Entry) (e : Entry)
    → IsDistinct a
    → holds e.content.bucket_key a ≡ false
    → IsDistinct (a ++ e ∷ [])
IsDistinct-snoc [] e h new = (refl, tt)
IsDistinct-snoc (x ∷ a) e (h, hs) new = (
  ground (
    arith,
    holds-append x.content.bucket_key a (e ∷ []),
    ==_iff x.content.bucket_key e.content.bucket_key,
    ==_iff e.content.bucket_key x.content.bucket_key,
  ),
  IsDistinct-snoc a e hs (ground arith),
)

-- The archive only grows at its end.
pub ⟶*-extends : (a c : List Entry) → a ⟶* c → (added : List Entry) × (c ≡ a ++ added)
⟶*-extends a _ here = ([], sym (append-nil a))
⟶*-extends a c (step stay t) = ⟶*-extends a c t
⟶*-extends a c (step (add e new) t) =
    let (added, h) = ⟶*-extends (a ++ e ∷ []) c t in (e ∷ added, h ∙ append_assoc a (e ∷ []) added)

pub ⟶*-IsDistinct : (a c : List Entry) → a ⟶* c → IsDistinct a → IsDistinct c
⟶*-IsDistinct a _ here h = h
⟶*-IsDistinct a c (step stay t) h = ⟶*-IsDistinct a c t h
⟶*-IsDistinct a c (step (add e new) t) h =
    ⟶*-IsDistinct (a ++ e ∷ []) c t (IsDistinct-snoc a e h new)
