-- ===== src/Content/Backing.antt =====
-- Every content record points to bytes that are there: the invariant of the store, and what it
-- gives the look-up of a new record.
use hackfs_mdc.Base.{◌≡◌, refl, ◌≢◌, String, some, List, [], ◌∷◌, ◌++◌, arith, ==_iff, ==_refl}
use hackfs_mdc.Base.Int.{ℤ}
use hackfs_mdc.Messages.{Bytes, UploadData, ContentData}
use hackfs_mdc.Services.{Services}
use hackfs_mdc.Textile.{Clients}
use hackfs_mdc.Textile.Promises.{View, Extends, Promises, with_bucket_key}
use hackfs_mdc.Content.Storing.{IsStored}

with_bucket_key-append :
    (key : String) (xs ys : List ContentData)
    → with_bucket_key key (xs ++ ys) ≡ with_bucket_key key xs ++ with_bucket_key key ys
with_bucket_key-append key [] ys = refl
with_bucket_key-append key (x ∷ xs) ys = ground (arith, with_bucket_key-append key xs ys)

module _ (env : Services) (view : View env) where
  open env use {World}
  open view use {content, records}

  abbrev pub AllBacked : World → List ContentData → Type 0
  AllBacked w [] = Unit
  AllBacked w (d ∷ ds) =
      ((b : Bytes) × (content w d.bucket_key d.file_name ≡ some b)) × AllBacked w ds

  pub record IsBacked (w : World) : Type 0 where
    pub backed : AllBacked w (records w)

  AllBacked-keeps :
      (w w' : World)
      → ((key path : String) (b : Bytes)
          → content w key path ≡ some b
          → content w' key path ≡ some b)
      → (ds : List ContentData) → AllBacked w ds
      → AllBacked w' ds
  AllBacked-keeps w w' keeps [] h = tt
  AllBacked-keeps w w' keeps (d ∷ ds) ((b, h), hs) =
      ((b, keeps d.bucket_key d.file_name b h), AllBacked-keeps w w' keeps ds hs)

  AllBacked-append :
      (w : World) (xs ys : List ContentData)
      → AllBacked w xs
      → AllBacked w ys
      → AllBacked w (xs ++ ys)
  AllBacked-append w [] ys hx hy = hy
  AllBacked-append w (x ∷ xs) ys hx hy = (hx.0, AllBacked-append w xs ys hx.1 hy)

  pub Extends-IsBacked : (w w' : World) → Extends env view w w' → IsBacked w → IsBacked w'
  Extends-IsBacked w w' x h = record {
    backed = rw x.same_records (AllBacked-keeps w w' x.keeps (records w) h.backed);
  }

  -- No record points to a bucket with no bytes.
  with_bucket_key-fresh :
      (w : World) (key : String) (ds : List ContentData)
      → ((q : String) (b : Bytes) → content w key q ≢ some b)
      → AllBacked w ds
      → with_bucket_key key ds ≡ []
  with_bucket_key-fresh w key [] fresh h = refl
  with_bucket_key-fresh w key (d ∷ ds) fresh ((b, h), hs) =
      let other : d.bucket_key ≢ key = λ e. fresh d.file_name b (rw (← e) h) in
      ground (arith, ==_iff d.bucket_key key, with_bucket_key-fresh w key ds fresh hs)

module _ (env : Services) (clients : Clients env) (view : View env) (law : Promises env view) where
  open env use {World}
  open view use {content, records}

  pub IsStored-IsBacked :
      (d : UploadData) (t : ℤ) (w : World) (cd : ContentData) (w' : World)
      → IsStored env clients view law d t w cd w'
      → IsBacked env view w
      → IsBacked env view w'
  IsStored-IsBacked d t w cd w' s h = record {
    backed = rw s.adds.recorded (
        AllBacked-append env view w' (records w) (record cd { id = s.adds.id } ∷ [])
          (AllBacked-keeps env view w w' s.adds.keeps (records w) h.backed)
          ((d.file_bytes, s.bytes_there), tt));
  }

  pub IsStored-found :
      (d : UploadData) (t : ℤ) (w : World) (cd : ContentData) (w' : World)
      → (s : IsStored env clients view law d t w cd w') → IsBacked env view w
      → with_bucket_key cd.bucket_key (records w') ≡ record cd { id = s.adds.id } ∷ []
  IsStored-found d t w cd w' s h =
      rw (s.adds.recorded, with_bucket_key-append)
        (ground (
          arith,
          with_bucket_key-fresh env view w cd.bucket_key (records w) s.fresh h.backed,
          ==_refl cd.bucket_key,
        ))
