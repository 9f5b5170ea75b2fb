-- ===== src/Content/Evolution.antt =====
-- What any operation does to the content store: nothing, or the storing of one upload.
use hackfs_mdc.Base.Int.{ℤ}
use hackfs_mdc.Go.{Outcome, Result, ok, err, returned, panicked}
use hackfs_mdc.Go.Laws.{Ends}
use hackfs_mdc.Common.{Error}
use hackfs_mdc.Messages.{UploadData, ContentData}
use hackfs_mdc.Services.{Services}
use hackfs_mdc.Textile.{Clients}
use hackfs_mdc.Textile.Promises.{View, Extends, Extends-refl, Extends-trans, Promises}
use hackfs_mdc.Content.{Places, store_content}
use hackfs_mdc.Content.Storing.{IsStored, IsStored-around, store_content_lem}
use hackfs_mdc.Content.Backing.{IsBacked, Extends-IsBacked, IsStored-IsBacked}

module _ (env : Services) (clients : Clients env) (view : View env) (law : Promises env view) where
  open env use {World}

  pub data Evolves (u w : World) : Type 0 where
    same : Extends env view u w → Evolves u w
    stored :
        (d : UploadData) (t : ℤ) (cd : ContentData)
        → IsStored env clients view law d t u cd w
        → Evolves u w

  pub Evolves-Extends : (u v w : World) → Evolves u v → Extends env view v w → Evolves u w
  Evolves-Extends u v w (same x) y = same (Extends-trans env view u v w x y)
  Evolves-Extends u v w (stored d t cd s) y =
      stored d t cd
        (IsStored-around env clients view law d t u u v w cd (Extends-refl env view u) s y)

  pub store_content-Evolves :
      (places : Places) (t : ℤ) (d : UploadData) (u w : World)
      → Extends env view u w
      → Evolves u (store_content env clients places t d w).1
  store_content-Evolves places t d u w x =
      go (store_content env clients places t d w).0 (store_content env clients places t d w).1
        (store_content_lem env clients view law places t d w)
    where
      go :
          (o : Outcome (Result Error ContentData)) (w' : World)
          → Ends (IsStored env clients view law d t w) (Extends env view w) o w'
          → Evolves u w'
      go (returned (ok cd)) w' s =
          stored d t cd
            (IsStored-around env clients view law d t u w w' w' cd x s (Extends-refl env view w'))
      go (returned (err e)) w' y = same (Extends-trans env view u w w' x y)
      go panicked w' y = same (Extends-trans env view u w w' x y)

  pub Evolves-IsBacked : (u w : World) → Evolves u w → IsBacked env view u → IsBacked env view w
  Evolves-IsBacked u w (same x) h = Extends-IsBacked env view u w x h
  Evolves-IsBacked u w (stored d t cd s) h = IsStored-IsBacked env clients view law d t u cd w s h
