-- ===== src/Content/Storing.antt =====
-- What the storing of an upload leaves in Textile, on every branch.
use hackfs_mdc.Base.{◌≡◌, refl, ap, ◌≢◌, inl, inr, String, true, false, some, is_empty, ◌∙◌}
use hackfs_mdc.Base.Int.{ℤ}
use hackfs_mdc.Go.{Outcome, Result, ok, err, returned, panicked}
use hackfs_mdc.Go.Laws.{Outcome-cases, Ends}
use hackfs_mdc.Common.{Error}
use hackfs_mdc.Messages.{Bytes, UploadData, ContentData}
use hackfs_mdc.Services.{Services}
use hackfs_mdc.Textile.{Clients, create_bucket_and_push_data}
use hackfs_mdc.Textile.Promises.{View, Extends, Extends-trans, Promises}
use hackfs_mdc.Textile.Buckets.{create_bucket_and_push_data_lem}
use hackfs_mdc.Preview.{new_bucket_name}
use hackfs_mdc.Content.Making.{Adds, Adds-after, Made, preview_content_lem, new_bucket_name-Extends}
use hackfs_mdc.Content.{Places, or_else-filled, preview_content, store_named, store_content}

module _ (env : Services) (clients : Clients env) (view : View env) (law : Promises env view) where
  open env use {World}
  open view use {content, records}

  -- What the caller of a successful upload may rely on: the record repeats the upload, with a type
  -- and a description that are never empty; it is the one new record; and its bucket, which was not
  -- there before, holds the bytes under the file's name.
  pub record IsStored (d : UploadData) (received_at : ℤ) (w : World) (cd : ContentData) (w' : World)
      : Type 0 where
    pub owner : cd.owner_id ≡ d.owner_id
    pub name : cd.file_name ≡ d.file_name
    pub size : cd.file_size ≡ d.file_size
    pub received : cd.received_at ≡ received_at
    pub thread : cd.thread_key ≡ env.thread_id_string clients.db_thread_id
    pub typed : is_empty cd.file_type ≡ false
    pub described : is_empty cd.description ≡ false
    pub bytes_there : content w' cd.bucket_key cd.file_name ≡ some d.file_bytes
    pub fresh : (q : String) (b : Bytes) → content w cd.bucket_key q ≢ some b
    pub adds : Adds env clients view law cd w w'

  -- It does not matter what else, that leaves Textile alone, happens before and after.
  pub IsStored-around :
      (d : UploadData) (t : ℤ) (u v w x : World) (cd : ContentData)
      → Extends env view u v
      → IsStored d t v cd w
      → Extends env view w x
      → IsStored d t u cd x
  IsStored-around d t u v w x cd before s behind = record {
    owner = s.owner;
    name = s.name;
    size = s.size;
    received = s.received;
    thread = s.thread;
    typed = s.typed;
    described = s.described;
    bytes_there = behind.keeps cd.bucket_key cd.file_name d.file_bytes s.bytes_there;
    fresh = λ q b h. s.fresh q b (before.keeps cd.bucket_key q b h);
    adds = record {
      keeps = λ k p b h. behind.keeps k p b (s.adds.keeps k p b (before.keeps k p b h));
      id = s.adds.id;
      recorded = rw (behind.same_records, ← before.same_records) s.adds.recorded;
    };
  }

  Made-IsStored :
      (d : UploadData) (keys : String × String × String) (received_at : ℤ)
      → (u w : World) (cd : ContentData) (w' : World)
      → keys.0 ≡ env.thread_id_string clients.db_thread_id
      → ((q : String) (b : Bytes) → content u keys.1 q ≢ some b)
      → content w keys.1 d.file_name ≡ some d.file_bytes
      → Extends env view u w
      → Made env clients view law d keys received_at w cd w'
      → IsStored d received_at u cd w'
  Made-IsStored d keys received_at u w cd w' thread fresh there x (url, kind, t, e, added) =
      record {
        owner = ap (λ (c : ContentData). c.owner_id) e;
        name = ap (λ (c : ContentData). c.file_name) e;
        size = ap (λ (c : ContentData). c.file_size) e;
        received = ap (λ (c : ContentData). c.received_at) e;
        thread = ap (λ (c : ContentData). c.thread_key) e ∙ thread;
        typed = rw e (or_else-filled kind "unknown" refl);
        described = rw e (or_else-filled d.description "no description" refl);
        bytes_there = rw e (added.keeps keys.1 d.file_name d.file_bytes there);
        fresh = rw e fresh;
        adds = Adds-after env clients view law cd u w w' x added;
      }

  push_made :
      (places : Places) (received_at : ℤ) (d : UploadData)
      → (keys : String × String × String) (u w : World)
      → keys.0 ≡ env.thread_id_string clients.db_thread_id
      → ((q : String) (b : Bytes) → content u keys.1 q ≢ some b)
      → content w keys.1 d.file_name ≡ some d.file_bytes
      → Extends env view u w
      → let r = preview_content env clients places received_at d keys w in
        Ends (IsStored d received_at u) (Extends env view u) r.0 r.1
  push_made places received_at d keys u w thread fresh there x =
      go (preview_content env clients places received_at d keys w).0
        (preview_content env clients places received_at d keys w).1
        (preview_content_lem env clients view law places received_at d keys w)
    where
      go :
          (o : Outcome (Result Error ContentData)) (w' : World)
          → Ends (Made env clients view law d keys received_at w) (Extends env view w) o w'
          → Ends (IsStored d received_at u) (Extends env view u) o w'
      go (returned (ok a)) w' m = Made-IsStored d keys received_at u w a w' thread fresh there x m
      go (returned (err e)) w' y = Extends-trans env view u w w' x y
      go panicked w' y = Extends-trans env view u w w' x y

  store_named_lem :
      (places : Places) (received_at : ℤ) (d : UploadData) (name : String) (u w : World)
      → Extends env view u w
      → let r = store_named env clients places received_at d name w in
        Ends (IsStored d received_at u) (Extends env view u) r.0 r.1
  unfolding store_named
  store_named_lem places received_at d name u w x =
      let pushing = create_bucket_and_push_data env clients name d.file_name d.file_bytes true w in
      let (y, stores) =
        create_bucket_and_push_data_lem env clients view law name d.file_name d.file_bytes true w in
      let z = Extends-trans env view u w pushing.1 x y in
      elim (Outcome-cases pushing.0) [
        | inl e ↦ rw (e, store_named) z
        | inr (err er, e) ↦ rw (e, store_named) z
        | inr (ok keys, e) ↦
            let (thread, fresh, there) = stores keys pushing.1 (λ i. (e i, pushing.1)) in
            rw (e, store_named)
              (push_made places received_at d keys u pushing.1 thread
                (λ q b old. fresh q b (x.keeps keys.1 q b old)) there z)
      ]

  -- Storing an upload gives a record that repeats the upload, with a type and a description that
  -- are not empty, is the one new record, and has its bytes in a bucket that was empty before; or
  -- it gives an error or panics, with the records as they were and no bytes lost.
  pub store_content_lem :
      (places : Places) (received_at : ℤ) (d : UploadData) (w : World)
      → let r = store_content env clients places received_at d w in
        Ends (IsStored d received_at w) (Extends env view w) r.0 r.1
  unfolding store_content
  store_content_lem places received_at d w =
      let x = new_bucket_name-Extends env clients view law d.owner_id w in
      let w1 = (new_bucket_name env d.owner_id w).1 in
      elim (Outcome-cases (new_bucket_name env d.owner_id w).0) [
        | inl e ↦ rw (e, store_content) x
        | inr (name, e) ↦ rw (e, store_content) (store_named_lem places received_at d name w w1 x)
      ]
