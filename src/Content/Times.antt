-- ===== src/Content/Times.antt =====
-- The times in a content record, under a clock that does not go back.
use hackfs_mdc.Base.{
  ℕ, ◌/◌, ◌≤◌, ◌≡◌, refl, inl, inr, String, true, none, some, Option-cases, arith,
}
use hackfs_mdc.Base.Int.{ℤ, pos, ◌≤ℤ◌}
use hackfs_mdc.Go.{ok, err, ◌>>=◌}
use hackfs_mdc.Go.Laws.{Outcome-cases, Ends}
use hackfs_mdc.Common.{get_millisecond}
use hackfs_mdc.Messages.{UploadData, ContentData}
use hackfs_mdc.Services.{Services}
use hackfs_mdc.Node.{get_time_stamp_millisecond}
use hackfs_mdc.Textile.{
  Clients, create_bucket_and_push_data, insert_to_content_db, content_data_collection_name,
}
use hackfs_mdc.Preview.{new_bucket_name, get_preview_from}
use hackfs_mdc.Preview.Effects.{get_preview_from-keeps, new_bucket_name-keeps}
use hackfs_mdc.Content.Clock.{Clock, create_bucket_and_push_data-now, now-Frame}
use hackfs_mdc.Content.{
  Places, content_of, insert_content, preview_content, store_named, store_content,
}

divided : (m n : ℕ) → m ≤ n → pos (m / 1000000) ≤ℤ pos (n / 1000000)
divided m n h = omega (arith, h)

≤ℤ-up : (x : ℤ) (m n : ℕ) → x ≤ℤ pos (m / 1000000) → m ≤ n → x ≤ℤ pos (n / 1000000)
≤ℤ-up x m n h later = omega (arith, h, divided m n later)

module _ (env : Services) (clock : Clock env) (clients : Clients env) where
  open env use {World}
  open clock use {now}
  open clients use {db_thread_id, context_with_db_thread_id}

  -- The record has the time `t` of receipt, and was made between `low` and now.
  abbrev pub Timed : ℤ → ℕ → ContentData → World → Type 0
  Timed t low cd w =
      (cd.received_at ≡ t)
      × (pos (low / 1000000) ≤ℤ cd.updated_at)
      × (cd.updated_at ≤ℤ pos (now w / 1000000))

  insert_content-Timed :
      (places : Places) (t : ℤ) (low : ℕ) (d : ContentData) (w : World)
      → Timed t low d w
      → let r = insert_content env clients places d w in Ends (Timed t low) (λ _. Unit) r.0 r.1
  unfolding insert_content insert_to_content_db
  insert_content-Timed places t low d w (received, from, to) =
      let r =
        env.threads_create context_with_db_thread_id db_thread_id content_data_collection_name d
          w in
      let later =
        clock.create context_with_db_thread_id db_thread_id content_data_collection_name d w in
      elim (Option-cases r.0.1) [
        | inr (x, e) ↦ rw (e, insert_content) tt
        | inl e ↦
            rw (e, insert_content) (received, from, ≤ℤ-up d.updated_at (now w) (now r.1) to later)
      ]

  read-Timed :
      (places : Places) (received_at : ℤ) (low : ℕ) (d : UploadData)
      → (keys : String × String × String) (url kind : String) (w : World) → low ≤ now w
      → let r =
          (do
            updated_at ← get_time_stamp_millisecond env
            insert_content env clients places (content_of d keys url kind received_at updated_at))
            w in
        Ends (Timed received_at low) (λ _. Unit) r.0 r.1
  unfolding get_time_stamp_millisecond get_millisecond
  read-Timed places received_at low d keys url kind w from =
      insert_content-Timed places received_at low
        (content_of d keys url kind received_at (get_millisecond (env.unix_nano w).0))
        (env.unix_nano w).1
        (
          refl,
          rw (clock.told w, get_millisecond) (divided low (now w) from),
          rw (clock.told w, get_millisecond) (divided _ _ (clock.reading w)),
        )

  preview_content-Timed :
      (places : Places) (received_at : ℤ) (low : ℕ) (d : UploadData)
      → (keys : String × String × String) (w : World) → low ≤ now w
      → let r = preview_content env clients places received_at d keys w in
        Ends (Timed received_at low) (λ _. Unit) r.0 r.1
  unfolding preview_content
  preview_content-Timed places received_at low d keys w from =
      let w1 = (get_preview_from env clients d w).1 in
      let from1 =
        get_preview_from-keeps env clients (λ w. low ≤ now w) (now-Frame env clock clients low) d w
          from in
      elim (Outcome-cases (get_preview_from env clients d w).0) [
        | inl e ↦ rw (e, preview_content) tt
        | inr ((url, kind, some x), e) ↦ rw (e, preview_content) tt
        | inr ((url, kind, none), e) ↦
            rw (e, preview_content) (read-Timed places received_at low d keys url kind w1 from1)
      ]

  store_named-Timed :
      (places : Places) (received_at : ℤ) (low : ℕ) (d : UploadData) (name : String) (w : World)
      → low ≤ now w
      → let r = store_named env clients places received_at d name w in
        Ends (Timed received_at low) (λ _. Unit) r.0 r.1
  unfolding store_named
  store_named-Timed places received_at low d name w from =
      let r = create_bucket_and_push_data env clients name d.file_name d.file_bytes true w in
      let later =
        create_bucket_and_push_data-now env clock clients name d.file_name d.file_bytes true w in
      elim (Outcome-cases r.0) [
        | inl e ↦ rw (e, store_named) tt
        | inr (err x, e) ↦ rw (e, store_named) tt
        | inr (ok keys, e) ↦
            rw (e, store_named)
              (preview_content-Timed places received_at low d keys r.1 (omega (arith, from, later)))
      ]

  -- If the clock does not go back, the record of a stored upload has the time of receipt that was
  -- given, and a time of update in milliseconds between the start and the end of the storing.
  pub store_content-Timed :
      (places : Places) (received_at : ℤ) (d : UploadData) (w : World)
      → let r = store_content env clients places received_at d w in
        Ends (Timed received_at (now w)) (λ _. Unit) r.0 r.1
  unfolding store_content
  store_content-Timed places received_at d w =
      let r = new_bucket_name env d.owner_id w in
      let later =
        new_bucket_name-keeps env clients (λ v. now w ≤ now v) (now-Frame env clock clients (now w))
          d.owner_id w (omega arith) in
      elim (Outcome-cases r.0) [
        | inl e ↦ rw (e, store_content) tt
        | inr (name, e) ↦
            rw (e, store_content) (store_named-Timed places received_at (now w) d name r.1 later)
      ]
