-- ===== src/Textile/Buckets.antt =====
-- A bucket that `create_bucket_and_push_data` makes holds the bytes, and no other bucket changes.
use hackfs_mdc.Base.{
  ◌≡◌, ◌≢◌, inl, inr, sym, subst, ◌∙◌, String, Bool, none, some, arith, Option-cases,
}
use hackfs_mdc.Go.{ok, returned}
use hackfs_mdc.Go.Laws.{Result-cases}
use hackfs_mdc.Messages.{Bytes}
use hackfs_mdc.Services.{Services}
use hackfs_mdc.Textile.{
  Clients, create_bucket, create_bucket_and_push_data, push_data, link_bucket,
  pull_bytes_from_bucket,
}
use hackfs_mdc.Textile.Promises.{View, Extends, Extends-trans, Promises}

module _ (env : Services) (clients : Clients env) (view : View env) (law : Promises env view) where
  open env use {World}
  open view use {content, records}

  link_bucket-Extends :
      (key : String) (w : World) → Extends env view w (link_bucket env clients key w).1
  unfolding link_bucket
  link_bucket-Extends key w =
      ground (arith, law.links_extends clients.context_with_db_thread_id key w)

  -- What a successful call reports: the thread, the bucket's key and the link.
  link_bucket-keys :
      (key : String) (keys : String × String × String) (w w' : World)
      → link_bucket env clients key w ≡ (returned (ok keys), w')
      → (keys.0 ≡ env.thread_id_string clients.db_thread_id) × (keys.1 ≡ key)
  unfolding link_bucket
  link_bucket-keys key keys w w' h = ground arith

  -- A push changes nothing that was there before its bucket was made.
  push-Extends :
      (key path : String) (b : Bytes) (u w : World)
      → Extends env view u w
      → ((q : String) → content u key q ≡ none)
      → Extends env view u (env.buckets_push_path clients.context_with_db_thread_id key path b w).1
  push-Extends key path b u w x fresh = record {
    keeps = λ j q b' h.
        law.push_keeps clients.context_with_db_thread_id key path b w j q b'
          (λ e. differ j q b' e h) (x.keeps j q b' h);
    same_records = law.push_records clients.context_with_db_thread_id key path b w ∙ x.same_records;
  }
    where
      differ : (j q : String) (b' : Bytes) → key ≡ j → content u j q ≡ some b' → ⊥
      differ j q b' e h = ground (arith, fresh q, subst (λ k. content u k q ≡ some b') (sym e) h)

  -- A push into a bucket that is new since the world `u`, and the link: what was there stays, and
  -- the bytes are there if no error is reported.
  push_data_lem :
      (key path : String) (b : Bytes) (u w : World)
      → Extends env view u w
      → ((q : String) → content u key q ≡ none)
      → Extends env view u (push_data env clients key path b w).1
        × ((keys : String × String × String) (w' : World)
            → push_data env clients key path b w ≡ (returned (ok keys), w')
            → (keys.0 ≡ env.thread_id_string clients.db_thread_id)
              × (keys.1 ≡ key)
              × (content w' key path ≡ some b))
  unfolding push_data
  push_data_lem key path b u w x fresh =
      let c = clients.context_with_db_thread_id in
      let w1 = (env.buckets_push_path c key path b w).1 in
      let pushed = push-Extends key path b u w x fresh in
      let linked = link_bucket-Extends key w1 in
      elim (Option-cases (env.buckets_push_path c key path b w).0) [
        | inl e ↦ (
          rw (e, push_data) (Extends-trans env view u w1 _ pushed linked),
          λ keys w' h.
              let h' : link_bucket env clients key w1 ≡ (returned (ok keys), w') =
                rw (e, push_data) at h in
              let (thread, same) = link_bucket-keys key keys w1 w' h' in
              let stored = law.push_stores c key path b w w1 (λ i. (e i, w1)) in
              (
                thread,
                same,
                subst (λ v. content v key path ≡ some b) (λ i. (h' i).1)
                    (linked.keeps key path b stored),
              ),
        )
        | inr (er, e) ↦ (rw (e, push_data) pushed, λ keys w' h. absurd (ground arith))
      ]

  -- The same for a new bucket, whose key no bytes were under before.
  pub create_bucket_and_push_data_lem :
      (name path : String) (b : Bytes) (private : Bool) (w : World)
      → Extends env view w (create_bucket_and_push_data env clients name path b private w).1
        × ((keys : String × String × String) (w' : World)
            → create_bucket_and_push_data env clients name path b private w
              ≡ (returned (ok keys), w')
            → (keys.0 ≡ env.thread_id_string clients.db_thread_id)
              × ((q : String) (b' : Bytes) → content w keys.1 q ≢ some b')
              × (content w' keys.1 path ≡ some b))
  unfolding create_bucket_and_push_data create_bucket
  create_bucket_and_push_data_lem name path b private w =
      let c = env.new_thread_id_context clients.context_with_db_thread_id clients.db_thread_id in
      let w1 = (env.buckets_init c name private w).1 in
      let made = law.init_extends c name private w in
      elim (Result-cases (env.buckets_init c name private w).0) [
        | inl (x, e) ↦
            (rw (e, create_bucket_and_push_data) made, λ keys w' h. absurd (ground arith))
        | inr (key, e) ↦
            let fresh = λ (q : String). law.init_fresh c name private w w1 key q (λ i. (e i, w1)) in
            let (pushed, stores) = push_data_lem key path b w w1 made fresh in
            (
              rw (e, create_bucket_and_push_data) pushed,
              λ keys w' h.
                  let h' : push_data env clients key path b w1 ≡ (returned (ok keys), w') =
                    rw (e, create_bucket_and_push_data) at h in
                  let (thread, same, there) = stores keys w' h' in
                  (
                    thread,
                    λ q b' old.
                        ground (arith, fresh q, subst (λ k. content w k q ≡ some b') same old),
                    subst (λ k. content w' k path ≡ some b) (sym same) there,
                  ),
            )
      ]

  pub pull-Extends :
      (key path : String) (w : World)
      → Extends env view w (pull_bytes_from_bucket env clients key path w).1
  unfolding pull_bytes_from_bucket
  pull-Extends key path w =
      ground (arith, law.pull_extends clients.context_with_db_thread_id key path w)

  pub pull-reads :
      (key path : String) (bytes : Bytes) (w w' : World)
      → pull_bytes_from_bucket env clients key path w ≡ (returned (ok bytes), w')
      → content w key path ≡ some bytes
  unfolding pull_bytes_from_bucket
  pull-reads key path bytes w w' h =
      let r = env.buckets_pull_path clients.context_with_db_thread_id key path w in
      elim (Option-cases r.0.1) [
        | inl e ↦
            law.pull_reads clients.context_with_db_thread_id key path bytes w r.1 (ground arith)
        | inr (x, e) ↦ absurd (ground arith)
      ]
