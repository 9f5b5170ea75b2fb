-- ===== src/Content/Making.antt =====
-- The making of a content record: what its preview and its insertion leave in Textile.
use hackfs_mdc.Base.{◌≡◌, refl, inl, inr, String, none, some, [], ◌∷◌, ◌++◌, Option-cases}
use hackfs_mdc.Base.Int.{ℤ}
use hackfs_mdc.Go.{Outcome, Result, ok, err, returned, panicked}
use hackfs_mdc.Go.Laws.{Outcome-cases, Ends}
use hackfs_mdc.Common.{Error}
use hackfs_mdc.Messages.{Bytes, UploadData, ContentData}
use hackfs_mdc.Services.{Services}
use hackfs_mdc.Node.{get_time_stamp_millisecond}
use hackfs_mdc.Textile.{Clients, insert_to_content_db, content_data_collection_name}
use hackfs_mdc.Textile.Promises.{View, Extends, Extends-refl, Extends-trans, Promises}
use hackfs_mdc.Textile.Buckets.{create_bucket_and_push_data_lem}
use hackfs_mdc.Preview.{new_bucket_name, get_preview_from}
use hackfs_mdc.Preview.Effects.{Frame, get_preview_from-keeps, new_bucket_name-keeps}
use hackfs_mdc.Content.{Places, content_of, insert_content, preview_content}

module _ (env : Services) (clients : Clients env) (view : View env) (law : Promises env view) where
  open env use {World}
  open view use {content, records}

  Extends-Frame : (w0 : World) → Frame env clients (Extends env view w0)
  Extends-Frame w0 = record {
    clock = λ w p. Extends-trans env view w0 w _ p (law.clock_extends w);
    ulid = λ t w p. Extends-trans env view w0 w _ p (law.ulid_extends t w);
    push = λ n f b v w p.
        Extends-trans env view w0 w _ p
          (create_bucket_and_push_data_lem env clients view law n f b v w).0;
    temp_dir = λ d w p. Extends-trans env view w0 w _ p (law.temp_dir_extends d w);
    remove_all = λ d w p. Extends-trans env view w0 w _ p (law.remove_all_extends d w);
    write_file = λ d b w p. Extends-trans env view w0 w _ p (law.write_file_extends d b w);
    transcoder_init = λ w p. Extends-trans env view w0 w _ p (law.transcoder_init_extends w);
    set_input_path = λ d w p. Extends-trans env view w0 w _ p (law.set_input_path_extends d w);
    create_output_pipe =
        λ d w p. Extends-trans env view w0 w _ p (law.create_output_pipe_extends d w);
    run_transcoder = λ w p. Extends-trans env view w0 w _ p (law.run_transcoder_extends w);
    read_pipe = λ r w p. Extends-trans env view w0 w _ p (law.read_pipe_extends r w);
    reader_assigns_last =
        λ w p. Extends-trans env view w0 w _ p (law.reader_assigns_last_extends w);
  }

  get_preview_from-Extends :
      (d : UploadData) (w : World) → Extends env view w (get_preview_from env clients d w).1
  get_preview_from-Extends d w =
      get_preview_from-keeps env clients (Extends env view w) (Extends-Frame w) d w
        (Extends-refl env view w)

  pub new_bucket_name-Extends :
      (owner : String) (w : World) → Extends env view w (new_bucket_name env owner w).1
  new_bucket_name-Extends owner w =
      new_bucket_name-keeps env clients (Extends env view w) (Extends-Frame w) owner w
        (Extends-refl env view w)

  -- No bytes are lost, and one record is new: `d`, under an ID of Textile's.
  pub record Adds (d : ContentData) (w w' : World) : Type 0 where
    pub keeps :
        (key path : String) (b : Bytes) → content w key path ≡ some b → content w' key path ≡ some b
    pub id : String
    pub recorded : records w' ≡ records w ++ record d { id = id } ∷ []

  insert_content_lem :
      (places : Places) (d : ContentData) (w : World)
      → let r = insert_content env clients places d w in
        Ends (λ a w'. (a ≡ d) × Adds d w w') (Extends env view w) r.0 r.1
  unfolding insert_content insert_to_content_db
  insert_content_lem places d w =
      let c = clients.context_with_db_thread_id in
      let t = clients.db_thread_id in
      let r = env.threads_create c t content_data_collection_name d w in
      let kept = law.create_keeps c t content_data_collection_name d w in
      elim (Option-cases r.0.1) [
        | inl e ↦
            let (id, added) = law.create_adds c t d r.0.0 w r.1 (λ i. ((r.0.0, e i), r.1)) in
            rw (e, insert_content) (refl, record { keeps = kept; id = id; recorded = added })
        | inr (x, e) ↦
            rw (e, insert_content)
              (record {
                keeps = kept;
                same_records = law.create_refused c t d r.0.0 x w r.1 (λ i. ((r.0.0, e i), r.1));
              })
      ]

  pub Adds-after :
      (d : ContentData) (u v w : World) → Extends env view u v → Adds d v w → Adds d u w
  Adds-after d u v w x a = record {
    keeps = λ k p b h. a.keeps k p b (x.keeps k p b h);
    id = a.id;
    recorded = rw (← x.same_records) a.recorded;
  }

  -- What a record made of an upload says, and that it is the one new record.
  abbrev pub Made : UploadData → String × String × String → ℤ → World → ContentData → World → Type 0
  Made d keys received_at w cd w' =
      (url : String) × (kind : String) × (updated_at : ℤ) × (cd
        ≡ content_of d keys url kind received_at updated_at)
      × Adds cd w w'

  insert-Made :
      (places : Places) (received_at updated_at : ℤ) (d : UploadData)
      → (keys : String × String × String) (url kind : String) (u w : World) → Extends env view u w
      → let r =
          insert_content env clients places (content_of d keys url kind received_at updated_at) w in
        Ends (Made d keys received_at u) (Extends env view u) r.0 r.1
  insert-Made places received_at updated_at d keys url kind u w x =
      go (insert_content env clients places cd w).0 (insert_content env clients places cd w).1
        (insert_content_lem places cd w)
    where
      cd : ContentData
      cd = content_of d keys url kind received_at updated_at

      go :
          (o : Outcome (Result Error ContentData)) (w' : World)
          → Ends (λ a w'. (a ≡ cd) × Adds cd w w') (Extends env view w) o w'
          → Ends (Made d keys received_at u) (Extends env view u) o w'
      go (returned (ok a)) w' (e, added) =
          (url, kind, updated_at, e, rw e (Adds-after cd u w w' x added))
      go (returned (err e)) w' y = Extends-trans env view u w w' x y
      go panicked w' y = Extends-trans env view u w w' x y

  pub preview_content_lem :
      (places : Places) (received_at : ℤ) (d : UploadData)
      → (keys : String × String × String) (w : World)
      → let r = preview_content env clients places received_at d keys w in
        Ends (Made d keys received_at w) (Extends env view w) r.0 r.1
  unfolding preview_content get_time_stamp_millisecond
  preview_content_lem places received_at d keys w =
      let x = get_preview_from-Extends d w in
      let w1 = (get_preview_from env clients d w).1 in
      elim (Outcome-cases (get_preview_from env clients d w).0) [
        | inl e ↦ rw (e, preview_content) x
        | inr ((url, kind, some er), e) ↦ rw (e, preview_content) x
        | inr ((url, kind, none), e) ↦
            rw (e, preview_content)
              (insert-Made places received_at _ d keys url kind w (env.unix_nano w1).1
                (Extends-trans env view w w1 _ x (law.clock_extends w1)))
      ]
