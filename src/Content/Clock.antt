-- ===== src/Content/Clock.antt =====
-- A clock that does not go back, which no step of an upload turns back.
use hackfs_mdc.Base.{ℕ, ◌≤◌, ◌≡◌, inl, inr, String, Bool, Option-cases, arith}
use hackfs_mdc.Base.Int.{ℤ, pos}
use hackfs_mdc.Go.Laws.{Result-cases}
use hackfs_mdc.Messages.{Bytes, ContentData}
use hackfs_mdc.Services.{Services}
use hackfs_mdc.Textile.{Clients, create_bucket, push_data, link_bucket, create_bucket_and_push_data}
use hackfs_mdc.Preview.Effects.{Frame}

-- `now` is the time in nanoseconds, of which the clock tells the one before the read; it does not
-- go back when the clock or another service is called.
pub record Clock (env : Services) : Type 0 where
  pub now : env.World → ℕ
  pub told : (w : env.World) → (env.unix_nano w).0 ≡ pos (now w)
  pub reading : (w : env.World) → now w ≤ now (env.unix_nano w).1
  pub ulid : (t : ℤ) (w : env.World) → now w ≤ now (env.ulid_must_new t w).1
  pub create :
      (c : env.Context) (t : env.ThreadId) (n : String) (d : ContentData) (w : env.World)
      → now w ≤ now (env.threads_create c t n d w).1
  pub init :
      (c : env.Context) (n : String) (p : Bool) (w : env.World)
      → now w ≤ now (env.buckets_init c n p w).1
  pub push :
      (c : env.Context) (k p : String) (b : Bytes) (w : env.World)
      → now w ≤ now (env.buckets_push_path c k p b w).1
  pub links :
      (c : env.Context) (k : String) (w : env.World) → now w ≤ now (env.buckets_links_ipns c k w).1
  pub temp_dir : (p : String) (w : env.World) → now w ≤ now (env.temp_dir p w).1
  pub remove_all : (p : String) (w : env.World) → now w ≤ now (env.remove_all p w)
  pub write_file : (p : String) (b : Bytes) (w : env.World) → now w ≤ now (env.write_file p b w).1
  pub transcoder_init : (w : env.World) → now w ≤ now (env.transcoder_init w).1
  pub set_input_path : (p : String) (w : env.World) → now w ≤ now (env.set_input_path p w).1
  pub create_output_pipe : (p : String) (w : env.World) → now w ≤ now (env.create_output_pipe p w).1
  pub run_transcoder : (w : env.World) → now w ≤ now (env.run_transcoder w).1
  pub read_pipe : (p : env.Pipe) (w : env.World) → now w ≤ now (env.read_pipe p w).1
  pub reader_assigns_last : (w : env.World) → now w ≤ now (env.reader_assigns_last w).1

module _ (env : Services) (clock : Clock env) (clients : Clients env) where
  open env use {World}
  open clock use {now}
  open clients use {db_thread_id, context_with_db_thread_id}

  link_bucket-now : (key : String) (w : World) → now w ≤ now (link_bucket env clients key w).1
  unfolding link_bucket
  link_bucket-now key w =
      let l = clock.links context_with_db_thread_id key w in
      elim (Result-cases (env.buckets_links_ipns context_with_db_thread_id key w).0) [
        | inl (x, e) ↦ rw (e, link_bucket) l
        | inr (x, e) ↦ rw (e, link_bucket) l
      ]

  push_data-now :
      (key path : String) (b : Bytes) (w : World)
      → now w ≤ now (push_data env clients key path b w).1
  unfolding push_data
  push_data-now key path b w =
      let w1 = (env.buckets_push_path context_with_db_thread_id key path b w).1 in
      let p = clock.push context_with_db_thread_id key path b w in
      elim (Option-cases (env.buckets_push_path context_with_db_thread_id key path b w).0) [
        | inr (x, e) ↦ rw (e, push_data) p
        | inl e ↦ rw (e, push_data) (omega (arith, p, link_bucket-now key w1))
      ]

  pub create_bucket_and_push_data-now :
      (name path : String) (b : Bytes) (private : Bool) (w : World)
      → now w ≤ now (create_bucket_and_push_data env clients name path b private w).1
  unfolding create_bucket_and_push_data create_bucket
  create_bucket_and_push_data-now name path b private w =
      let c = env.new_thread_id_context context_with_db_thread_id db_thread_id in
      let w1 = (env.buckets_init c name private w).1 in
      let i = clock.init c name private w in
      elim (Result-cases (env.buckets_init c name private w).0) [
        | inl (x, e) ↦ rw (e, create_bucket_and_push_data) i
        | inr (key, e) ↦
            rw (e, create_bucket_and_push_data) (omega (arith, i, push_data-now key path b w1))
      ]

  -- Every service that a preview calls comes no earlier than `t`.
  pub now-Frame : (t : ℕ) → Frame env clients (λ w. t ≤ now w)
  now-Frame t = record {
    clock = λ w p. omega (arith, p, clock.reading w);
    ulid = λ i w p. omega (arith, p, clock.ulid i w);
    push = λ n f b v w p. omega (arith, p, create_bucket_and_push_data-now n f b v w);
    temp_dir = λ d w p. omega (arith, p, clock.temp_dir d w);
    remove_all = λ d w p. omega (arith, p, clock.remove_all d w);
    write_file = λ d b w p. omega (arith, p, clock.write_file d b w);
    transcoder_init = λ w p. omega (arith, p, clock.transcoder_init w);
    set_input_path = λ d w p. omega (arith, p, clock.set_input_path d w);
    create_output_pipe = λ d w p. omega (arith, p, clock.create_output_pipe d w);
    run_transcoder = λ w p. omega (arith, p, clock.run_transcoder w);
    read_pipe = λ r w p. omega (arith, p, clock.read_pipe r w);
    reader_assigns_last = λ w p. omega (arith, p, clock.reader_assigns_last w);
  }
