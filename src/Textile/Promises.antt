-- ===== src/Textile/Promises.antt =====
-- What Textile promises of buckets and records, as the code relies on it, and that the other
-- services leave them alone.
use hackfs_mdc.Base.{◌≡◌, refl, ◌≢◌, String, Bool, Option, none, some, List, [], ◌∷◌, ◌++◌, ◌==◌}
use hackfs_mdc.Base.{arith, if◌then◌else◌}
use hackfs_mdc.Base.Int.{ℤ}
use hackfs_mdc.Go.{ok}
use hackfs_mdc.Common.{Error}
use hackfs_mdc.Messages.{Bytes, Message, ContentData}
use hackfs_mdc.Services.{Services, Found}
use hackfs_mdc.Textile.{content_data_collection_name}

-- What a world holds in Textile: the bytes under a bucket's key and a path, and the records.
pub record View (env : Services) : Type 0 where
  pub content : env.World → String → String → Option Bytes
  pub records : env.World → List ContentData

-- The answer to a query for one bucket's key.
abbrev pub with_bucket_key : String → List ContentData → List ContentData
with_bucket_key key [] = []
with_bucket_key key (d ∷ ds) =
    let rest = with_bucket_key key ds in if d.bucket_key == key then d ∷ rest else rest

module _ (env : Services) (view : View env) where
  open env use {World}
  open view use {content, records}

  -- No bytes are lost or changed, and the records are the same.
  pub record Extends (w w' : World) : Type 0 where
    pub keeps :
        (key path : String) (b : Bytes) → content w key path ≡ some b → content w' key path ≡ some b
    pub same_records : records w' ≡ records w

  pub Extends-refl : (w : World) → Extends w w
  Extends-refl w = record { keeps = λ k p b h. h; same_records = refl }

  pub Extends-trans : (u v w : World) → Extends u v → Extends v w → Extends u w
  Extends-trans u v w x y = record {
    keeps = λ k p b h. y.keeps k p b (x.keeps k p b h);
    same_records = ground (arith, x.same_records, y.same_records);
  }

  pub record Promises : Type 0 where
    -- a new bucket has a key of its own
    pub init_extends :
        (c : env.Context) (name : String) (private : Bool) (w : World)
        → Extends w (env.buckets_init c name private w).1
    pub init_fresh :
        (c : env.Context) (name : String) (private : Bool) (w w' : World) (key path : String)
        → env.buckets_init c name private w ≡ (ok key, w')
        → content w key path ≡ none
    -- a push writes one path of one bucket
    pub push_stores :
        (c : env.Context) (key path : String) (b : Bytes) (w w' : World)
        → env.buckets_push_path c key path b w ≡ (none, w')
        → content w' key path ≡ some b
    pub push_keeps :
        (c : env.Context) (key path : String) (b : Bytes) (w : World) (j q : String) (b' : Bytes)
        → key ≢ j
        → content w j q ≡ some b'
        → content (env.buckets_push_path c key path b w).1 j q ≡ some b'
    pub push_records :
        (c : env.Context) (key path : String) (b : Bytes) (w : World)
        → records (env.buckets_push_path c key path b w).1 ≡ records w
    pub links_extends :
        (c : env.Context) (key : String) (w : World) → Extends w (env.buckets_links_ipns c key w).1
    pub pull_extends :
        (c : env.Context) (key path : String) (w : World)
        → Extends w (env.buckets_pull_path c key path w).1
    -- a pull that reports no error gives the bytes that are there
    pub pull_reads :
        (c : env.Context) (key path : String) (b : Bytes) (w w' : World)
        → env.buckets_pull_path c key path w ≡ ((b, none), w')
        → content w key path ≡ some b
    -- a creation that reports no error adds the record, under an ID of Textile's
    pub create_keeps :
        (c : env.Context) (t : env.ThreadId) (name : String) (d : ContentData) (w : World)
        → (key path : String) (b : Bytes) → content w key path ≡ some b
        → content (env.threads_create c t name d w).1 key path ≡ some b
    pub create_adds :
        (c : env.Context) (t : env.ThreadId) (d : ContentData)
        → (ids : List String) (w w' : World)
        → env.threads_create c t content_data_collection_name d w ≡ ((ids, none), w')
        → (id : String) × (records w' ≡ records w ++ record d { id = id } ∷ [])
    pub create_refused :
        (c : env.Context) (t : env.ThreadId) (d : ContentData)
        → (ids : List String) (e : Error) (w w' : World)
        → env.threads_create c t content_data_collection_name d w ≡ ((ids, some e), w')
        → records w' ≡ records w
    pub find_extends :
        (c : env.Context) (t : env.ThreadId) (name : String) (q : env.Query) (w : World)
        → Extends w (env.threads_find c t name q w).1
    -- a query for a bucket's key that reports no error gives the records with that key
    pub find_reads :
        (c : env.Context) (t : env.ThreadId) (key : String) (found : Found) (w w' : World)
        → env.threads_find c t content_data_collection_name (env.where_eq "bucketKey" key) w
          ≡ ((found, none), w')
        → found ≡ Found.content_datas (with_bucket_key key (records w))
    -- the clock, the host's key, the streams and the transcoder are no part of Textile
    pub clock_extends : (w : World) → Extends w (env.unix_nano w).1
    pub ulid_extends : (t : ℤ) (w : World) → Extends w (env.ulid_must_new t w).1
    pub sign_extends : (b : Bytes) (w : World) → Extends w (env.host_key_sign b w).1
    pub new_stream_extends :
        (peer protocol : String) (w : World) → Extends w (env.new_stream peer protocol w).1
    pub write_msg_extends :
        (s : env.Stream) (m : Message) (w : World) → Extends w (env.write_msg s m w).1
    pub full_close_extends : (s : env.Stream) (w : World) → Extends w (env.full_close s w).1
    pub read_all_extends : (s : env.Stream) (w : World) → Extends w (env.read_all s w).1
    pub reset_extends : (s : env.Stream) (w : World) → Extends w (env.reset s w)
    pub close_extends : (s : env.Stream) (w : World) → Extends w (env.close s w)
    pub temp_dir_extends : (p : String) (w : World) → Extends w (env.temp_dir p w).1
    pub remove_all_extends : (p : String) (w : World) → Extends w (env.remove_all p w)
    pub write_file_extends :
        (p : String) (b : Bytes) (w : World) → Extends w (env.write_file p b w).1
    pub transcoder_init_extends : (w : World) → Extends w (env.transcoder_init w).1
    pub set_input_path_extends : (p : String) (w : World) → Extends w (env.set_input_path p w).1
    pub create_output_pipe_extends :
        (p : String) (w : World) → Extends w (env.create_output_pipe p w).1
    pub run_transcoder_extends : (w : World) → Extends w (env.run_transcoder w).1
    pub read_pipe_extends : (p : env.Pipe) (w : World) → Extends w (env.read_pipe p w).1
    pub reader_assigns_last_extends : (w : World) → Extends w (env.reader_assigns_last w).1
