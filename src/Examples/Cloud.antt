-- ===== src/Examples/Cloud.antt =====
-- Concrete services: the files and the records are lists, a signature is the signed bytes behind a
-- mark, and every message marshals to its kind and the length of its signature.
use hackfs_mdc.Base.{
  ℕ, ◌+◌, ◌≡◌, refl, sym, subst, inl, inr, Bool-cases, String, ◌<>◌, Bool, true, false, ◌&&◌,
  Option, none, some, List, [], ◌∷◌, ◌++◌, arith, eqb, ◌==◌, ==_iff, ==_refl, length, decimal,
  if◌then◌else◌,
}
use hackfs_mdc.Base.Int.{pos}
use hackfs_mdc.Go.{returned, Result, ok, err}
use hackfs_mdc.Common.{Error}
use hackfs_mdc.Messages.{Bytes, Message, MessageData, UploadRequest, ContentData}
use hackfs_mdc.Services.{Services, Found}
use hackfs_mdc.Textile.{Clients}
use hackfs_mdc.Node.Signing.{HostKeys}
use hackfs_mdc.Textile.Promises.{View, Extends, Promises, with_bucket_key}

pub record Cloud : Type 0 where
  pub clock : ℕ
  pub serial : ℕ
  pub files : List (String × String × Bytes)
  pub records : List ContentData
  pub sent : List (String × Message)

abbrev pub same_bytes : Bytes → Bytes → Bool
same_bytes [] [] = true
same_bytes (x ∷ xs) (y ∷ ys) = eqb x y && same_bytes xs ys
same_bytes _ _ = false

same_bytes_refl : (b : Bytes) → same_bytes b b ≡ true
same_bytes_refl [] = refl
same_bytes_refl (x ∷ xs) = ground (arith, same_bytes_refl xs)

abbrev sign_length : Option MessageData → ℕ
sign_length none = 0
sign_length (some d) = length d.sign

abbrev encode : Message → Bytes
encode (Message.upload_request m) = 1 ∷ sign_length m.message_data ∷ []
encode (Message.upload_response m) = 2 ∷ sign_length m.message_data ∷ []
encode (Message.download_request m) = 3 ∷ sign_length m.message_data ∷ []
encode (Message.download_response m) = 4 ∷ sign_length m.message_data ∷ []
encode (Message.json_request m) = 5 ∷ sign_length m.message_data ∷ []
encode (Message.json_response m) = 6 ∷ sign_length m.message_data ∷ []

-- The first file at the key and the path.
abbrev pub file_at : List (String × String × Bytes) → String → String → Option Bytes
file_at [] key path = none
file_at ((k, p, b) ∷ fs) key path = if k == key && p == path then some b else file_at fs key path

abbrev pub taken : List (String × String × Bytes) → String → Bool
taken [] key = false
taken ((k, p, b) ∷ fs) key = if k == key then true else taken fs key

file_at_free :
    (fs : List (String × String × Bytes)) (key path : String)
    → taken fs key ≡ false
    → file_at fs key path ≡ none
file_at_free [] key path h = refl
file_at_free ((k, p, b) ∷ fs) key path h = ground (arith, file_at_free fs key path)

abbrev pulled : Option Bytes → Bytes × Option Error
pulled none = ([], some (Error.foreign "no such file"))
pulled (some b) = (b, none)

abbrev failed : Error
failed = Error.foreign "failed"

-- What an incoming stream carries, and from whom.
pub record Line : Type 0 where
  pub peer : String
  pub incoming : Result Error Bytes

abbrev find_in : List ContentData → String × String × String → List ContentData
find_in ds (field, op, v) = if field == "bucketKey" then with_bucket_key v ds else ds

-- The messages that the streams may carry: 1 stands for `request`, 0 for an empty message.
abbrev pub cloud : UploadRequest → Services
cloud request = record {
  World = Cloud;
  unix_nano = λ w. (pos w.clock, record w { clock = w.clock + 1000000 });
  ulid_must_new = λ t w. (returned ("u" <> decimal w.serial), record w { serial = w.serial + 1 });
  PubKey = String;
  unmarshal_public_key = λ b. ok "key";
  id_from_public_key = λ k. ok "host";
  key_verify = λ k bin sig. ok (same_bytes sig (9 ∷ bin));
  peer_decode = λ s. ok s;
  peer_encode = λ s. s;
  host_id = "host";
  host_pub_key_bytes = ok (7 ∷ []);
  host_key_sign = λ b w. (ok (9 ∷ b), w);
  proto_marshal = λ m. ok (encode m);
  unmarshal_upload_request = λ b.
      if same_bytes b (1 ∷ [])
      then (request, none)
      else (record { message_data = none; upload_data = none }, some failed);
  unmarshal_upload_response =
      λ b. (record { message_data = none; response_data = none; content_data = none }, some failed);
  unmarshal_download_request =
      λ b. (record { message_data = none; download_data = none }, some failed);
  unmarshal_download_response = λ b. (
    record {
      message_data = none;
      response_data = none;
      content_data = none;
      content_delivery_data = none;
    },
    some failed,
  );
  unmarshal_json_request = λ b. (record { message_data = none; json_data = none }, some failed);
  unmarshal_json_response =
      λ b. (record { message_data = none; response_data = none; json_data = none }, some failed);
  Stream = Line;
  new_stream = λ peer protocol w. (ok (record { peer = peer; incoming = ok [] }), w);
  write_msg = λ s m w. (none, record w { sent = (s.peer, m) ∷ w.sent });
  full_close = λ s w. (none, w);
  read_all = λ s w. (s.incoming, w);
  reset = λ s w. w;
  close = λ s w. w;
  remote_peer = λ s. s.peer;
  ThreadId = String;
  Context = String;
  Query = String × String × String;
  thread_id_string = λ t. t;
  new_thread_id_context = λ c t. c;
  where_eq = λ f v. (f, "Eq", v);
  where_ge = λ f v. (f, "Ge", v);
  where_le = λ f v. (f, "Le", v);
  where_ne = λ f v. (f, "Ne", v);
  threads_create = λ c t n d w.
      (("record" ∷ [], none), record w { records = w.records ++ record d { id = "record" } ∷ [] });
  threads_find = λ c t n q w. ((Found.content_datas (find_in w.records q), none), w);
  buckets_init = λ c name private w. (if taken w.files name then err failed else ok name, w);
  buckets_push_path = λ c key path b w. (none, record w { files = (key, path, b) ∷ w.files });
  buckets_links_ipns = λ c key w. (ok ("ipns/" <> key), w);
  buckets_pull_path = λ c key path w. (pulled (file_at w.files key path), w);
  string_of_bytes = λ b. "json";
  json_unmarshal_query = λ s. (
    record { collection = "ContentData"; field_path = "ownerId"; operation = "Eq"; value = s },
    none,
  );
  json_unmarshal_download = λ s.
      (record { requester_id = ""; bucket_key = s; preview_url = ""; created_at = pos 0 }, none);
  json_unmarshal_upload = λ s. (
    record {
      owner_id = s;
      file_name = "";
      file_type = "";
      file_size = pos 0;
      description = "";
      file_bytes = [];
      generate_preview = false;
      preview_bytes = [];
    },
    some failed,
  );
  json_marshal_content_datas = λ ds. ok (length ds ∷ []);
  json_marshal_content_data = λ d. ok (1 ∷ []);
  json_marshal_bytes = λ b. ok b;
  mimemagic_match = λ b name. record { media = "image"; media_type = "image/png" };
  Image = Bytes;
  image_decode = λ b. ok b;
  image_resize = λ b w h. b;
  jpeg_encode = λ b. ok (8 ∷ b);
  Pipe = Unit;
  join_path = λ a b. a <> "/" <> b;
  temp_dir = λ p w. (ok "tmp", w);
  remove_all = λ p w. w;
  write_file = λ p b w. (none, w);
  transcoder_init = λ w. (none, w);
  set_input_path = λ p w. (none, w);
  create_output_pipe = λ p w. (ok tt, w);
  run_transcoder = λ w. (none, w);
  read_pipe = λ p w. ((5 ∷ [], none), w);
  reader_assigns_last = λ w. (false, w);
}

abbrev pub clients : (r : UploadRequest) → Clients (cloud r)
clients r = record { db_thread_id = "thread"; context_with_db_thread_id = "context" }

abbrev pub view : (r : UploadRequest) → View (cloud r)
view r = record { content = λ w. file_at w.files; records = λ w. w.records }

pub host_keys : (r : UploadRequest) → HostKeys (cloud r)
host_keys r = record {
  key = "key";
  key_read = λ pk h. refl;
  key_owner = refl;
  id_decoded = refl;
  signs = λ bin sig w w' h. ground (arith, same_bytes_refl bin);
}

init_lem :
    (fs : List (String × String × Bytes)) (name key path : String)
    → (if taken fs name then err failed else ok name) ≡ ok key
    → file_at fs key path ≡ none
init_lem fs name key path h = elim (Bool-cases (taken fs name)) [
  | inl used ↦ absurd (ground arith)
  | inr free ↦
      let renamed : name ≡ key = ground arith in
      subst (λ k. file_at fs k path ≡ none) renamed (file_at_free fs name path free)
]

pulled_lem : (o : Option Bytes) (b : Bytes) → pulled o ≡ (b, none) → o ≡ some b
pulled_lem none b h = absurd (ground arith)
pulled_lem (some c) b h = ground arith

unchanged :
    (r : UploadRequest) (w w' : Cloud)
    → w'.files ≡ w.files
    → w'.records ≡ w.records
    → Extends (cloud r) (view r) w w'
unchanged r w w' f g = record { keeps = λ k p b h. rw f h; same_records = g }

pub promises : (r : UploadRequest) → Promises (cloud r) (view r)
promises r = record {
  init_extends = λ c n p w. unchanged r w w refl refl;
  init_fresh = λ c n p w w' key path h. init_lem w.files n key path (λ i. (h i).0);
  push_stores = λ c key path b w w' h. ground (arith, ==_refl key, ==_refl path);
  push_keeps = λ c key path b w j q b' ne h. ground (arith, ==_iff key j);
  push_records = λ c key path b w. refl;
  links_extends = λ c key w. unchanged r w w refl refl;
  pull_extends = λ c key path w. unchanged r w w refl refl;
  pull_reads = λ c key path b w w' h. pulled_lem (file_at w.files key path) b (λ i. (h i).0);
  create_keeps = λ c t n d w key path b h. h;
  create_adds = λ c t d ids w w' h. ("record", λ i. (sym h i).1.records);
  create_refused = λ c t d ids e w w' h. absurd (ground arith);
  find_extends = λ c t n q w. unchanged r w w refl refl;
  find_reads = λ c t key f w w' h. λ i. (sym h i).0.0;
  clock_extends = λ w. unchanged r w _ refl refl;
  ulid_extends = λ t w. unchanged r w _ refl refl;
  sign_extends = λ b w. unchanged r w _ refl refl;
  new_stream_extends = λ p q w. unchanged r w _ refl refl;
  write_msg_extends = λ s m w. unchanged r w _ refl refl;
  full_close_extends = λ s w. unchanged r w _ refl refl;
  read_all_extends = λ s w. unchanged r w _ refl refl;
  reset_extends = λ s w. unchanged r w _ refl refl;
  close_extends = λ s w. unchanged r w _ refl refl;
  temp_dir_extends = λ p w. unchanged r w _ refl refl;
  remove_all_extends = λ p w. unchanged r w _ refl refl;
  write_file_extends = λ p b w. unchanged r w _ refl refl;
  transcoder_init_extends = λ w. unchanged r w _ refl refl;
  set_input_path_extends = λ p w. unchanged r w _ refl refl;
  create_output_pipe_extends = λ p w. unchanged r w _ refl refl;
  run_transcoder_extends = λ w. unchanged r w _ refl refl;
  read_pipe_extends = λ p w. unchanged r w _ refl refl;
  reader_assigns_last_extends = λ w. unchanged r w _ refl refl;
}
