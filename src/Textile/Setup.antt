-- ===== src/Textile/Setup.antt =====
-- The connection to Textile in backend/pkg/textilehelper/textilehelper.go: Setup and what it calls,
-- and the operations that only the tests use; RunHubCommand and HubWhoAmI of hubhelper.go.
pub mod Connecting
use hackfs_mdc.Base.{
  ℕ, suc, ◌+◌, ◌-◌, String, Bool, true, false, ◌||◌, Option, none, some, List, [], ◌∷◌, ltb,
  if◌then◌else◌,
}
use hackfs_mdc.Base.Int.{ℤ, pos, negsuc}
use hackfs_mdc.Go.{Result, ok, err}
use hackfs_mdc.Common.{Error, error_text, errorf, in_pkg}
use hackfs_mdc.Messages.{Bytes}
use hackfs_mdc.Services.{Services}
use hackfs_mdc.Schema.{Schema, content_data_schema}
use hackfs_mdc.Process.{Process, done, stop, ask, change, fatal, or_fatal, load_config, ◌>>=◌, ◌>>◌}
use hackfs_mdc.Textile.Hub.{Config, Hub, get_grpc_dial_options_from_target}
use hackfs_mdc.Textile.{Clients, content_data_collection_name}
use text.Mathlib.Text.{starts_with}

-- `time.Minute`, in nanoseconds
abbrev pub minute : ℕ
minute = 60000000000

-- `t.Add(d)`
abbrev add_duration : ℤ → ℕ → ℤ
add_duration (pos n) d = pos (n + d)
add_duration (negsuc n) d = if ltb n d then pos (d - suc n) else negsuc (n - d)

module _ (env : Services) (hub : Hub env) where
  open env use {World, Context, ThreadId, new_thread_id_context}
  open hub use {
    ThreadsClient, BucketsClient, Identity, process_config, new_threads_client, new_buckets_client,
    generate_ed25519_key, new_libp2p_identity, new_api_key_context, create_api_sig_context,
    get_token, new_token_context, new_thread_name_context, thread_decode, new_id_v1, new_db,
    new_collection, open_file, create_file, write_created, look_path, run_command,
  }

  -- All of `Clients`, the connections included.
  pub record Connected : Type 0 where
    pub threads : ThreadsClient
    pub buckets : BucketsClient
    pub clients : Clients env

  unfoldable pub new_clients : String → Process World (ThreadsClient × BucketsClient)
  new_clients target = do
    threads ← ask (new_threads_client target (get_grpc_dial_options_from_target target))
    elim threads [
      | err e ↦ stop (
          fatal (
            error_text
              (errorf (in_pkg "textilehelper.NewClients" 138) (some e) "tc.NewClient failed")))
      | ok t ↦ do
        buckets ← ask (new_buckets_client target (get_grpc_dial_options_from_target target))
        elim buckets [
          | err e ↦ stop (
              fatal (
                error_text
                  (errorf (in_pkg "textilehelper.NewClients" 143) (some e) "bc.NewClient failed")))
          | ok b ↦ done (t, b)
        ]
    ]

  unfoldable pub create_identity : World → Result Error Identity × World
  create_identity w = elim (generate_ed25519_key w).0 [
    | err e ↦ (err e, (generate_ed25519_key w).1)
    | ok sk ↦ (ok (new_libp2p_identity sk), (generate_ed25519_key w).1)
  ]

  -- The signature is good for a minute.
  unfoldable pub authenticate : Context → String → String → World → Result Error Context × World
  authenticate ctx user_group_key user_group_secret w =
      let (t, w') = env.unix_nano w in
      (
        create_api_sig_context (new_api_key_context ctx user_group_key) (add_duration t minute)
            user_group_secret,
        w',
      )

  unfoldable pub authorize_user :
      ThreadsClient → Context → Identity → World → Result Error Context × World
  authorize_user threads ctx user w = elim (get_token threads ctx user w).0 [
    | err e ↦ (
      err (errorf (in_pkg "textilehelper.AuthorizeUser" 170) (some e) "cli.GetToken failed"),
      (get_token threads ctx user w).1,
    )
    | ok tok ↦ (ok (new_token_context ctx tok), (get_token threads ctx user w).1)
  ]

  -- An error is expected, since the collection should already exist, and only logged.
  unfoldable pub setup_schema : Connected → Process World (Unit {0})
  setup_schema c = do
    result ← ask (
        new_collection c.threads c.clients.context_with_db_thread_id c.clients.db_thread_id
          content_data_collection_name content_data_schema)
    done tt

  -- The clients in the thread whose ID is given, in its context.
  unfoldable pub enter_thread :
      ThreadsClient → BucketsClient → Context → String → Process World Connected
  enter_thread threads buckets ctx id = do
    db_thread_id ← or_fatal "thread.Decode failed" (λ w. (thread_decode id, w))
    let c : Connected = record {
      threads = threads;
      buckets = buckets;
      clients = record {
        db_thread_id = db_thread_id;
        context_with_db_thread_id = new_thread_id_context ctx db_thread_id;
      };
    }
    setup_schema c
    done c

  -- Gives what it assigns to `config` and to `clients`.
  unfoldable pub setup : Context → Process World (Config × Connected)
  setup ctx = do
    config ← load_config process_config
    made ← new_clients config.hub_api
    random_id ← or_fatal "CreateIdentity failed" create_identity
    signed ← or_fatal "Authenticate failed" (authenticate ctx config.user_key config.user_secret)
    authorized ← or_fatal "AuthorizeUser failed" (authorize_user made.0 signed random_id)
    c ← enter_thread made.0 made.1 authorized config.db_thread_id
    done (config, c)

  -- After `setup`: the same connections in the thread of the tests.
  unfoldable pub setup_testing : Config × Connected → Process World (Config × Connected)
  setup_testing (config, c) = do
    c' ←
        enter_thread c.threads c.buckets c.clients.context_with_db_thread_id
          config.test_db_thread_id
    done (config, c')

  -- The new thread's ID, and the error.
  unfoldable pub create_thread_db : Connected → String → World → (ThreadId × Option Error) × World
  create_thread_db c name w =
      let ctx = new_thread_name_context c.clients.context_with_db_thread_id name in
      let (db_id, w1) = new_id_v1 w in
      let (e, w2) = new_db c.threads ctx db_id w1 in ((db_id, e), w2)

  unfoldable pub push_file_to_bucket :
      Context → String → String → String → World → Option Error × World
  push_file_to_bucket ctx bucket_key bucket_file_name input_file_path w =
      let (file, w1) = open_file input_file_path w in
      elim file [
        | err e ↦ (some e, w1)
        | ok bytes ↦ env.buckets_push_path ctx bucket_key bucket_file_name bytes w1
      ]

  unfoldable pub pull_file_from_bucket :
      Context → String → String → String → World → Option Error × World
  pull_file_from_bucket ctx bucket_key bucket_file_name output_file_path w =
      let (created, w1) = create_file output_file_path w in
      elim created [
        | some e ↦ (some e, w1)
        | none ↦
            let (pulled, w2) = env.buckets_pull_path ctx bucket_key bucket_file_name w1 in
            (pulled.1, write_created output_file_path pulled.0 w2)
      ]

  -- RunHubCommand: the error of the look-up is dropped.
  unfoldable pub run_hub_command : String → String → World → (Bytes × Option Error) × World
  run_hub_command parameter working_dir w =
      let (found, w1) = look_path "hub" w in
      run_command found.0 (found.0 ∷ parameter ∷ []) working_dir w1

  -- HubWhoAmI, which only logs what it gets.
  unfoldable pub hub_who_am_i : World → World
  hub_who_am_i w = (run_hub_command "whoami" "" w).1
