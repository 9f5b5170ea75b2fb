-- ===== src/Textile/Hub.antt =====
-- What the set-up of Textile in backend/pkg/textilehelper/textilehelper.go is given: its configuration,
-- the options of its connections, and the libraries that it calls.
use hackfs_mdc.Base.{String, Bool, true, false, ◌||◌, Option, List, [], ◌∷◌, if◌then◌else◌}
use hackfs_mdc.Base.Int.{ℤ}
use hackfs_mdc.Go.{Result}
use hackfs_mdc.Common.{Error}
use hackfs_mdc.Messages.{Bytes}
use hackfs_mdc.Services.{Services}
use hackfs_mdc.Schema.{Schema}
use text.Mathlib.Text.{starts_with}

pub record Config : Type 0 where
  pub user_key : String
  pub user_secret : String
  pub db_thread_id : String
  pub test_db_thread_id : String
  pub hub_api : String

-- grpc.DialOption, for the options that are used. Per-call credentials are secure, or not.
pub data DialOption : Type 0 where
  with_transport_credentials : DialOption
  with_insecure : DialOption
  with_per_rpc_credentials : Bool → DialOption

-- `strings.Contains`
unfoldable pub contains : String → String → Bool
contains String.[] part = starts_with String.[] part
contains (String.◌∷◌ c s) part = starts_with (String.◌∷◌ c s) part || contains s part

unfoldable pub get_grpc_dial_options_from_target : String → List DialOption
get_grpc_dial_options_from_target target =
    if contains target "443"
    then DialOption.with_transport_credentials ∷ DialOption.with_per_rpc_credentials true ∷ []
    else DialOption.with_insecure ∷ DialOption.with_per_rpc_credentials false ∷ []

-- The libraries that the set-up calls: go-threads, the Textile API, envconfig, and the time of the
-- shell's commands and files.
pub record Hub (env : Services) : Type 1 where
  pub ThreadsClient : Type 0
  pub BucketsClient : Type 0
  pub PrivateKey : Type 0
  pub Identity : Type 0
  pub Token : Type 0
  pub process_config : env.World → Result Error Config × env.World
  pub new_threads_client :
      String → List DialOption → env.World → Result Error ThreadsClient × env.World
  pub new_buckets_client :
      String → List DialOption → env.World → Result Error BucketsClient × env.World
  pub generate_ed25519_key : env.World → Result Error PrivateKey × env.World
  pub new_libp2p_identity : PrivateKey → Identity
  pub new_api_key_context : env.Context → String → env.Context
  pub create_api_sig_context : env.Context → ℤ → String → Result Error env.Context
  pub get_token :
      ThreadsClient → env.Context → Identity → env.World → Result Error Token × env.World
  pub new_token_context : env.Context → Token → env.Context
  pub new_thread_name_context : env.Context → String → env.Context
  pub thread_decode : String → Result Error env.ThreadId
  pub new_id_v1 : env.World → env.ThreadId × env.World
  pub new_db : ThreadsClient → env.Context → env.ThreadId → env.World → Option Error × env.World
  pub new_collection :
      ThreadsClient
      → env.Context
      → env.ThreadId
      → String
      → Schema
      → env.World
      → Option Error × env.World
  -- the bytes of a file that is opened, and the writing of one that is created
  pub open_file : String → env.World → Result Error Bytes × env.World
  pub create_file : String → env.World → Option Error × env.World
  pub write_created : String → Bytes → env.World → env.World
  -- `exec.LookPath`, which gives an empty path beside an error, and the output of a command with
  -- these arguments in this directory
  pub look_path : String → env.World → (String × Option Error) × env.World
  pub run_command : String → List String → String → env.World → (Bytes × Option Error) × env.World
