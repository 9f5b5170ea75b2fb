-- ===== src/Textile/Setup/Connecting.antt =====
-- What the set-up of the connection to Textile gives, and how it fails.
use hackfs_mdc.Base.{◌≡◌, String}
use hackfs_mdc.Base.Int.{ℤ}
use hackfs_mdc.Go.{ok}
use hackfs_mdc.Services.{Services}
use hackfs_mdc.Schema.{content_data_schema}
use hackfs_mdc.Process.{Process, done, ◌>>=◌}
use hackfs_mdc.Textile.{content_data_collection_name}
use hackfs_mdc.Textile.Hub.{Config, Hub}
use hackfs_mdc.Textile.Setup.{Connected, enter_thread}

module _ (env : Services) (hub : Hub env) where
  open env use {World, Context, new_thread_id_context}
  open hub use {ThreadsClient, BucketsClient}

  -- The clients are in the thread of this ID, on top of this context, and the last call asked for
  -- the collection of content records, under its schema, in that thread.
  pub record InThread (ctx : Context) (id : String) (c : Connected env hub) (w : World)
      : Type 0 where
    pub decoded : hub.thread_decode id ≡ ok c.clients.db_thread_id
    pub entered :
        c.clients.context_with_db_thread_id ≡ new_thread_id_context ctx c.clients.db_thread_id
    pub asked :
        (w' : World) × (w
          ≡ (hub.new_collection c.threads c.clients.context_with_db_thread_id c.clients.db_thread_id
              content_data_collection_name content_data_schema w').1)

  -- The token under which the clients work was given to a new identity, in a context that the
  -- user's key and secret sign.
  pub record SetUp (ctx : Context) (made : Config × Connected env hub) (w : World) : Type 0 where
    pub time : ℤ
    pub signed : Context
    pub token : hub.Token
    pub signs :
        hub.create_api_sig_context
          (hub.new_api_key_context ctx made.0.user_key)
          time
          made.0.user_secret
        ≡ ok signed
    pub in_thread : InThread (hub.new_token_context signed token) made.0.db_thread_id made.1 w

  module _ (ctx : Context) (config : Config) (t : ThreadsClient) (b : BucketsClient) where
    abbrev IsSetUp : Config × Connected env hub → World → Type 0
    IsSetUp = SetUp ctx

    abbrev entering : Context → Process World (Config × Connected env hub)
    entering authorized = do
      c ← enter_thread env hub t b authorized config.db_thread_id
      done (config, c)
