-- ===== src/Programs/Server.antt =====
-- backend/cmd/server: main of server.go and the client mode of clientmode.go.
use hackfs_mdc.Base.{String, true, some, List, [], ◌∷◌, ◌==◌, is_empty, length, if◌then◌else◌}
use hackfs_mdc.Base.Int.{pos}
use hackfs_mdc.Go.{ok, err}
use hackfs_mdc.Messages.{Bytes, UploadData, UploadRequest, UploadResponse}
use hackfs_mdc.Services.{Services}
use hackfs_mdc.Textile.Hub.{Hub}
use hackfs_mdc.Textile.Setup.{Connected, setup}
use hackfs_mdc.Client.{Exchange, new_exchange, upload_to}
use hackfs_mdc.Process.{Process, raised, done, stop, ask, within, change, ◌>>=◌, ◌>>◌}
use hackfs_mdc.Programs.{AddrInfo, Network, start_host}
use hackfs_mdc.Programs.Flags.{Flags, ServerConfig, parse_flags}

module _ (env : Services) (net : Network env) where
  open env use {World}
  open net use {Addr, find_peers, advertise, read_file, base}

  abbrev pub Uploads : Type 0
  Uploads = Exchange UploadRequest UploadResponse

  -- The upload data of the test file.
  abbrev pub test_upload_data : String → Bytes → UploadData
  test_upload_data test_file_path file_bytes = record {
    owner_id = "testowner01";
    file_name = base test_file_path;
    file_type = "image";
    file_size = pos (length file_bytes);
    description = "test01";
    file_bytes = file_bytes;
    generate_preview = true;
    preview_bytes = [];
  }

  -- The upload of the test file to a peer. An error is logged.
  unfoldable pub test_upload : String → String → Uploads → Process World Uploads
  test_upload test_file_path peer_id ex = do
    file_bytes ← ask (read_file test_file_path)
    elim file_bytes [
      | err e ↦ done ex
      | ok bytes ↦ do
        sent ← within (upload_to env peer_id (some (test_upload_data test_file_path bytes)) ex)
        done sent.1
    ]

  -- The loop over the peers that are found, which passes over the program's own host.
  unfoldable pub upload_to_peers : String → List (AddrInfo Addr) → Uploads → Process World Uploads
  upload_to_peers test_file_path [] ex = done ex
  upload_to_peers test_file_path (p ∷ rest) ex =
      let others = upload_to_peers test_file_path rest in
      if p.id == env.host_id
      then others ex
      else if is_empty test_file_path
      then others ex
      else (do ex' ← test_upload test_file_path p.id ex; others ex')

  unfoldable pub run_client_mode_with : ServerConfig Addr → Uploads → Process World Uploads
  run_client_mode_with config ex = do
    found ← ask (find_peers config.rendezvous_string)
    elim found [
      | err e ↦ stop (raised e)
      | ok peers ↦ upload_to_peers config.test_file_path peers ex
    ]

  module _ (hub : Hub env) where
    -- Up to `select {}`, with the client mode run to its end. Gives the configuration, the clients
    -- and the requests that wait.
    unfoldable pub server_main :
        env.Context → Flags → Process World (ServerConfig Addr × Connected env hub × Uploads)
    server_main ctx flags = do
      connected ← setup env hub ctx
      config ← parse_flags env net flags
      start_host env net config.listen_addresses config.bootstrap_peers
      if config.is_client_mode
          then (do ex ← run_client_mode_with config new_exchange; done (config, connected.1, ex))
          else (do
            change (advertise config.rendezvous_string)
            done (config, connected.1, new_exchange))
