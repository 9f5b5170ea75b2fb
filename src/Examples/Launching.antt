-- ===== src/Examples/Launching.antt =====
-- The set-up of Textile, the schema and the programs at concrete inputs.
use hackfs_mdc.Base.{
  ◌≡◌, refl, String, Bool, true, false, none, some, List, [], ◌∷◌, ◌++◌, ◌==◌, if◌then◌else◌,
}
use hackfs_mdc.Go.{ok, err}
use hackfs_mdc.Common.{Error}
use hackfs_mdc.Process.Ending.{Gives}
use hackfs_mdc.Textile.Hub.{Hub, Config}
use hackfs_mdc.Programs.{AddrInfo, Network, connect_all}
use hackfs_mdc.Programs.Flags.{Flags, addr_strings, strings_to_addrs, parse_flags}
use hackfs_mdc.Programs.Addresses.{strings_to_addrs-strings}
use hackfs_mdc.Programs.Parsing.{IsUsage, IsParsed, parse_flags-IsParsed}
use hackfs_mdc.Programs.ProxyClient.{find_server}
use hackfs_mdc.Programs.Serving.{
  Connects, Unserved, FoundServer, connect_all-Connects, find_server-FoundServer,
}
use hackfs_mdc.Frontend.{Ipfs, Request}
use hackfs_mdc.Examples.Cloud.{Cloud, cloud}
use hackfs_mdc.Examples.Runs.{request, start}

abbrev failed : Error
failed = Error.foreign "failed"

abbrev config : Config
config = record {
  user_key = "key";
  user_secret = "secret";
  db_thread_id = "thread";
  test_db_thread_id = "test";
  hub_api = "api.textile.io:443";
}

abbrev hub : Hub (cloud request)
hub = record {
  ThreadsClient = String;
  BucketsClient = String;
  PrivateKey = String;
  Identity = String;
  Token = String;
  process_config = λ w. (ok config, w);
  new_threads_client = λ target opts w. (ok target, w);
  new_buckets_client = λ target opts w. (ok target, w);
  generate_ed25519_key = λ w. (ok "sk", w);
  new_libp2p_identity = λ sk. sk;
  new_api_key_context = λ c key. key;
  create_api_sig_context = λ c t secret. ok c;
  get_token = λ t c user w. (ok user, w);
  new_token_context = λ c tok. tok;
  new_thread_name_context = λ c name. name;
  thread_decode = λ s. ok s;
  new_id_v1 = λ w. ("new", w);
  new_db = λ t c id w. (none, w);
  new_collection = λ t c id name schema w. (some failed, w);
  open_file = λ path w. (err failed, w);
  create_file = λ path w. (none, w);
  write_created = λ path b w. w;
  look_path = λ name w. (("", some failed), w);
  run_command = λ path args dir w. (([], some failed), w);
}

abbrev address_text : Bool → String
address_text true = "/ip4/10.0.0.1/tcp/4001/p2p/server"
address_text false = "/ip4/10.0.0.2/tcp/4001"

abbrev server : AddrInfo Bool
server = record { id = "server"; addrs = true ∷ [] }

-- Two addresses, of which the second names no peer.
abbrev net : Network (cloud request)
net = record {
  Addr = Bool;
  new_multiaddr = λ s.
      if s == "/ip4/10.0.0.1/tcp/4001/p2p/server"
      then ok true
      else if s == "/ip4/10.0.0.2/tcp/4001"
      then ok false
      else err failed;
  addr_string = address_text;
  default_bootstrap_peers = true ∷ [];
  addr_info_from_p2p_addr = λ a. if a then some server else none;
  new_host = λ al w. (none, w);
  new_dht = λ w. (none, w);
  bootstrap = λ w. (none, w);
  connect = λ i w. (none, w);
  find_peers = λ r w. (
    ok (
        record { id = "host"; addrs = true ∷ [] }
        ∷ record { id = "bare"; addrs = [] }
        ∷ server
        ∷ []),
    w,
  );
  advertise = λ r w. w;
  read_file = λ path w. (ok (1 ∷ []), w);
  base = λ path. path;
}

address_read : (a : Bool) → net.new_multiaddr (address_text a) ≡ ok a
address_read true = refl
address_read false = refl

strings_to_addrs-strings_example :
    (strings_to_addrs
        (cloud request)
        net
        []
        (addr_strings (cloud request) net (false ∷ true ∷ []) ++ [])
      ≡ (false ∷ true ∷ [], none))
    × (strings_to_addrs
          (cloud request)
          net
          []
          (addr_strings (cloud request) net (false ∷ true ∷ []) ++ "nowhere" ∷ "" ∷ [])
        ≡ (false ∷ true ∷ [], some failed))
strings_to_addrs-strings_example =
    strings_to_addrs-strings (cloud request) net address_read (false ∷ true ∷ []) "nowhere" failed
      ("" ∷ []) refl

abbrev flags : Flags
flags = ("client", "true") ∷ ("listen", "/ip4/10.0.0.2/tcp/4001") ∷ ("testfile", "cat.png") ∷ []

parse_flags-IsParsed_example :
    let r = parse_flags (cloud request) net flags start in
    Gives IsUsage (λ c w. IsParsed (cloud request) net flags c) r.0 r.1
parse_flags-IsParsed_example = parse_flags-IsParsed (cloud request) net flags start

connect_all-Connects_example :
    Connects
      (cloud request)
      net
      (true ∷ false ∷ [])
      (connect_all (cloud request) net (true ∷ false ∷ []) start).0
connect_all-Connects_example = connect_all-Connects (cloud request) net (true ∷ false ∷ []) start

find_server-FoundServer_example :
    let r = find_server (cloud request) net "rendezvous" start in
    Gives
      (Unserved (cloud request) net "rendezvous" start)
      (λ s w. FoundServer (cloud request) net "rendezvous" start s)
      r.0
      r.1
find_server-FoundServer_example = find_server-FoundServer (cloud request) net "rendezvous" start

-- A shell that can add a file, and nothing without one.
abbrev shell : Ipfs
shell = record {
  World = Cloud;
  add = λ file w. elim file [ none ↦ (err failed, w) | some b ↦ (ok "cid", w) ];
  bytes_of_string = λ s. [];
  sha256 = λ b. b;
  encode_to_string = λ b. "";
}

abbrev asked : List Request
asked = Request.ping ∷ Request.ipfs (some (1 ∷ [])) ∷ Request.ipfs none ∷ Request.ping ∷ []
