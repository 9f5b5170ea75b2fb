-- ===== src/Programs/Flags.antt =====
-- The flags of the programs: backend/cmd/server/flags.go and backend/cmd/proxyclient/flags.go.
use hackfs_mdc.Base.{
  String, ◌<>◌, Bool, true, false, ◌&&◌, ◌||◌, Option, none, some, List, [], ◌∷◌, ◌++◌, ◌==◌,
  is_empty, if◌then◌else◌,
}
use hackfs_mdc.Go.{Result, ok, err}
use hackfs_mdc.Common.{Error}
use hackfs_mdc.Services.{Services}
use hackfs_mdc.Node.{get_ulid}
use hackfs_mdc.Process.{Process, fatal, exited, done, stop, within, ◌>>=◌}
use hackfs_mdc.Programs.{Network}

-- The flags of a command line, as names and values. A Boolean flag without a value has "true".
abbrev pub Flags : Type 0
Flags = List (String × String)

-- `strings.Join(strs, ",")`
abbrev pub join : List String → String
join [] = ""
join (s ∷ []) = s
join (s ∷ t ∷ rest) = s <> "," <> join (t ∷ rest)

-- What `strconv.ParseBool` accepts.
abbrev pub parse_bool : String → Option Bool
parse_bool s =
    if s == "1" || s == "t" || s == "T" || s == "true" || s == "TRUE" || s == "True"
    then some true
    else if s == "0" || s == "f" || s == "F" || s == "false" || s == "FALSE" || s == "False"
    then some false
    else none

-- The Config of the server.
pub record ServerConfig (Addr : Type 0) : Type 0 where
  pub rendezvous_string : String
  pub bootstrap_peers : List Addr
  pub listen_addresses : List Addr
  pub test_file_path : String
  pub is_client_mode : Bool

-- `if len(x) == 0 { x = fallback }`
abbrev pub or_default : {A : Type 0} → List A → List A → List A
or_default [] fallback = fallback
or_default (a ∷ al) fallback = a ∷ al

-- The result of the flag package's handling of one flag; where there is none it exits with 2.
abbrev pub set_or_exit : {A W : Type 0} → Option A → Process W A
set_or_exit none = stop (exited 2)
set_or_exit (some a) = done a

module _ (env : Services) (net : Network env) where
  open env use {World}
  open net use {Addr, new_multiaddr, addr_string, default_bootstrap_peers}

  unfoldable pub addr_strings : List Addr → List String
  addr_strings [] = []
  addr_strings (a ∷ al) = addr_string a ∷ addr_strings al

  -- addrList.String
  unfoldable pub addr_list_string : List Addr → String
  addr_list_string al = join (addr_strings al)

  -- addrList.Set, which appends.
  unfoldable pub addr_list_set : String → List Addr → Result Error (List Addr)
  addr_list_set value al = elim (new_multiaddr value) [
    | err e ↦ err e
    | ok addr ↦ ok (al ++ addr ∷ [])
  ]

  -- The addresses up to the first that cannot be read, and the error; `maddrs` are those before.
  unfoldable pub strings_to_addrs : List Addr → List String → List Addr × Option Error
  strings_to_addrs maddrs [] = (maddrs, none)
  strings_to_addrs maddrs (s ∷ rest) = elim (new_multiaddr s) [
    | err e ↦ (maddrs, some e)
    | ok addr ↦ strings_to_addrs (maddrs ++ addr ∷ []) rest
  ]

  -- A value that is set by `addrList.Set`, with the rest of the configuration.
  abbrev pub with_addrs : {C : Type 0} → (List Addr → C) → Result Error (List Addr) → Option C
  with_addrs f (err e) = none
  with_addrs f (ok al) = some (f al)

  abbrev pub with_mode : ServerConfig Addr → Option Bool → Option (ServerConfig Addr)
  with_mode cfg none = none
  with_mode cfg (some b) = some (record cfg { is_client_mode = b })

  unfoldable pub set_flag : String × String → ServerConfig Addr → Option (ServerConfig Addr)
  set_flag (name, value) cfg =
      if name == "rend"
      then some (record cfg { rendezvous_string = value })
      else if name == "peer"
      then with_addrs (λ al. record cfg { bootstrap_peers = al })
          (addr_list_set value cfg.bootstrap_peers)
      else if name == "listen"
      then with_addrs (λ al. record cfg { listen_addresses = al })
          (addr_list_set value cfg.listen_addresses)
      else if name == "testfile"
      then some (record cfg { test_file_path = value })
      else if name == "client"
      then with_mode cfg (parse_bool value)
      else none

  -- `flag.Parse()`
  unfoldable pub set_flags : Flags → ServerConfig Addr → Process World (ServerConfig Addr)
  set_flags [] cfg = done cfg
  set_flags (f ∷ rest) cfg = do cfg' ← set_or_exit (set_flag f cfg); set_flags rest cfg'

  unfoldable pub check_config : ServerConfig Addr → Process World (ServerConfig Addr)
  check_config cfg =
      if cfg.is_client_mode && is_empty cfg.test_file_path
      then stop (fatal "Please specify a test file with -testfile with client mode")
      else done cfg

  unfoldable pub parse_flags : Flags → Process World (ServerConfig Addr)
  parse_flags flags = do
    random_str ← within (get_ulid env)
    cfg ← set_flags flags (record {
      rendezvous_string = "pay3-rendezvous-" <> random_str;
      bootstrap_peers = [];
      listen_addresses = [];
      test_file_path = "";
      is_client_mode = false;
    })
    check_config
        (record cfg { bootstrap_peers = or_default cfg.bootstrap_peers default_bootstrap_peers })
