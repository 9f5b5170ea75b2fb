-- ===== src/Programs/ProxyClient.antt =====
-- backend/cmd/proxyclient: main of proxyclient.go and the flags of flags.go.
use hackfs_mdc.Base.{String, ◌<>◌, Option, none, some, List, [], ◌∷◌, ◌==◌, if◌then◌else◌}
use hackfs_mdc.Go.{ok, err}
use hackfs_mdc.Services.{Services}
use hackfs_mdc.Node.{get_ulid}
use hackfs_mdc.Textile.Hub.{Hub}
use hackfs_mdc.Textile.Setup.{setup}
use hackfs_mdc.Host.{Node, new_node}
use hackfs_mdc.Process.{Process, fatal, raised, done, stop, ask, within, ◌>>=◌, ◌>>◌}
use hackfs_mdc.Programs.{AddrInfo, Network, start_host}
use hackfs_mdc.Programs.Flags.{Flags, addr_list_set, or_default, set_or_exit, with_addrs}

-- The Config of the proxy client.
pub record ProxyConfig (Addr : Type 0) : Type 0 where
  pub rendezvous_string : String
  pub bootstrap_peers : List Addr
  pub listen_addresses : List Addr

module _ (env : Services) (net : Network env) where
  open env use {World}
  open net use {Addr, default_bootstrap_peers, find_peers}

  unfoldable pub set_proxy_flag : String × String → ProxyConfig Addr → Option (ProxyConfig Addr)
  set_proxy_flag (name, value) cfg =
      if name == "rend"
      then some (record cfg { rendezvous_string = value })
      else if name == "peer"
      then with_addrs env net (λ al. record cfg { bootstrap_peers = al })
          (addr_list_set env net value cfg.bootstrap_peers)
      else if name == "listen"
      then with_addrs env net (λ al. record cfg { listen_addresses = al })
          (addr_list_set env net value cfg.listen_addresses)
      else none

  unfoldable pub set_proxy_flags : Flags → ProxyConfig Addr → Process World (ProxyConfig Addr)
  set_proxy_flags [] cfg = done cfg
  set_proxy_flags (f ∷ rest) cfg = do
    cfg' ← set_or_exit (set_proxy_flag f cfg)
    set_proxy_flags rest cfg'

  unfoldable pub parse_proxy_flags : Flags → Process World (ProxyConfig Addr)
  parse_proxy_flags flags = do
    random_str ← within (get_ulid env)
    cfg ← set_proxy_flags flags (record {
      rendezvous_string = "pay3-rendezvous-" <> random_str;
      bootstrap_peers = [];
      listen_addresses = [];
    })
    done (record cfg { bootstrap_peers = or_default cfg.bootstrap_peers default_bootstrap_peers })

  -- The loop over the peers that are found: the first that is not the program's own host and has
  -- an address.
  unfoldable pub choose_server : List (AddrInfo Addr) → Option (AddrInfo Addr)
  choose_server [] = none
  choose_server (p ∷ rest) =
      let later = choose_server rest in
      if p.id == env.host_id then later else elim p.addrs [ [] ↦ later | a ∷ al ↦ some p ]

  unfoldable pub find_server : String → Process World (AddrInfo Addr)
  find_server rendezvous_string = do
    found ← ask (find_peers rendezvous_string)
    elim found [
      | err e ↦ stop (raised e)
      | ok peers ↦ elim (choose_server peers) [
        | none ↦ stop (fatal "no sever node found")
        | some server ↦ done server
      ]
    ]

  module _ (hub : Hub env) where
    -- Up to the start of the HTTP proxy: the node and the server that it is given.
    unfoldable pub proxy_main : env.Context → Flags → Process World (Node × AddrInfo Addr)
    proxy_main ctx flags = do
      connected ← setup env hub ctx
      config ← parse_proxy_flags flags
      start_host env net config.listen_addresses config.bootstrap_peers
      server ← find_server config.rendezvous_string
      done (new_node, server)
