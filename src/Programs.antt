-- ===== src/Programs.antt =====
-- The programs of backend/cmd: the libraries that they call, and what server.go and proxyclient.go
-- of backend/cmd both spell out.
pub mod Flags
pub mod Addresses
pub mod Parsing
pub mod Server
pub mod ProxyClient
pub mod Serving
use hackfs_mdc.Base.{String, Option, none, some, List, [], ◌∷◌}
use hackfs_mdc.Go.{Result}
use hackfs_mdc.Common.{Error}
use hackfs_mdc.Messages.{Bytes}
use hackfs_mdc.Services.{Services}
use hackfs_mdc.Process.{Process, run_time_panic, raised, done, stop, ask, ◌>>=◌, ◌>>◌}

-- `peer.AddrInfo`
pub record AddrInfo (Addr : Type 0) : Type 0 where
  pub id : String
  pub addrs : List Addr

-- Multiaddresses, the host, the DHT, the discovery of peers, and files. A channel of peers is the
-- list of the peers that it gives.
pub record Network (env : Services) : Type 1 where
  pub Addr : Type 0
  pub new_multiaddr : String → Result Error Addr
  pub addr_string : Addr → String
  pub default_bootstrap_peers : List Addr
  -- nil beside an error
  pub addr_info_from_p2p_addr : Addr → Option (AddrInfo Addr)
  pub new_host : List Addr → env.World → Option Error × env.World
  pub new_dht : env.World → Option Error × env.World
  pub bootstrap : env.World → Option Error × env.World
  pub connect : AddrInfo Addr → env.World → Option Error × env.World
  pub find_peers : String → env.World → Result Error (List (AddrInfo Addr)) × env.World
  pub advertise : String → env.World → env.World
  pub read_file : String → env.World → Result Error Bytes × env.World
  -- `filepath.Base`
  pub base : String → String

module _ {W : Type 0} where
  -- `if err != nil { panic(err) }`
  unfoldable pub panic_on_error : Option Error → Process W (Unit {0})
  panic_on_error none = done tt
  panic_on_error (some e) = stop (raised e)

module _ (env : Services) (net : Network env) where
  open env use {World}
  open net use {Addr, addr_info_from_p2p_addr, new_host, new_dht, bootstrap, connect}

  -- The goroutine of a bootstrap peer: a nil pointer to its information is read.
  unfoldable pub connect_peer : Option (AddrInfo Addr) → Process World (Unit {0})
  connect_peer none = stop run_time_panic
  connect_peer (some info) = do result ← ask (connect info); done tt

  -- The goroutines of all bootstrap peers, in one of their orders, up to the wait for them.
  unfoldable pub connect_all : List Addr → Process World (Unit {0})
  connect_all [] = done tt
  connect_all (peer_addr ∷ rest) = do
    connect_peer (addr_info_from_p2p_addr peer_addr)
    connect_all rest

  -- From the making of the host to the connections to the bootstrap peers.
  unfoldable pub start_host : List Addr → List Addr → Process World (Unit {0})
  start_host listen_addresses bootstrap_peers = do
    made ← ask (new_host listen_addresses)
    panic_on_error made
    dht ← ask new_dht
    panic_on_error dht
    ready ← ask bootstrap
    panic_on_error ready
    connect_all bootstrap_peers
