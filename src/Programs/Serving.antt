-- ===== src/Programs/Serving.antt =====
-- Which server the proxy client uses, and what ends the programs before they serve.
use hackfs_mdc.Base.{
  ◌≡◌, ◌≢◌, refl, ap, subst, ◌⊎◌, inl, inr, String, Option, none, some, List, [], ◌∷◌, ◌++◌, ◌==◌,
  ==_iff, Bool-cases, Option-cases, arith,
}
use hackfs_mdc.Go.{Result, ok, err}
use hackfs_mdc.Go.Laws.{Result-cases}
use hackfs_mdc.Common.{Error}
use hackfs_mdc.Services.{Services}
use hackfs_mdc.Process.{Ended, fatal, raised, run_time_panic}
use hackfs_mdc.Process.Ending.{Gives}
use hackfs_mdc.Programs.{AddrInfo, Network, connect_peer, connect_all}
use hackfs_mdc.Programs.ProxyClient.{choose_server, find_server}

module _ (env : Services) (net : Network env) where
  open env use {World}
  open net use {Addr, addr_info_from_p2p_addr}

  -- Each address names a peer.
  abbrev pub AllPeers : List Addr → Type 0
  AllPeers [] = Unit
  AllPeers (a ∷ al) = ((i : AddrInfo Addr) × (addr_info_from_p2p_addr a ≡ some i)) × AllPeers al

  -- The program goes on, and then every address names a peer; or it panics, and then one does not.
  abbrev pub Connects : List Addr → Result Ended (Unit {0}) → Type 0
  Connects al (ok u) = AllPeers al
  Connects al (err e) = (e ≡ run_time_panic) × (¬ AllPeers al)

  Connects-next :
      (a : Addr) (al : List Addr) (i : AddrInfo Addr) (r : Result Ended (Unit {0}))
      → addr_info_from_p2p_addr a ≡ some i
      → Connects al r
      → Connects (a ∷ al) r
  Connects-next a al i (ok u) h c = ((i, h), c)
  Connects-next a al i (err e) h (p, n) = (p, λ all. n all.1)

  -- The connections to the bootstrap peers let the program go on exactly if each of their
  -- addresses names a peer; otherwise it panics, whether or not the peers can be reached.
  pub connect_all-Connects : (al : List Addr) (w : World) → Connects al (connect_all env net al w).0
  unfolding connect_all connect_peer
  connect_all-Connects [] w = tt
  connect_all-Connects (a ∷ al) w = elim (Option-cases (addr_info_from_p2p_addr a)) [
    | inl e ↦ rw (e, connect_all) (refl, λ all. ground (arith, e, all.0.1))
    | inr (i, e) ↦
        let w1 = (net.connect i w).1 in
        rw (e, connect_all)
          (Connects-next a al i (connect_all env net al w1).0 e (connect_all-Connects al w1))
  ]

  -- A peer that the proxy client passes over: its own host, or one without an address.
  abbrev pub Unsuitable : List (AddrInfo Addr) → Type 0
  Unsuitable [] = Unit
  Unsuitable (p ∷ ps) = ((p.id ≡ env.host_id) ⊎ (p.addrs ≡ [])) × Unsuitable ps

  -- The first suitable peer, or none because none is suitable.
  pub data Chooses (peers : List (AddrInfo Addr)) : Option (AddrInfo Addr) → Type 0 where
    first :
        (skipped rest : List (AddrInfo Addr)) (p : AddrInfo Addr)
        → peers ≡ skipped ++ p ∷ rest
        → Unsuitable skipped
        → p.id ≢ env.host_id
        → p.addrs ≢ []
        → Chooses peers (some p)
    nobody : Unsuitable peers → Chooses peers none

  Chooses-next :
      (p : AddrInfo Addr) (ps : List (AddrInfo Addr)) (o : Option (AddrInfo Addr))
      → (p.id ≡ env.host_id) ⊎ (p.addrs ≡ [])
      → Chooses ps o
      → Chooses (p ∷ ps) o
  Chooses-next p ps _ u (first skipped rest q h hs other reached) =
      first (p ∷ skipped) rest q (ap (λ l. p ∷ l) h) (u, hs) other reached
  Chooses-next p ps _ u (nobody hs) = nobody (u, hs)

  choose_next :
      (id : String) (al : List Addr) (ps : List (AddrInfo Addr))
      → Chooses ps (choose_server env net ps)
      → let p : AddrInfo Addr = record { id = id; addrs = al } in
        Chooses (p ∷ ps) (choose_server env net (p ∷ ps))
  unfolding choose_server
  choose_next id [] ps h = elim (Bool-cases (id == env.host_id)) [
    | inl own ↦ rw (own, choose_server) (Chooses-next _ ps _ (inr refl) h)
    | inr other ↦ rw (other, choose_server) (Chooses-next _ ps _ (inr refl) h)
  ]
  choose_next id (a ∷ al) ps h = elim (Bool-cases (id == env.host_id)) [
    | inl own ↦
        rw (own, choose_server)
          (Chooses-next _ ps _ (inl (ground (arith, ==_iff id env.host_id))) h)
    | inr other ↦
        rw (other, choose_server)
          (first [] ps _ refl tt (λ e. ground (arith, ==_iff id env.host_id)) (λ e. ground arith))
  ]

  choose_server-Chooses :
      (peers : List (AddrInfo Addr)) → Chooses peers (choose_server env net peers)
  unfolding choose_server
  choose_server-Chooses [] = nobody tt
  choose_server-Chooses (p ∷ ps) = choose_next p.id p.addrs ps (choose_server-Chooses ps)

  -- What the search for a server gives: of the peers that are found, the first suitable one.
  pub record FoundServer (rendezvous : String) (w : World) (server : AddrInfo Addr) : Type 0 where
    pub peers : List (AddrInfo Addr)
    pub announced : (net.find_peers rendezvous w).0 ≡ ok peers
    pub chosen : Chooses peers (some server)

  -- The search for peers fails, or gives no suitable one.
  pub data Unserved (rendezvous : String) (w : World) : Ended → Type 0 where
    no_search :
        (e : Error) → (net.find_peers rendezvous w).0 ≡ err e → Unserved rendezvous w (raised e)
    no_server :
        (peers : List (AddrInfo Addr))
        → (net.find_peers rendezvous w).0 ≡ ok peers
        → Unsuitable peers
        → Unserved rendezvous w (fatal "no sever node found")

  nobody_lem : (peers : List (AddrInfo Addr)) → Chooses peers none → Unsuitable peers
  nobody_lem peers (nobody h) = h

  -- The server that the proxy client uses is the first of the peers found that is not the program
  -- itself and has an address; if there is no such peer, or the search fails, the program ends.
  pub find_server-FoundServer :
      (rendezvous : String) (w : World)
      → let r = find_server env net rendezvous w in
        Gives (Unserved rendezvous w) (λ server _. FoundServer rendezvous w server) r.0 r.1
  unfolding find_server
  find_server-FoundServer rendezvous w = elim (Result-cases (net.find_peers rendezvous w).0) [
    | inl (x, e) ↦ rw (e, find_server) (no_search x e)
    | inr (peers, e) ↦ elim (Option-cases (choose_server env net peers)) [
      | inl n ↦
          rw (e, find_server)
            (rw (n, find_server)
              (no_server peers e
                (nobody_lem peers (subst (Chooses peers) n (choose_server-Chooses peers)))))
      | inr (server, s) ↦
          rw (e, find_server)
            (rw (s, find_server)
              (record {
                peers = peers;
                announced = e;
                chosen = subst (Chooses peers) s (choose_server-Chooses peers);
              }))
    ]
  ]
