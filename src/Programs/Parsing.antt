-- ===== src/Programs/Parsing.antt =====
-- What the flags give: the addresses that their values are, in their order.
use hackfs_mdc.Base.{
  ◌≡◌, refl, sym, ap, subst, ◌∙◌, ◌⊎◌, inl, inr, String, ◌<>◌, true, false, ◌&&◌, Option, none,
  some, List, [], ◌∷◌, ◌==◌, ==_iff, is_empty, Bool-cases, Option-cases, arith, if◌then◌else◌,
}
use hackfs_mdc.Go.{Result, ok, err}
use hackfs_mdc.Go.Laws.{Result-cases, Outcome-cases}
use hackfs_mdc.Common.{Error}
use hackfs_mdc.Services.{Services}
use hackfs_mdc.Node.{get_ulid}
use hackfs_mdc.Process.{Ended, exited, run_time_panic}
use hackfs_mdc.Process.Ending.{Gives, IsFatal, bind-Gives}
use hackfs_mdc.Programs.{Network}
use hackfs_mdc.Programs.Flags.{
  Flags, ServerConfig, or_default, parse_bool, addr_list_set, strings_to_addrs, set_flag, set_flags,
  check_config, parse_flags,
}

-- The values of the flags of a name.
abbrev pub values : String → Flags → List String
values name [] = []
values name ((n, v) ∷ rest) = if n == name then v ∷ values name rest else values name rest

-- The command line is wrong, or no ULID could be made.
abbrev pub IsUsage : Ended → Type 0
IsUsage e = IsFatal e ⊎ ((e ≡ exited 2) ⊎ (e ≡ run_time_panic))

module _ (env : Services) (net : Network env) where
  open env use {World}
  open net use {Addr, new_multiaddr, addr_string, default_bootstrap_peers}

  abbrev read_onto : List Addr → String → Flags → List Addr × Option Error
  read_onto al name flags = strings_to_addrs env net al (values name flags)

  -- One flag reads one address onto its list, or leaves both lists as they are.
  abbrev Steps : String → String → ServerConfig Addr → ServerConfig Addr → Flags → Type 0
  Steps name value cfg cfg' rest =
      (read_onto cfg.listen_addresses "listen" ((name, value) ∷ rest)
        ≡ read_onto cfg'.listen_addresses "listen" rest)
      × (read_onto cfg.bootstrap_peers "peer" ((name, value) ∷ rest)
          ≡ read_onto cfg'.bootstrap_peers "peer" rest)

  unlike : (name s t : String) → (name == s) ≡ true → (s == t) ≡ false → (name == t) ≡ false
  unlike name s t h k = ground (arith, ==_iff name s, ==_iff name t, ==_iff s t)

  -- A flag that takes no address leaves both lists as they are.
  abbrev SameLists : ServerConfig Addr → Option (ServerConfig Addr) → Type 0
  SameLists cfg none = Unit
  SameLists cfg (some c) =
      (c.listen_addresses ≡ cfg.listen_addresses) × (c.bootstrap_peers ≡ cfg.bootstrap_peers)

  set_flag-SameLists :
      (name value : String) (cfg : ServerConfig Addr)
      → (name == "peer") ≡ false
      → (name == "listen") ≡ false
      → SameLists cfg (set_flag env net (name, value) cfg)
  unfolding set_flag
  set_flag-SameLists name value cfg p l = elim (Bool-cases (name == "rend")) [
    | inl a ↦ rw (a, set_flag) (refl, refl)
    | inr a ↦ elim (Bool-cases (name == "testfile")) [
      | inl b ↦ rw (a, p, l, b, set_flag) (refl, refl)
      | inr b ↦ elim (Bool-cases (name == "client")) [
        | inr c ↦ rw (a, p, l, b, c, set_flag) tt
        | inl c ↦ elim (Option-cases (parse_bool value)) [
          | inl d ↦ rw (a, p, l, b, c, set_flag) (rw d tt)
          | inr (m, d) ↦ rw (a, p, l, b, c, set_flag) (rw d (refl, refl))
        ]
      ]
    ]
  ]

  abbrev StepsTo : String → String → ServerConfig Addr → Flags → Option (ServerConfig Addr) → Type 0
  StepsTo name value cfg rest none = Unit
  StepsTo name value cfg rest (some c) = Steps name value cfg c rest

  SameLists-StepsTo :
      (name value : String) (cfg : ServerConfig Addr) (rest : Flags)
      → (name == "peer") ≡ false
      → (name == "listen") ≡ false
      → (r : Option (ServerConfig Addr)) → SameLists cfg r
      → StepsTo name value cfg rest r
  SameLists-StepsTo name value cfg rest p l none h = tt
  SameLists-StepsTo name value cfg rest p l (some c) (listen, peer) = (
    rw l (ap (λ al. read_onto al "listen" rest) (sym listen)),
    rw p (ap (λ al. read_onto al "peer" rest) (sym peer)),
  )

  set_flag-StepsTo :
      (name value : String) (cfg : ServerConfig Addr) (rest : Flags)
      → StepsTo name value cfg rest (set_flag env net (name, value) cfg)
  unfolding set_flag addr_list_set strings_to_addrs
  set_flag-StepsTo name value cfg rest = elim (Bool-cases (name == "rend")) [
    | inl a ↦
        SameLists-StepsTo name value cfg rest (unlike name "rend" "peer" a refl)
          (unlike name "rend" "listen" a refl) (set_flag env net (name, value) cfg)
          (set_flag-SameLists name value cfg (unlike name "rend" "peer" a refl)
            (unlike name "rend" "listen" a refl))
    | inr a ↦ elim (Bool-cases (name == "peer")) [
      | inl b ↦
          let l = unlike name "peer" "listen" b refl in
          elim (Result-cases (new_multiaddr value)) [
            | inl (e, r) ↦ rw (a, b, set_flag) (rw (r, addr_list_set) tt)
            | inr (addr, r) ↦
                rw (a, b, set_flag)
                  (rw (r, addr_list_set) (rw l refl, rw b (rw (r, strings_to_addrs) refl)))
          ]
      | inr b ↦ elim (Bool-cases (name == "listen")) [
        | inl c ↦ elim (Result-cases (new_multiaddr value)) [
          | inl (e, r) ↦ rw (a, b, c, set_flag) (rw (r, addr_list_set) tt)
          | inr (addr, r) ↦
              rw (a, b, c, set_flag)
                (rw (r, addr_list_set) (rw c (rw (r, strings_to_addrs) refl), rw b refl))
        ]
        | inr c ↦
            SameLists-StepsTo name value cfg rest b c (set_flag env net (name, value) cfg)
              (set_flag-SameLists name value cfg b c)
      ]
    ]
  ]

  -- The two lists are what `StringsToAddrs` reads of the values of the flags.
  abbrev ReadFrom : Flags → ServerConfig Addr → ServerConfig Addr → Type 0
  ReadFrom flags cfg c =
      (read_onto cfg.listen_addresses "listen" flags ≡ (c.listen_addresses, none))
      × (read_onto cfg.bootstrap_peers "peer" flags ≡ (c.bootstrap_peers, none))

  set_flags-ReadFrom :
      (flags : Flags) (cfg : ServerConfig Addr) (w : World)
      → let r = set_flags env net flags cfg w in Gives IsUsage (λ c _. ReadFrom flags cfg c) r.0 r.1
  unfolding set_flags strings_to_addrs
  set_flags-ReadFrom [] cfg w = (refl, refl)
  set_flags-ReadFrom ((name, value) ∷ rest) cfg w =
      elim (Option-cases (set_flag env net (name, value) cfg)) [
        | inl e ↦ rw (e, set_flags) (inr (inl refl))
        | inr (cfg', e) ↦
            let steps =
              subst (StepsTo name value cfg rest) e (set_flag-StepsTo name value cfg rest) in
            rw (e, set_flags)
              (weaken name value cfg cfg' rest steps _ _ (set_flags-ReadFrom rest cfg' w))
      ]
    where
      weaken :
          (name value : String) (cfg cfg' : ServerConfig Addr) (rest : Flags)
          → Steps name value cfg cfg' rest
          → (r : Result Ended (ServerConfig Addr)) (w : World)
          → Gives IsUsage (λ c _. ReadFrom rest cfg' c) r w
          → Gives IsUsage (λ c _. ReadFrom ((name, value) ∷ rest) cfg c) r w
      weaken name value cfg cfg' rest (l, p) (ok c) w (hl, hp) = (l ∙ hl, p ∙ hp)
      weaken name value cfg cfg' rest s (err x) w h = h

  -- What a configuration owes to the flags.
  pub record IsParsed (flags : Flags) (c : ServerConfig Addr) : Type 0 where
    pub listened : strings_to_addrs env net [] (values "listen" flags) ≡ (c.listen_addresses, none)
    pub given : List Addr
    pub peered : strings_to_addrs env net [] (values "peer" flags) ≡ (given, none)
    pub bootstrapped : c.bootstrap_peers ≡ or_default given default_bootstrap_peers
    pub tested : (c.is_client_mode && is_empty c.test_file_path) ≡ false

  check_config-IsParsed :
      (flags : Flags) (cfg : ServerConfig Addr) (w : World)
      → strings_to_addrs env net [] (values "listen" flags) ≡ (cfg.listen_addresses, none)
      → strings_to_addrs env net [] (values "peer" flags) ≡ (cfg.bootstrap_peers, none)
      → let r =
          check_config env net
            (record cfg {
              bootstrap_peers = or_default cfg.bootstrap_peers default_bootstrap_peers;
            })
            w in
        Gives IsUsage (λ c _. IsParsed flags c) r.0 r.1
  unfolding check_config
  check_config-IsParsed flags cfg w l p =
      elim (Bool-cases (cfg.is_client_mode && is_empty cfg.test_file_path)) [
        | inl h ↦ rw (h, check_config) (inl (_, refl))
        | inr h ↦
            rw (h, check_config)
              (record {
                listened = l;
                given = cfg.bootstrap_peers;
                peered = p;
                bootstrapped = refl;
                tested = h;
              })
      ]

  -- The flags of the server end the program as wrong usage, or for want of a ULID, or give a
  -- configuration whose listen addresses are what StringsToAddrs reads of the values of the
  -- listen flags, whose bootstrap peers are what it reads of those of the peer flags, or the
  -- default ones if there are none, and which has a test file if it is in client mode.
  pub parse_flags-IsParsed :
      (flags : Flags) (w : World)
      → let r = parse_flags env net flags w in Gives IsUsage (λ c _. IsParsed flags c) r.0 r.1
  unfolding parse_flags
  parse_flags-IsParsed flags w = elim (Outcome-cases (get_ulid env w).0) [
    | inl e ↦ rw (e, parse_flags) (inr (inr refl))
    | inr (ulid, e) ↦
        let cfg : ServerConfig Addr = record {
          rendezvous_string = "pay3-rendezvous-" <> ulid;
          bootstrap_peers = [];
          listen_addresses = [];
          test_file_path = "";
          is_client_mode = false;
        } in
        let w1 = (get_ulid env w).1 in
        rw (e, parse_flags)
          (bind-Gives IsUsage (λ c _. ReadFrom flags cfg c) (λ c _. IsParsed flags c)
            (set_flags env net flags cfg) _ w1 (set_flags-ReadFrom flags cfg w1)
            (λ c w' (l, p). check_config-IsParsed flags c w' l p))
  ]
