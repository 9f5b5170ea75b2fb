-- ===== src/Programs/Addresses.antt =====
-- Lists of addresses and their texts: addrList and StringsToAddrs of backend/cmd/server/flags.go.
use hackfs_mdc.Base.{◌≡◌, refl, sym, ap, ◌∙◌, String, none, some, List, [], ◌∷◌, ◌++◌}
use mathlib.Core.List.{append-nil, append_assoc}
use hackfs_mdc.Go.{ok, err}
use hackfs_mdc.Common.{Error}
use hackfs_mdc.Services.{Services}
use hackfs_mdc.Programs.{Network}
use hackfs_mdc.Programs.Flags.{addr_strings, strings_to_addrs}

module _ (env : Services) (net : Network env) where
  open net use {Addr, new_multiaddr, addr_string}

  strings_to_addrs-append :
      ((a : Addr) → new_multiaddr (addr_string a) ≡ ok a)
      → (al acc : List Addr) (rest : List String)
      → strings_to_addrs env net acc (addr_strings env net al ++ rest)
        ≡ strings_to_addrs env net (acc ++ al) rest
  unfolding strings_to_addrs addr_strings
  strings_to_addrs-append reads [] acc rest =
      ap (λ l. strings_to_addrs env net l rest) (sym (append-nil acc))
  strings_to_addrs-append reads (a ∷ al) acc rest =
      rw (reads a, strings_to_addrs)
        (strings_to_addrs-append reads al (acc ++ a ∷ []) rest
          ∙ ap (λ l. strings_to_addrs env net l rest) (append_assoc acc (a ∷ []) al))

  -- If an address can be read back from its text, the texts of a list of addresses are read back
  -- as that list; with a text that cannot be read among them, the addresses before it come with
  -- its error.
  pub strings_to_addrs-strings :
      ((a : Addr) → new_multiaddr (addr_string a) ≡ ok a)
      → (al : List Addr) (bad : String) (e : Error) (rest : List String) → new_multiaddr bad ≡ err e
      → (strings_to_addrs env net [] (addr_strings env net al ++ []) ≡ (al, none))
        × (strings_to_addrs env net [] (addr_strings env net al ++ bad ∷ rest) ≡ (al, some e))
  unfolding strings_to_addrs
  strings_to_addrs-strings reads al bad e rest h = (
    strings_to_addrs-append reads al [] [],
    strings_to_addrs-append reads al [] (bad ∷ rest) ∙ rw (h, strings_to_addrs) refl,
  )
