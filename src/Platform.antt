-- ===== src/Platform.antt =====
-- `cpl_platform_get_mac_address` of cpl-standalone/cpl-platform.cpp, as it is compiled on Unix. What the
-- system answers is a record.
pub mod Laws
use prov_cpl.Prelude.{
  ℕ, ℤ, suc, Text, List, [], ◌∷◌, Bool, true, false, Option, none, some, not, if◌then◌else◌,
}
use prov_cpl.Codes.{cpl_ok, cpl_e_platform_error, cpl_e_not_found}
use prov_cpl.Api.Effect.{store}

pub record Network : Type 0 where
  -- `socket(…)` succeeds
  pub socket : Bool
  -- the names that `ioctl(sock, SIOCGIFCONF, …)` gives; `none` is -1
  pub interfaces : Option (List Text)
  -- `ioctl(sock, SIOCGIFFLAGS, …)`: whether the flags have `IFF_LOOPBACK`; `none` is an error
  pub loopback : Text → Option Bool
  -- `ioctl(sock, SIOCGIFHWADDR, …)`: the first six bytes of the address; `none` is an error
  pub hwaddr : Text → Option Text

module _ (net : Network) where
  -- The address of an interface that counts.
  abbrev pub address_of : Text → Option Text
  address_of name = elim (net.loopback name) [
    | none ↦ none
    | some b ↦ if not b then net.hwaddr name else none
  ]

  abbrev first : Option Text → Option Text → Option Text
  first none rest = rest
  first (some a) rest = some a

  -- The loop, which breaks at the first address.
  unfoldable pub scan_interfaces : List Text → Option Text
  scan_interfaces [] = none
  scan_interfaces (name ∷ names) = first (address_of name) (scan_interfaces names)

  abbrev found_address : Option Text → Option Text → ℤ × Option Text
  found_address none out = (cpl_e_not_found, out)
  found_address (some a) out = (cpl_ok, store out a)

  -- The code and the caller's cell, and how many sockets the process has open: no path closes the one
  -- that was opened.
  unfoldable pub cpl_platform_get_mac_address : Option Text → ℕ → (ℤ × Option Text) × ℕ
  unfolding scan_interfaces
  cpl_platform_get_mac_address out sockets =
      if not net.socket then ((cpl_e_platform_error, out), sockets) else elim net.interfaces [
        | none ↦ ((cpl_e_platform_error, out), suc sockets)
        | some names ↦ (found_address (scan_interfaces names) out, suc sockets)
      ]
