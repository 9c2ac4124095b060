-- ===== src/Platform/Laws.antt =====
-- Which address is found.
use prov_cpl.Prelude.{
  ℕ, suc, Text, List, [], ◌∷◌, ◌++◌, true, false, none, some, ◌⊎◌, ◌≡◌, refl, All, arith,
}
use prov_cpl.Codes.{cpl_ok}
use prov_cpl.Platform.{Network, address_of, scan_interfaces, cpl_platform_get_mac_address}

-- An interface that does not count: its flags cannot be read, it is a loopback, or it has no address
-- that can be read.
abbrev pub IsPassedOver : Network → Text → Type 0
IsPassedOver net name =
    (net.loopback name ≡ none) ⊎ (net.loopback name ≡ some true) ⊎ (net.hwaddr name ≡ none)

module _ (net : Network) where
  passed_over :
      (names : List Text) → All (IsPassedOver net) names → All (λ n. address_of net n ≡ none) names
  passed_over [] h = tt
  passed_over (name ∷ names) (h, hs) = (ground (arith, h), passed_over names hs)

  scan_interfaces_first :
      (before after : List Text) (name address : Text)
      → All (λ other. address_of net other ≡ none) before
      → address_of net name ≡ some address
      → scan_interfaces net (before ++ name ∷ after) ≡ some address
  unfolding scan_interfaces
  scan_interfaces_first [] after name address h e = rw e refl
  scan_interfaces_first (other ∷ before) after name address h e =
      rw h.0 (scan_interfaces_first before after name address h.1 e)

  -- Where the system lists its interfaces, the address is that of the first one that is no loopback and
  -- whose flags and address can be read; the call returns `CPL_OK` with it, and leaves a socket open.
  pub mac_address_first :
      (before after : List Text) (name address old : Text) (sockets : ℕ)
      → net.socket ≡ true
      → net.interfaces ≡ some (before ++ name ∷ after)
      → All (IsPassedOver net) before
      → net.loopback name ≡ some false
      → net.hwaddr name ≡ some address
      → cpl_platform_get_mac_address net (some old) sockets ≡ ((cpl_ok, some address), suc sockets)
  unfolding cpl_platform_get_mac_address
  mac_address_first before after name address old sockets s l h b e =
      let counts : address_of net name ≡ some address = ground (arith, b, e) in
      ground (arith, scan_interfaces_first before after name address (passed_over before h) counts)
