-- ===== src/Examples/Machine.antt =====
-- The theorems on the generator of identifiers and on the addresses of the machine, applied.
use prov_cpl.Prelude.{codes, [], ◌∷◌, true, some, ◌≡◌, refl, inl, inr, text_eq, arith}
use prov_cpl.Codes.{cpl_ok}
use prov_cpl.Lock.UniqueId.{Moment, Generator, cpl_host_unique_id_generator_initialize, ids}
use prov_cpl.Lock.UniqueId.Increasing.{IsMoment, Increasing, unique_ids}
use prov_cpl.Platform.{Network, cpl_platform_get_mac_address}
use prov_cpl.Platform.Laws.{mac_address_first}

abbrev noon : Moment
noon = record { tv_sec = 1462190400; tv_usec = 250000 }

abbrev later : Moment
later = record { tv_sec = 1462190400; tv_usec = 260000 }

abbrev unset : Generator
unset = record { cpl_unique_base = 0; cpl_unique_counter = 0; clock = noon ∷ later ∷ [] }

noon-IsMoment : IsMoment noon
noon-IsMoment = record { since = omega arith; until = omega arith; part = omega arith }

later-IsMoment : IsMoment later
later-IsMoment = record { since = omega arith; until = omega arith; part = omega arith }

unique_ids_example : Increasing 0 (ids 3 (cpl_host_unique_id_generator_initialize unset).1)
unique_ids_example =
    unique_ids 3 unset noon (later ∷ []) refl noon-IsMoment (later-IsMoment, omega arith, tt)

-- The loopback interface comes first.
abbrev host : Network
host = record {
  socket = true;
  interfaces = some (codes "lo" ∷ codes "eth0" ∷ []);
  loopback = λ name. some (text_eq name (codes "lo"));
  hwaddr = λ name. some (2 ∷ 0 ∷ 0 ∷ 0 ∷ 0 ∷ 1 ∷ []);
}

mac_address_first_example :
    cpl_platform_get_mac_address host (some []) 0 ≡ ((cpl_ok, some (2 ∷ 0 ∷ 0 ∷ 0 ∷ 0 ∷ 1 ∷ [])), 1)
unfolding text_eq
mac_address_first_example =
    mac_address_first host (codes "lo" ∷ []) [] (codes "eth0") (2 ∷ 0 ∷ 0 ∷ 0 ∷ 0 ∷ 1 ∷ []) [] 0
      refl refl (inr (inl refl), tt) refl refl
