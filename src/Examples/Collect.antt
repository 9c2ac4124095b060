-- ===== src/Examples/Collect.antt =====
-- The theorems on the collecting callbacks, applied.
use prov_cpl.Prelude.{
  ℕ, pos, Text, codes, List, [], ◌∷◌, ◌++◌, map, true, false, Option, none, some, ◌≡◌, refl,
}
use prov_cpl.Codes.{cpl_ok, numericalproperty, booleanproperty}
use prov_cpl.Api.Backend.{ObjectInfo, IdTimestamp, Relation, PrefixEntry}
use prov_cpl.Api.Numbers.{Numbers, bool_to_string}
use prov_cpl.Api.Collect.{
  replied, cpl_cb_collect_object_info_vector, cpl_cb_collect_id_timestamp_vector,
  cpl_cb_collect_relation_list, cpl_cb_collect_relation_vector, cpl_cb_collect_prefixes_vector,
  PropertyEntry, numericals, booleans, cpl_cb_collect_properties_vector,
}
use prov_cpl.Api.Collect.Laws.{deliver_rows, stored, deliver_booleans, deliver_numericals}
use prov_cpl.Odbc.Delivery.{deliver}

abbrev infos : List ObjectInfo
infos =
    record { id = 3; creation_time = 100; prefix = codes "ex"; name = codes "alice"; kind = pos 3 }
    ∷ []

abbrev times : List IdTimestamp
times = record { id = 3; timestamp = 100 } ∷ record { id = 4; timestamp = 90 } ∷ []

abbrev links : List Relation
links = record { id = 8; query_object_id = 3; other_object_id = 4; kind = pos 12 } ∷ []

abbrev namespaces : List PrefixEntry
namespaces = record { id = 5; prefix = codes "ex"; iri = codes "http://e" } ∷ []

deliver_rows_example :
    (deliver (pos 1) infos (some cpl_cb_collect_object_info_vector) (some [])
      ≡ replied cpl_ok (some infos))
    × (deliver (pos 1) times (some cpl_cb_collect_id_timestamp_vector) (some times)
        ≡ replied cpl_ok (some (times ++ times)))
    × (deliver (pos 1) links (some cpl_cb_collect_relation_list) (some [])
        ≡ replied cpl_ok (some links))
    × (deliver (pos 1) links (some cpl_cb_collect_relation_vector) (some [])
        ≡ replied cpl_ok (some links))
    × (deliver (pos 1) namespaces (some cpl_cb_collect_prefixes_vector) (some [])
        ≡ replied cpl_ok (some namespaces))
deliver_rows_example =
    deliver_rows (pos 1) infos times links namespaces [] times [] [] (λ e. cc) (λ e. cc) (λ e. cc)
      (λ e. cc)

abbrev property : {V : Type 0} → V → PropertyEntry V
property v = record { id = 3; prefix = codes "ex"; key = codes "k"; value = v }

-- One-byte numbers.
abbrev first_byte : Text → Option ℕ
first_byte [] = none
first_byte (c ∷ text) = some c

abbrev byte_numbers : Numbers ℕ
byte_numbers = record { to_string = λ n. n ∷ []; stod = first_byte }

deliver_booleans_example :
    deliver
      (pos 1)
      (map (stored bool_to_string booleanproperty) (property true ∷ property false ∷ []))
      (some (cpl_cb_collect_properties_vector byte_numbers))
      (some (booleans []))
    ≡ replied cpl_ok (some (booleans (property true ∷ property false ∷ [])))
deliver_booleans_example =
    deliver_booleans byte_numbers (pos 1) (property true ∷ property false ∷ []) [] (λ e. cc)

deliver_numericals_example :
    deliver
      (pos 1)
      (map (stored byte_numbers.to_string numericalproperty) (property 7 ∷ []))
      (some (cpl_cb_collect_properties_vector byte_numbers))
      (some (numericals []))
    ≡ replied cpl_ok (some (numericals (property 7 ∷ [])))
deliver_numericals_example =
    deliver_numericals byte_numbers (pos 1) (property 7 ∷ []) [] (λ e. cc) (refl, tt)
