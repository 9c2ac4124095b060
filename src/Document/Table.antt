-- ===== src/Document/Table.antt =====
-- `rdata_array` of cpl-standalone/cpl-standalone.cpp: for each relation type its name in a document
-- and the names and object types of its two ends. The importers read the first `CPL_NUM_R_TYPES`
-- entries.
use prov_cpl.Prelude.{ℕ, ℤ, pos, Text, codes, List, [], ◌∷◌, take}

-- `prov_relation_data_t` of include/cplxx.h
pub record RelationData : Type 0 where
  pub kind : ℤ
  pub kind_str : Text
  pub source_str : Text
  pub source_t : ℤ
  pub dest_str : Text
  pub dest_t : ℤ

abbrev entry : ℕ → Text → Text → ℕ → Text → ℕ → RelationData
entry kind kind_str source_str source_t dest_str dest_t = record {
  kind = pos kind;
  kind_str = kind_str;
  source_str = source_str;
  source_t = pos source_t;
  dest_str = dest_str;
  dest_t = pos dest_t;
}

unfoldable pub rdata_array : List RelationData
rdata_array =
    entry 1 (codes "wasInfluencedBy") (codes "prov:influencee") 0 (codes "prov:influencer") 0
    ∷ entry 2 (codes "alternateOf") (codes "prov:alternate1") 1 (codes "prov:alternate2") 1
    ∷ entry 3 (codes "derivedByInsertionFrom") (codes "prov:after") 1 (codes "prov:before") 1
    ∷ entry 4 (codes "derivedByRemovalFrom") (codes "prov:after") 1 (codes "prov:before") 1
    ∷ entry 5 (codes "hadMember") (codes "prov:collection") 1 (codes "prov:before") 1
    ∷ entry 6 (codes "hadDictionaryMember") (codes "prov:dictionary") 1 (codes "prov:entity") 1
    ∷ entry 7 (codes "specializationOf") (codes "prov:specificEntity") 1
        (codes "prov:generalEntity") 1
    ∷ entry 8 (codes "wasDerivedFrom") (codes "prov:generatedEntity") 1 (codes "prov:usedEntity") 1
    ∷ entry 9 (codes "wasGeneratedBy") (codes "prov:entity") 1 (codes "prov:activity") 2
    ∷ entry 10 (codes "wasInvalidatedBy") (codes "prov:entity") 1 (codes "prov:activity") 2
    ∷ entry 11 (codes "wasAttributedTo") (codes "prov:entity") 1 (codes "prov:agent") 3
    ∷ entry 12 (codes "used") (codes "prov:activity") 2 (codes "prov:entity") 1
    ∷ entry 13 (codes "wasInformedBy") (codes "prov:informed") 2 (codes "prov:informant") 2
    ∷ entry 14 (codes "wasStartedBy") (codes "prov:activity") 2 (codes "prov:trigger") 1
    ∷ entry 15 (codes "wasEndedBy") (codes "prov:activity") 2 (codes "prov:trigger") 1
    ∷ entry 16 (codes "hadPlan") (codes "prov:agent") 3 (codes "prov:plan") 1
    ∷ entry 17 (codes "wasAssociatedWith") (codes "prov:activity") 2 (codes "prov:agent") 3
    ∷ entry 18 (codes "actedOnBehalfOf") (codes "prov:delegate") 3 (codes "prov:responsible") 3
    ∷ entry 19 (codes "inBundle") (codes "prov:bundle") 4 (codes "prov:object") 1
    ∷ entry 19 (codes "inBundle") (codes "prov:bundle") 4 (codes "prov:object") 3
    ∷ entry 19 (codes "inBundle") (codes "prov:bundle") 4 (codes "prov:object") 2
    ∷ []

abbrev pub cpl_num_r_types : ℕ
cpl_num_r_types = 19

-- The entries that a loop from 0 to `CPL_NUM_R_TYPES` meets.
unfoldable pub relation_types : List RelationData
unfolding rdata_array
relation_types = take cpl_num_r_types rdata_array
