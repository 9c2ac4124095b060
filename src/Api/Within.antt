-- ===== src/Api/Within.antt =====
-- What the functions of a backend keep, the calls of the library keep.
pub mod History
use prov_cpl.Prelude.{ℕ, ℤ, Bool, true, false, Option, none, some, ◌≡◌, ◌-◌, refl, arith, Text}
use prov_cpl.Api.Effect.{
  State, continue, caught, Step, go, stop, Exit, returned, fault, blocked, thrown,
}
use prov_cpl.Api.Backend.{
  Backend, Iterator, ObjectInfo, SessionInfo, IdTimestamp, Relation, Property, PrefixEntry,
}
use prov_cpl.Api.Numbers.{Numbers}
use prov_cpl.Api.Objects.{
  cpl_lookup_object, cpl_create_object, cpl_lookup_or_create_object, create_if_missing,
}
use prov_cpl.Api.Call.{
  Call, create_object, lookup_or_create_object, lookup_object_property_wildcard, perform,
}

-- What holds of the backend, if there is one.
abbrev pub Within : {Db : Type 0} → (Db → Type 0) → State Db → Type 0
Within I s = elim s.backend [ none ↦ Unit {0} | some db ↦ I db ]

-- A look-up of a value that is NULL.
abbrev pub looks_up_null : {Ctx Double : Type 0} → Call Ctx Double → Bool
looks_up_null (lookup_object_property_wildcard none out) = true
looks_up_null _ = false

module _ {Db Ctx : Type 0} (vt : Backend Db Ctx) (I : Db → Type 0) where
  -- Every function of the backend but `cpl_db_destroy`, with the arguments that the calls pass on.
  pub record IsKept : Type 0 where
    pub create_object :
        (db : Db) (p n : Text) (k : ℤ) → I db → I (vt.cpl_db_create_object db p n k).1
    pub lookup_object :
        (db : Db) (p n : Text) (k : ℤ) → I db → I (vt.cpl_db_lookup_object db p n k).1
    pub lookup_object_ext :
        (db : Db) (p n : Text) (k f : ℤ) (it : Iterator IdTimestamp Ctx) (c : Ctx)
        → I db
        → I (vt.cpl_db_lookup_object_ext db p n k f it c).1
    pub add_relation : (db : Db) (a b : ℕ) (k : ℤ) → I db → I (vt.cpl_db_add_relation db a b k).1
    pub add_object_property :
        (db : Db) (i : ℕ) (p n v : Text) (k : ℤ)
        → I db
        → I (vt.cpl_db_add_object_property db i p n v k).1
    pub add_relation_property :
        (db : Db) (i : ℕ) (p n v : Text) (k : ℤ)
        → I db
        → I (vt.cpl_db_add_relation_property db i p n v k).1
    pub lookup_relation :
        (db : Db) (a b : ℕ) (k : ℤ) (out : Option ℕ)
        → I db
        → I (vt.cpl_db_lookup_relation db a b k out).1
    pub wildcard :
        (db : Db) (v : Text) (out : Option ℕ)
        → I db
        → I (vt.cpl_db_lookup_object_property_wildcard db (some v) out).1
    pub add_prefix : (db : Db) (i : ℕ) (p r : Text) → I db → I (vt.cpl_db_add_prefix db i p r).1
    pub get_session_info :
        (db : Db) (i : ℕ) (out : Option SessionInfo)
        → I db
        → I (vt.cpl_db_get_session_info db i out).1
    pub get_all_objects :
        (db : Db) (p : Option Text) (f k : ℤ) (it : Iterator ObjectInfo Ctx) (c : Ctx)
        → I db
        → I (vt.cpl_db_get_all_objects db p f k it c).1
    pub get_object_info :
        (db : Db) (i : ℕ) (out : Option ObjectInfo)
        → I db
        → I (vt.cpl_db_get_object_info db i out).1
    pub get_object_relations :
        (db : Db) (i : ℕ) (r f : ℤ) (it : Iterator Relation Ctx) (c : Ctx)
        → I db
        → I (vt.cpl_db_get_object_relations db i r f it c).1
    pub get_object_properties :
        (db : Db) (i : ℕ) (p n : Option Text) (k : ℤ) (it : Iterator Property Ctx) (c : Ctx)
        → I db
        → I (vt.cpl_db_get_object_properties db i p n k it c).1
    pub lookup_object_by_property :
        (db : Db) (p n v : Text) (k : ℤ) (it : Iterator Property Ctx) (c : Ctx)
        → I db
        → I (vt.cpl_db_lookup_object_by_property db p n v k it c).1
    pub get_relation_properties :
        (db : Db) (i : ℕ) (p n : Option Text) (k : ℤ) (it : Iterator Property Ctx) (c : Ctx)
        → I db
        → I (vt.cpl_db_get_relation_properties db i p n k it c).1
    pub get_bundle_objects :
        (db : Db) (i : ℕ) (it : Iterator ObjectInfo Ctx) (c : Ctx)
        → I db
        → I (vt.cpl_db_get_bundle_objects db i it c).1
    pub get_bundle_relations :
        (db : Db) (i : ℕ) (it : Iterator Relation Ctx) (c : Ctx)
        → I db
        → I (vt.cpl_db_get_bundle_relations db i it c).1
    pub get_prefixes :
        (db : Db) (i : ℕ) (p : Option Text) (it : Iterator PrefixEntry Ctx) (c : Ctx)
        → I db
        → I (vt.cpl_db_get_prefixes db i p it c).1

  module _ (kept : IsKept) where
    lookup_object-Within :
        (p n : Option Text) (t : ℤ) (o : Option ℕ) (s : State Db)
        → Within I s
        → Within I (cpl_lookup_object vt p n t o s).1
    unfolding cpl_lookup_object
    lookup_object-Within p n t o s h = let k = kept.lookup_object in grind arith

    create_object-Within :
        (p n : Option Text) (t : ℤ) (o : Option ℕ) (s : State Db)
        → Within I s
        → Within I (cpl_create_object vt p n t o s).1
    unfolding cpl_create_object
    create_object-Within p n t o s h = let k = kept.create_object in grind arith

    create_if_missing-Within :
        (p n : Option Text) (t : ℤ) (found : ℤ × Option ℕ) (s : State Db)
        → Within I s
        → Within I (create_if_missing vt p n t found s).1
    unfolding create_if_missing
    create_if_missing-Within p n t found s h =
        let k = create_object-Within p n t found.1 s h in ground arith

    resume-Within :
        (p n : Option Text) (t : ℤ) (o : Option ℕ) (r : Step (ℤ × Option ℕ)) (s : State Db)
        → Within I s
        → Within I (continue (caught o r) (create_if_missing vt p n t) s).1
    resume-Within p n t o (go found) s h = create_if_missing-Within p n t found s h
    resume-Within p n t o (stop (returned code)) s h = create_if_missing-Within p n t (code, o) s h
    resume-Within p n t o (stop fault) s h = h
    resume-Within p n t o (stop blocked) s h = h
    resume-Within p n t o (stop thrown) s h = h

    lookup_or_create_object-Within :
        (p n : Option Text) (t : ℤ) (o : Option ℕ) (s : State Db)
        → Within I s
        → Within I (cpl_lookup_or_create_object vt p n t o s).1
    unfolding cpl_lookup_or_create_object
    lookup_or_create_object-Within p n t o s h =
        let u : State Db = record s { sem_value = s.sem_value - 1 } in
        let k =
          resume-Within p n t o (cpl_lookup_object vt p n t o u).0
            (cpl_lookup_object vt p n t o u).1 (lookup_object-Within p n t o u h) in
        ground arith

    pub perform-Within :
        {Double : Type 0} (numbers : Numbers Double) (c : Call Ctx Double) (s : State Db)
        → looks_up_null c ≡ false
        → Within I s
        → Within I (perform vt numbers c s).1
    unfolding perform
    perform-Within numbers (create_object p n t o) s e h = create_object-Within p n t o s h
    perform-Within numbers (lookup_or_create_object p n t o) s e h =
        lookup_or_create_object-Within p n t o s h
    perform-Within numbers c s e h = grind (
      arith, kept.lookup_object, kept.lookup_object_ext, kept.add_relation,
      kept.add_object_property, kept.add_relation_property, kept.lookup_relation, kept.wildcard,
      kept.add_prefix, kept.get_session_info, kept.get_all_objects, kept.get_object_info,
      kept.get_object_relations, kept.get_object_properties, kept.lookup_object_by_property,
      kept.get_relation_properties, kept.get_bundle_objects, kept.get_bundle_relations,
      kept.get_prefixes,
    )
