-- ===== src/Odbc/Intact/Calls.antt =====
-- Every call of the backend gives its handle back.
use prov_cpl.Prelude.{ℕ, ℤ, Text, List, Bool, not, Option, some}
use prov_cpl.Api.Backend.{
  Iterator, IdTimestamp, ObjectInfo, SessionInfo, Relation, Property, PrefixEntry,
}
use prov_cpl.Odbc.Statements.{Statement, has_immediate_ancestor, get_session_info, get_object_info}
use prov_cpl.Odbc.Driver.{Driver, Parameter}
use prov_cpl.Odbc.State.{O, ◌>>=◌, stmt_acquire}
use prov_cpl.Odbc.Execute.{sql_execute}
use prov_cpl.Odbc.Calls.Objects.{
  cpl_odbc_create_object, cpl_odbc_lookup_object, cpl_odbc_lookup_object_ext,
  cpl_odbc_get_all_objects, cpl_odbc_get_bundle_objects,
}
use prov_cpl.Odbc.Calls.Relations.{
  cpl_odbc_add_relation, cpl_odbc_lookup_relation, cpl_odbc_has_immediate_ancestor,
  cpl_odbc_get_object_relations, cpl_odbc_get_bundle_relations, cpl_odbc_add_prefix,
  cpl_odbc_get_prefixes,
}
use prov_cpl.Odbc.Calls.Properties.{
  cpl_odbc_add_object_property, cpl_odbc_add_relation_property, cpl_odbc_get_object_properties,
  cpl_odbc_get_relation_properties, cpl_odbc_lookup_object_by_property,
  cpl_odbc_lookup_object_property_wildcard,
}
use prov_cpl.Odbc.Calls.Info.{cpl_odbc_get_session_info, cpl_odbc_get_object_info}
use prov_cpl.Odbc.Intact.{IsIntact, Lent, Triple, Triple-bind, stmt_acquire-Lent}
use prov_cpl.Odbc.Intact.Reconnect.{Reconnects}
use prov_cpl.Odbc.Intact.Parts.{sql_execute-Holds}
use prov_cpl.Odbc.Intact.Returns.{
  Returns, release_with, Returns-if, Returns-bind, fetch_single_llong-Holds, give_id-Returns,
  finish_write-Returns, give_rows-Returns, err_r-Returns, read_session_info-Returns,
  read_object_info-Returns,
}

-- A call that leaves everything in place.
abbrev pub Keeps : {Conn A : Type 0} → O Conn A → Type 0
Keeps m = Triple IsIntact m (λ a. IsIntact)

module _ {Conn Timestamp : Type 0} (d : Driver Conn Timestamp) where
  -- With a driver that reconnects.
  module _ (r : Reconnects d) where
    -- The common beginning of the calls.
    Keeps-call :
        {A : Type 0} (name : Statement) (ps : List Parameter) (k : Option ℕ → Bool → O Conn A)
        → ((stmt : Option ℕ) (b : Bool) → Returns name stmt (k stmt b))
        → Keeps (stmt_acquire name >>= λ stmt. sql_execute d stmt ps >>= k stmt)
    Keeps-call name ps k h =
        Triple-bind IsIntact (Lent name) (λ a. IsIntact) _ _ (stmt_acquire-Lent name)
          λ stmt. Returns-bind name stmt _ _ (sql_execute-Holds d name stmt r stmt ps) (h stmt)

    pub create_object-Keeps :
        (p n : Text) (k : ℤ) (out : Option ℕ) → Keeps (cpl_odbc_create_object d p n k out)
    unfolding cpl_odbc_create_object
    create_object-Keeps p n k out = Keeps-call _ _ _ λ stmt b. give_id-Returns d _ stmt b out

    pub lookup_object-Keeps :
        (p n : Text) (k : ℤ) (out : Option ℕ) → Keeps (cpl_odbc_lookup_object d p n k out)
    unfolding cpl_odbc_lookup_object
    lookup_object-Keeps p n k out = Keeps-call _ _ _ λ stmt b. give_id-Returns d _ stmt b out

    pub lookup_object_ext-Keeps :
        {Ctx : Type 0} (p n : Text) (k f : ℤ) (it : Iterator IdTimestamp Ctx) (c : Ctx)
        → Keeps (cpl_odbc_lookup_object_ext d p n k f it c)
    unfolding cpl_odbc_lookup_object_ext
    lookup_object_ext-Keeps p n k f it c =
        Keeps-call _ _ _ λ stmt b. give_rows-Returns d _ stmt b 2 _ _

    pub get_all_objects-Keeps :
        {Ctx : Type 0} (p : Option Text) (f k : ℤ) (it : Iterator ObjectInfo Ctx) (c : Ctx)
        → Keeps (cpl_odbc_get_all_objects d p f k it c)
    unfolding cpl_odbc_get_all_objects
    get_all_objects-Keeps p f k it c = Keeps-call _ _ _ λ stmt b. give_rows-Returns d _ stmt b 5 _ _

    pub get_bundle_objects-Keeps :
        {Ctx : Type 0} (i : ℕ) (it : Iterator ObjectInfo Ctx) (c : Ctx)
        → Keeps (cpl_odbc_get_bundle_objects d i it c)
    unfolding cpl_odbc_get_bundle_objects
    get_bundle_objects-Keeps i it c = Keeps-call _ _ _ λ stmt b. give_rows-Returns d _ stmt b 5 _ _

    pub add_relation-Keeps :
        (a b : ℕ) (k : ℤ) (out : Option ℕ) → Keeps (cpl_odbc_add_relation d a b k out)
    unfolding cpl_odbc_add_relation
    add_relation-Keeps a b k out = Keeps-call _ _ _ λ stmt b. give_id-Returns d _ stmt b out

    pub lookup_relation-Keeps :
        (a b : ℕ) (k : ℤ) (out : Option ℕ) → Keeps (cpl_odbc_lookup_relation d a b k out)
    unfolding cpl_odbc_lookup_relation
    lookup_relation-Keeps a b k out = Keeps-call _ _ _ λ stmt b. give_id-Returns d _ stmt b out

    pub has_immediate_ancestor-Keeps :
        (a b : ℕ) (out : Option ℤ) → Keeps (cpl_odbc_has_immediate_ancestor d a b out)
    unfolding cpl_odbc_has_immediate_ancestor
    has_immediate_ancestor-Keeps a b out = Keeps-call has_immediate_ancestor _ _ λ stmt b.
        Returns-if has_immediate_ancestor stmt (not b) _ _
          (release_with has_immediate_ancestor stmt _)
          (Returns-bind has_immediate_ancestor stmt _ _
            (fetch_single_llong-Holds d has_immediate_ancestor stmt stmt)
            λ v. release_with has_immediate_ancestor stmt _)

    pub get_object_relations-Keeps :
        {Ctx : Type 0} (i : ℕ) (dir f : ℤ) (it : Iterator Relation Ctx) (c : Ctx)
        → Keeps (cpl_odbc_get_object_relations d i dir f it c)
    unfolding cpl_odbc_get_object_relations
    get_object_relations-Keeps i dir f it c =
        Keeps-call _ _ _ λ stmt b. give_rows-Returns d _ stmt b 3 _ _

    pub get_bundle_relations-Keeps :
        {Ctx : Type 0} (i : ℕ) (it : Iterator Relation Ctx) (c : Ctx)
        → Keeps (cpl_odbc_get_bundle_relations d i it c)
    unfolding cpl_odbc_get_bundle_relations
    get_bundle_relations-Keeps i it c =
        Keeps-call _ _ _ λ stmt b. give_rows-Returns d _ stmt b 4 _ _

    pub add_prefix-Keeps : (i : ℕ) (p iri : Text) → Keeps (cpl_odbc_add_prefix d i p iri)
    unfolding cpl_odbc_add_prefix
    add_prefix-Keeps i p iri = Keeps-call _ _ _ λ stmt b. finish_write-Returns d _ stmt b

    pub get_prefixes-Keeps :
        {Ctx : Type 0} (i : ℕ) (p : Option Text) (it : Iterator PrefixEntry Ctx) (c : Ctx)
        → Keeps (cpl_odbc_get_prefixes d i p it c)
    unfolding cpl_odbc_get_prefixes
    get_prefixes-Keeps i p it c = Keeps-call _ _ _ λ stmt b. give_rows-Returns d _ stmt b 3 _ _

    pub add_object_property-Keeps :
        (i : ℕ) (p n v : Text) (k : ℤ) → Keeps (cpl_odbc_add_object_property d i p n v k)
    unfolding cpl_odbc_add_object_property
    add_object_property-Keeps i p n v k = Keeps-call _ _ _ λ stmt b. finish_write-Returns d _ stmt b

    pub add_relation_property-Keeps :
        (i : ℕ) (p n v : Text) (k : ℤ) → Keeps (cpl_odbc_add_relation_property d i p n v k)
    unfolding cpl_odbc_add_relation_property
    add_relation_property-Keeps i p n v k =
        Keeps-call _ _ _ λ stmt b. finish_write-Returns d _ stmt b

    pub get_object_properties-Keeps :
        {Ctx : Type 0} (i : ℕ) (p n : Option Text) (k : ℤ) (it : Iterator Property Ctx) (c : Ctx)
        → Keeps (cpl_odbc_get_object_properties d i p n k it c)
    unfolding cpl_odbc_get_object_properties
    get_object_properties-Keeps i p n k it c =
        Keeps-call _ _ _ λ stmt b. give_rows-Returns d _ stmt b 4 _ _

    pub get_relation_properties-Keeps :
        {Ctx : Type 0} (i : ℕ) (p n : Option Text) (k : ℤ) (it : Iterator Property Ctx) (c : Ctx)
        → Keeps (cpl_odbc_get_relation_properties d i p n k it c)
    unfolding cpl_odbc_get_relation_properties
    get_relation_properties-Keeps i p n k it c =
        Keeps-call _ _ _ λ stmt b. give_rows-Returns d _ stmt b 4 _ _

    pub lookup_object_by_property-Keeps :
        {Ctx : Type 0} (p n v : Text) (k : ℤ) (it : Iterator Property Ctx) (c : Ctx)
        → Keeps (cpl_odbc_lookup_object_by_property d p n v k it c)
    unfolding cpl_odbc_lookup_object_by_property
    lookup_object_by_property-Keeps p n v k it c =
        Keeps-call _ _ _ λ stmt b. give_rows-Returns d _ stmt b 1 _ _

    pub wildcard-Keeps :
        (v : Text) (out : Option ℕ)
        → Keeps (cpl_odbc_lookup_object_property_wildcard d (some v) out)
    unfolding cpl_odbc_lookup_object_property_wildcard
    wildcard-Keeps v out = Keeps-call _ _ _ λ stmt b. give_id-Returns d _ stmt b out

    pub get_session_info-Keeps :
        (i : ℕ) (out : Option SessionInfo) → Keeps (cpl_odbc_get_session_info d i out)
    unfolding cpl_odbc_get_session_info
    get_session_info-Keeps i out = Keeps-call get_session_info _ _ λ stmt b.
        Returns-if get_session_info stmt (not b) _ _ (err_r-Returns d get_session_info stmt out _)
          (read_session_info-Returns d stmt i out)

    pub get_object_info-Keeps :
        (i : ℕ) (out : Option ObjectInfo) → Keeps (cpl_odbc_get_object_info d i out)
    unfolding cpl_odbc_get_object_info
    get_object_info-Keeps i out = Keeps-call get_object_info _ _ λ stmt b.
        Returns-if get_object_info stmt (not b) _ _ (err_r-Returns d get_object_info stmt out _)
          (read_object_info-Returns d stmt i out)
