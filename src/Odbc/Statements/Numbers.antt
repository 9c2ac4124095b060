-- ===== src/Odbc/Statements/Numbers.antt =====
-- The number of a statement tells it from the others.
use prov_cpl.Prelude.{some, ◌≡◌, refl, true, sym, ap, ◌∙◌, get_elem?, ==_iff}
use prov_cpl.Odbc.Statements.{
  Statement, create_session, create_object, lookup_object_nt, lookup_object_t, lookup_object_nt_ext,
  lookup_object_t_ext, add_relation, lookup_relation, lookup_object_property_wildcard,
  add_object_property, add_relation_property, add_prefix, get_session_info, get_all_objects_nt,
  get_all_objects_t, get_object_info, get_object_ancestors, get_object_descendants,
  get_object_properties, get_object_properties_with_key, lookup_object_by_property,
  get_relation_properties, get_relation_properties_with_key, has_immediate_ancestor,
  get_bundle_objects, get_bundle_relations, get_prefixes, get_prefixes_with_key, number_of, same,
  all_statements,
}

at_number : (m : Statement) → get_elem? all_statements (number_of m) ≡ some m
at_number create_session = refl
at_number create_object = refl
at_number lookup_object_nt = refl
at_number lookup_object_t = refl
at_number lookup_object_nt_ext = refl
at_number lookup_object_t_ext = refl
at_number add_relation = refl
at_number lookup_relation = refl
at_number lookup_object_property_wildcard = refl
at_number add_object_property = refl
at_number add_relation_property = refl
at_number add_prefix = refl
at_number get_session_info = refl
at_number get_all_objects_nt = refl
at_number get_all_objects_t = refl
at_number get_object_info = refl
at_number get_object_ancestors = refl
at_number get_object_descendants = refl
at_number get_object_properties = refl
at_number get_object_properties_with_key = refl
at_number lookup_object_by_property = refl
at_number get_relation_properties = refl
at_number get_relation_properties_with_key = refl
at_number has_immediate_ancestor = refl
at_number get_bundle_objects = refl
at_number get_bundle_relations = refl
at_number get_prefixes = refl
at_number get_prefixes_with_key = refl

pub same_eq : (m n : Statement) → same m n ≡ true → m ≡ n
same_eq m n e =
    let numbers = (==_iff (number_of m) (number_of n)).0 e in
    let found : some m ≡ some n =
      sym (at_number m) ∙ ap (get_elem? all_statements) numbers ∙ at_number n in
    cc
