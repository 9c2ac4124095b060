-- ===== src/Odbc/Statements.antt =====
-- The prepared statements of `cpl_odbc_t`, one pool of handles for each.
pub mod Numbers
use prov_cpl.Prelude.{ℕ, Bool, List, [], ◌∷◌, ◌==◌}

pub data Statement : Type 0 where
  create_session create_object lookup_object_nt lookup_object_t lookup_object_nt_ext
        lookup_object_t_ext add_relation lookup_relation lookup_object_property_wildcard
        add_object_property add_relation_property add_prefix get_session_info get_all_objects_nt
        get_all_objects_t get_object_info get_object_ancestors get_object_descendants
        get_object_properties get_object_properties_with_key lookup_object_by_property
        get_relation_properties get_relation_properties_with_key has_immediate_ancestor
        get_bundle_objects get_bundle_relations get_prefixes get_prefixes_with_key :
      Statement

-- The order in which the code allocates the pools.
abbrev pub number_of : Statement → ℕ
number_of create_session = 0
number_of create_object = 1
number_of lookup_object_nt = 2
number_of lookup_object_t = 3
number_of lookup_object_nt_ext = 4
number_of lookup_object_t_ext = 5
number_of add_relation = 6
number_of lookup_relation = 7
number_of lookup_object_property_wildcard = 8
number_of add_object_property = 9
number_of add_relation_property = 10
number_of add_prefix = 11
number_of get_session_info = 12
number_of get_all_objects_nt = 13
number_of get_all_objects_t = 14
number_of get_object_info = 15
number_of get_object_ancestors = 16
number_of get_object_descendants = 17
number_of get_object_properties = 18
number_of get_object_properties_with_key = 19
number_of lookup_object_by_property = 20
number_of get_relation_properties = 21
number_of get_relation_properties_with_key = 22
number_of has_immediate_ancestor = 23
number_of get_bundle_objects = 24
number_of get_bundle_relations = 25
number_of get_prefixes = 26
number_of get_prefixes_with_key = 27

abbrev pub same : Statement → Statement → Bool
same a b = number_of a == number_of b

-- All of them, in the order in which their pools are allocated and freed.
abbrev pub all_statements : List Statement
all_statements =
    create_session ∷ create_object ∷ lookup_object_nt ∷ lookup_object_t ∷ lookup_object_nt_ext
    ∷ lookup_object_t_ext ∷ add_relation ∷ lookup_relation ∷ lookup_object_property_wildcard
    ∷ add_object_property ∷ add_relation_property ∷ add_prefix ∷ get_session_info
    ∷ get_all_objects_nt ∷ get_all_objects_t ∷ get_object_info ∷ get_object_ancestors
    ∷ get_object_descendants ∷ get_object_properties ∷ get_object_properties_with_key
    ∷ lookup_object_by_property ∷ get_relation_properties ∷ get_relation_properties_with_key
    ∷ has_immediate_ancestor ∷ get_bundle_objects ∷ get_bundle_relations ∷ get_prefixes
    ∷ get_prefixes_with_key ∷ []

-- The order in which it prepares them.
abbrev pub prepared_statements : List Statement
prepared_statements =
    create_session ∷ create_object ∷ lookup_object_nt ∷ lookup_object_t ∷ lookup_object_nt_ext
    ∷ lookup_object_t_ext ∷ add_relation ∷ lookup_relation ∷ lookup_object_property_wildcard
    ∷ add_object_property ∷ add_relation_property ∷ add_prefix ∷ get_all_objects_nt
    ∷ get_all_objects_t ∷ get_object_info ∷ get_session_info ∷ get_object_ancestors
    ∷ get_object_descendants ∷ get_object_properties ∷ get_object_properties_with_key
    ∷ lookup_object_by_property ∷ get_relation_properties ∷ get_relation_properties_with_key
    ∷ has_immediate_ancestor ∷ get_bundle_objects ∷ get_bundle_relations ∷ get_prefixes
    ∷ get_prefixes_with_key ∷ []
