-- ===== src/Examples/Toys.antt =====
-- Stand-ins for the code that is not part of the repository: a backend that only counts the objects
-- it makes and one that keeps them, numbers that are natural, documents that are one collection of relations, and a sort.
use Prim.Axiom.{lem}
use prov_cpl.Prelude.{
  suc, ℤ, ◌&&◌, if◌then◌else◌, length, eq_ℤ, arith, ℕ, suc, Option, none, some, Bool, true, false,
  ◌≡◌, ◌↔◌, Text, codes, List, [], ◌∷◌, map, text_eq, refl,
}
use prov_cpl.Codes.{cpl_ok, cpl_e_not_found}
use prov_cpl.Api.Effect.{State}
use prov_cpl.Api.Backend.{Backend}
use prov_cpl.Api.Numbers.{Numbers}
use prov_cpl.Api.Ready.{IsReady}
use prov_cpl.Api.Lifecycle.Laws.{IsDetached}
use prov_cpl.Document.Json.{JsonLib, Kind, object, string}
use prov_cpl.Document.Graph.{TopologicalSort, IsAcyclic}

abbrev pub backend_with :
    {Db Ctx : Type 0}
    → (Db → Text → Text → ℤ → (ℤ × ℕ) × Db)
    → (Db → Text → Text → ℤ → (ℤ × ℕ) × Db)
    → Backend Db Ctx
backend_with create lookup = record {
  cpl_db_destroy = λ n. (cpl_ok, n);
  cpl_db_create_object = create;
  cpl_db_lookup_object = lookup;
  cpl_db_lookup_object_ext = λ n prefix name kind flags it ctx. ((cpl_e_not_found, ctx), n);
  cpl_db_add_relation = λ n a b kind. ((cpl_ok, 1), n);
  cpl_db_add_object_property = λ n id prefix key value kind. (cpl_ok, n);
  cpl_db_add_relation_property = λ n id prefix key value kind. (cpl_ok, n);
  cpl_db_lookup_relation = λ n a b kind out. ((cpl_e_not_found, out), n);
  cpl_db_lookup_object_property_wildcard = λ n value out. ((cpl_e_not_found, out), n);
  cpl_db_add_prefix = λ n id prefix iri. (cpl_ok, n);
  cpl_db_get_session_info = λ n id out. ((cpl_e_not_found, out), n);
  cpl_db_get_all_objects = λ n prefix since flags it ctx. ((cpl_e_not_found, ctx), n);
  cpl_db_get_object_info = λ n id out. ((cpl_e_not_found, out), n);
  cpl_db_get_object_relations = λ n id direction flags it ctx. ((cpl_e_not_found, ctx), n);
  cpl_db_get_object_properties = λ n id prefix key kind it ctx. ((cpl_e_not_found, ctx), n);
  cpl_db_lookup_object_by_property = λ n prefix key value kind it ctx. ((cpl_e_not_found, ctx), n);
  cpl_db_get_relation_properties = λ n id prefix key kind it ctx. ((cpl_e_not_found, ctx), n);
  cpl_db_get_bundle_objects = λ n id it ctx. ((cpl_e_not_found, ctx), n);
  cpl_db_get_bundle_relations = λ n id it ctx. ((cpl_e_not_found, ctx), n);
  cpl_db_get_prefixes = λ n id prefix it ctx. ((cpl_e_not_found, ctx), n);
}

abbrev pub toy_backend : Backend ℕ (Unit {0})
toy_backend =
    backend_with (λ n prefix name kind. ((cpl_ok, suc n), suc n))
      (λ n prefix name kind. ((cpl_e_not_found, 0), n))

-- A backend that keeps the objects it makes, the last one first.
abbrev pub Rows : Type 0
Rows = List (Text × Text × ℤ)

abbrev pub search_rows : Rows → Text → Text → ℤ → ℤ × ℕ
search_rows [] prefix name kind = (cpl_e_not_found, 0)
search_rows ((a, b, c) ∷ rows) prefix name kind =
    if text_eq a prefix && text_eq b name && eq_ℤ c kind
    then (cpl_ok, suc (length rows))
    else search_rows rows prefix name kind

abbrev pub memory_backend : Backend Rows (Unit {0})
memory_backend =
    backend_with
      (λ rows prefix name kind. ((cpl_ok, suc (length rows)), (prefix, name, kind) ∷ rows))
      (λ rows prefix name kind. (search_rows rows prefix name kind, rows))

abbrev pub toy_numbers : Numbers ℕ
toy_numbers = record { to_string = λ n. n ∷ []; stod = λ text. none }

abbrev pub detached_state : State ℕ
detached_state = record {
  initialized = false;
  backend = none;
  session = 0;
  locked = false;
  sem_open = false;
  sem_value = 1;
}

abbrev pub ready_state : State ℕ
ready_state = record {
  initialized = true;
  backend = some 7;
  session = 0;
  locked = false;
  sem_open = true;
  sem_value = 1;
}

pub detached_state-IsDetached : IsDetached detached_state
detached_state-IsDetached = record { stopped = refl; no_backend = refl; unlocked = refl }

pub ready_state-IsReady : IsReady ready_state
ready_state-IsReady = record {
  is_attached = record { started = refl; attached = λ e. cc; opened = refl };
  unlocked = refl;
  available = omega arith;
}

-- A document that has relations of one type, between named ends.
pub data Toy : Type 0 where
  name : Text → Toy
  ends : Text → Text → Toy
  used : List (Text × Text) → Toy

abbrev toy_ends : Text × Text → Toy
toy_ends (a, b) = ends a b

abbrev toy_find : Toy → Text → Option Toy
toy_find (name n) key = none
toy_find (ends a b) key = elim (text_eq key (codes "prov:activity")) [
  | true ↦ some (name a)
  | false ↦ elim (text_eq key (codes "prov:entity")) [ true ↦ some (name b) | false ↦ none ]
]
toy_find (used es) key = elim (text_eq key (codes "used")) [ true ↦ some (used es) | false ↦ none ]

abbrev toy_values : Toy → List Toy
toy_values (name n) = name n ∷ []
toy_values (ends a b) = name a ∷ name b ∷ []
toy_values (used es) = map toy_ends es

abbrev toy_string : Toy → Option Text
toy_string (name n) = some n
toy_string (ends a b) = none
toy_string (used es) = none

abbrev toy_kind : Toy → Kind
toy_kind (name n) = string
toy_kind (ends a b) = object
toy_kind (used es) = object

abbrev pub chain : Toy
chain = used ((codes "b", codes "a") ∷ (codes "c", codes "b") ∷ [])

abbrev pub cycle : Toy
cycle = used ((codes "a", codes "b") ∷ (codes "b", codes "a") ∷ [])

-- A text is JSON if it is not empty: of one byte the chain, of two the cycle, of more a name.
abbrev toy_parse : Text → Option Toy
toy_parse [] = none
toy_parse (c ∷ []) = some chain
toy_parse (c ∷ d ∷ []) = some cycle
toy_parse (c ∷ d ∷ e ∷ text) = some (name text)

abbrev pub toy_lib : JsonLib Toy ℕ
toy_lib = record {
  parse = toy_parse;
  equals_null = λ j. false;
  empty = λ j. false;
  kind = toy_kind;
  items = λ j. [];
  values = toy_values;
  find = toy_find;
  get_string = toy_string;
  get_float = λ j. 0;
  get_bool = λ j. false;
}

-- A sort that decides by excluded middle whether there is a cycle.
abbrev decided : {P : Type 0} → Dec P → Bool
decided (yes p) = true
decided (no q) = false

pub decided_iff : {P : Type 0} (d : Dec P) → (decided d ≡ true) ↔ P
decided_iff (yes p) = ((λ e. p), (λ q. refl))
decided_iff (no q) = ((λ e. cc), (λ p. absurd (q p)))

abbrev pub classical_sort : TopologicalSort
classical_sort = record {
  sorts = λ n es. decided (lem (IsAcyclic es) hlevel);
  sorts_iff = λ n es. decided_iff (lem (IsAcyclic es) hlevel);
}
