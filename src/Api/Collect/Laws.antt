-- ===== src/Api/Collect/Laws.antt =====
-- What the collecting callbacks gather from a delivery of rows.
use mathlib.Core.List.{map-id}
use prov_cpl.Prelude.{
  subst, ℤ, Text, codes, text_eq, List, [], ◌∷◌, ◌++◌, map, append-nil, append_assoc, Bool, true,
  false, Option, some, ◌≡◌, ◌≢◌, refl, sym, ◌∙◌, ap, arith, All, All-imp, not, if◌then◌else◌,
}
use prov_cpl.Codes.{cpl_ok, cpl_is_ok, stringproperty, numericalproperty, booleanproperty}
use prov_cpl.Api.Backend.{ObjectInfo, IdTimestamp, Relation, Property, PrefixEntry}
use prov_cpl.Api.Numbers.{Numbers, bool_to_string}
use prov_cpl.Api.Collect.{
  Reply, replied, threw, undefined, cpl_cb_collect_object_info_vector,
  cpl_cb_collect_id_timestamp_vector, cpl_cb_collect_relation_list, cpl_cb_collect_relation_vector,
  cpl_cb_collect_prefixes_vector, PropertyEntry, strings, numericals, booleans,
  cpl_cb_collect_properties_vector,
}
use prov_cpl.Odbc.Delivery.{proceed, each, deliver}

-- A callback that adds the item a row was made from to a context made from a list.
module _ {E A Ctx : Type 0} (callback : E → Ctx → Reply Ctx) (made : List A → Ctx)
    (row : A → E) where
  abbrev Adds : A → Type 0
  Adds a = (l : List A) → callback (row a) (made l) ≡ replied cpl_ok (made (l ++ a ∷ []))

  each-Adds :
      (items l : List A)
      → All Adds items
      → each (map row items) callback (made l) ≡ replied cpl_ok (made (l ++ items))
  unfolding each
  each-Adds [] l h = ap (λ k. replied cpl_ok (made k)) (sym (append-nil l))
  each-Adds (a ∷ items) l h = rw (h.0 l) (
      each-Adds items (l ++ a ∷ []) h.1
      ∙ ap (λ k. replied cpl_ok (made k)) (append_assoc l (a ∷ []) items))

  pub deliver-Adds :
      (empty : ℤ) (items l : List A)
      → items ≢ []
      → All Adds items
      → deliver empty (map row items) (some callback) (made l) ≡ replied cpl_ok (made (l ++ items))
  unfolding deliver
  deliver-Adds empty [] l ne h = absurd (ne refl)
  deliver-Adds empty (a ∷ items) l ne h = each-Adds (a ∷ items) l h

All-of : {A : Type 0} (P : A → Type 0) → ((a : A) → P a) → (xs : List A) → All P xs
All-of P f [] = tt
All-of P f (x ∷ xs) = (f x, All-of P f xs)

-- A callback that adds the row itself to the list.
gathers :
    {E : Type 0} (callback : E → Option (List E) → Reply (Option (List E)))
    → ((e : E) (l : List E) → callback e (some l) ≡ replied cpl_ok (some (l ++ e ∷ [])))
    → (empty : ℤ) (rows l : List E) → rows ≢ []
    → deliver empty rows (some callback) (some l) ≡ replied cpl_ok (some (l ++ rows))
gathers callback h empty rows l ne =
    subst (λ k. deliver empty k (some callback) (some l) ≡ replied cpl_ok (some (l ++ rows)))
      (map-id rows) (deliver-Adds callback some (λ e. e) empty rows l ne (All-of _ h rows))

-- Rows that are handed to a collecting callback for objects, times, relations or prefixes stand
-- behind those that its list had, in their order, and the call succeeds.
pub deliver_rows :
    (empty : ℤ) (objects : List ObjectInfo) (times : List IdTimestamp) (relations : List Relation)
    (prefixes : List PrefixEntry) (o : List ObjectInfo) (t : List IdTimestamp) (r : List Relation)
    (p : List PrefixEntry)
    → objects ≢ []
    → times ≢ []
    → relations ≢ []
    → prefixes ≢ []
    → (deliver empty objects (some cpl_cb_collect_object_info_vector) (some o)
        ≡ replied cpl_ok (some (o ++ objects)))
      × (deliver empty times (some cpl_cb_collect_id_timestamp_vector) (some t)
          ≡ replied cpl_ok (some (t ++ times)))
      × (deliver empty relations (some cpl_cb_collect_relation_list) (some r)
          ≡ replied cpl_ok (some (r ++ relations)))
      × (deliver empty relations (some cpl_cb_collect_relation_vector) (some r)
          ≡ replied cpl_ok (some (r ++ relations)))
      × (deliver empty prefixes (some cpl_cb_collect_prefixes_vector) (some p)
          ≡ replied cpl_ok (some (p ++ prefixes)))
unfolding cpl_cb_collect_object_info_vector cpl_cb_collect_id_timestamp_vector
    cpl_cb_collect_relation_list cpl_cb_collect_relation_vector cpl_cb_collect_prefixes_vector
deliver_rows empty objects times relations prefixes o t r p ho ht hr hp = (
  gathers cpl_cb_collect_object_info_vector (λ e k. refl) empty objects o ho,
  gathers cpl_cb_collect_id_timestamp_vector (λ e k. refl) empty times t ht,
  gathers cpl_cb_collect_relation_list (λ e k. refl) empty relations r hr,
  gathers cpl_cb_collect_relation_vector (λ e k. refl) empty relations r hr,
  gathers cpl_cb_collect_prefixes_vector (λ e k. refl) empty prefixes p hp,
)

-- The row that a stored property comes back as: its text, and the type that it was stored with.
abbrev pub stored : {V : Type 0} → (V → Text) → ℤ → PropertyEntry V → Property
stored text kind e = record {
  id = e.id;
  prefix = e.prefix;
  key = e.key;
  value = text e.value;
  kind = kind;
}

boolean_back : (b : Bool) → text_eq (bool_to_string b) (codes "1") ≡ b
unfolding bool_to_string text_eq
boolean_back true = refl
boolean_back false = refl

module _ {Double : Type 0} (numbers : Numbers Double) where
  boolean_added :
      (e : PropertyEntry Bool) (l : List (PropertyEntry Bool))
      → cpl_cb_collect_properties_vector numbers
          (stored bool_to_string booleanproperty e)
          (some (booleans l))
        ≡ replied cpl_ok (some (booleans (l ++ e ∷ [])))
  unfolding cpl_cb_collect_properties_vector
  boolean_added e l = rw (boolean_back e.value) refl

  numerical_added :
      (e : PropertyEntry Double)
      → numbers.stod (numbers.to_string e.value) ≡ some e.value
      → (l : List (PropertyEntry Double))
      → cpl_cb_collect_properties_vector numbers
          (stored numbers.to_string numericalproperty e)
          (some (numericals l))
        ≡ replied cpl_ok (some (numericals (l ++ e ∷ [])))
  unfolding cpl_cb_collect_properties_vector
  numerical_added e h l = rw h refl

  -- Boolean properties, written as the texts that they are stored as, are collected with the values
  -- that they were stored with, in order, behind those that the vector had.
  pub deliver_booleans :
      (empty : ℤ) (items l : List (PropertyEntry Bool))
      → items ≢ []
      → deliver empty
          (map (stored bool_to_string booleanproperty) items)
          (some (cpl_cb_collect_properties_vector numbers))
          (some (booleans l))
        ≡ replied cpl_ok (some (booleans (l ++ items)))
  deliver_booleans empty items l ne =
      deliver-Adds _ (λ k. some (booleans k)) _ empty items l ne (All-of _ boolean_added items)

  -- Numerical properties are collected with the values that they were stored with, in order, behind
  -- those that the vector had, if `std::stod` reads each value back from its text.
  pub deliver_numericals :
      (empty : ℤ) (items l : List (PropertyEntry Double))
      → items ≢ []
      → All (λ e. numbers.stod (numbers.to_string e.value) ≡ some e.value) items
      → deliver empty
          (map (stored numbers.to_string numericalproperty) items)
          (some (cpl_cb_collect_properties_vector numbers))
          (some (numericals l))
        ≡ replied cpl_ok (some (numericals (l ++ items)))
  deliver_numericals empty items l ne h =
      deliver-Adds _ (λ k. some (numericals k)) _ empty items l ne
        (All-imp _ _ numerical_added items h)

  -- String properties are collected with the texts that they were stored with, in order, behind those
  -- that the vector had.
  pub deliver_strings :
      (empty : ℤ) (items l : List (PropertyEntry Text))
      → items ≢ []
      → deliver empty
          (map (stored (λ v. v) stringproperty) items)
          (some (cpl_cb_collect_properties_vector numbers))
          (some (strings l))
        ≡ replied cpl_ok (some (strings (l ++ items)))
  unfolding cpl_cb_collect_properties_vector
  deliver_strings empty items l ne =
      deliver-Adds _ (λ k. some (strings k)) _ empty items l ne (All-of _ (λ e k. refl) items)

under_if :
    {A : Type 0} (b : Bool) (x y z w : A)
    → (y ≡ w → z ≡ w)
    → (if b then x else y) ≡ w
    → (if b then x else z) ≡ w
under_if true x y z w f h = h
under_if false x y z w f h = f h

-- The same of the loop alone.
module _ {E Ctx : Type 0} (callback : E → Ctx → Reply Ctx) where
  after_stops :
      (rows more : List E) (r : Reply Ctx) (d : Ctx) (code : ℤ)
      → ((c : Ctx)
          → each rows callback c ≡ replied code d
          → each (rows ++ more) callback c ≡ replied code d)
      → proceed r (each rows callback) ≡ replied code d
      → proceed r (each (rows ++ more) callback) ≡ replied code d
  after_stops rows more (replied x c) d code ih h = under_if (not (cpl_is_ok x)) _ _ _ _ (ih c) h
  after_stops rows more threw d code ih h = h
  after_stops rows more undefined d code ih h = h

  each_stops :
      (rows more : List E) (c d : Ctx) (code : ℤ)
      → each rows callback c ≡ replied code d
      → cpl_is_ok code ≡ false
      → each (rows ++ more) callback c ≡ replied code d
  unfolding each
  each_stops [] more c d code h bad = ground arith
  each_stops (e ∷ rows) more c d code h bad =
      after_stops rows more (callback e c) d code (λ k g. each_stops rows more k d code g bad) h

-- A delivery ends at the first row whose callback fails: with more rows behind it the code and the
-- context are the same.
pub deliver_stops :
    {E Ctx : Type 0} (empty : ℤ) (callback : E → Ctx → Reply Ctx) (e : E) (rows more : List E)
    (c d : Ctx) (code : ℤ)
    → deliver empty (e ∷ rows) (some callback) c ≡ replied code d
    → cpl_is_ok code ≡ false
    → deliver empty ((e ∷ rows) ++ more) (some callback) c ≡ replied code d
unfolding deliver
deliver_stops empty callback e rows more c d code h bad =
    each_stops callback (e ∷ rows) more c d code h bad
