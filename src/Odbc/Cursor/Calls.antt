-- ===== src/Odbc/Cursor/Calls.antt =====
-- The rows that a call reads, from its statement to the caller's callback.
use prov_cpl.Prelude.{
  ℕ, ℤ, pos, Text, map, ltb_ℤ, ◌∙◌, false, Bool, true, Bool-cases, inl, inr, Option, some, List, [],
  ◌∷◌, ◌++◌, ◌≡◌, refl, sym, subst, ap, if◌then◌else◌, eq_ℤ,
}
use prov_cpl.Codes.{cpl_is_ok, cpl_s_no_data, cpl_d_ancestors}
use prov_cpl.Api.Backend.{Iterator, ObjectInfo, Relation}
use prov_cpl.Odbc.Statements.{
  Statement, get_object_ancestors, get_object_descendants, get_bundle_objects, get_bundle_relations,
}
use prov_cpl.Odbc.Driver.{Driver, Cell, Parameter}
use prov_cpl.Odbc.State.{Odbc, ◌>>=◌, ◌>>◌, pure, stmt_acquire, stmt_release}
use prov_cpl.Odbc.Execute.{bind_id, sql_execute}
use prov_cpl.Odbc.Calls.{iterate, hand_over, give_rows}
use prov_cpl.Odbc.Calls.Objects.{object_row, cpl_odbc_get_bundle_objects}
use prov_cpl.Odbc.Calls.Relations.{
  relation_row, bundle_relation_row, cpl_odbc_get_object_relations, cpl_odbc_get_bundle_relations,
}
use prov_cpl.Odbc.Cursor.{
  Serves, entries_of, walk_cells, walked, relation_cells, bundled, object_cells, listed_object,
  offered, handed,
}
use prov_cpl.Odbc.Cursor.Laws.{collect_rows_all}

-- Handing over rows in two parts: the second is reached exactly if no callback failed in the first,
-- with the context that the first left. The loop ends with `CPL_OK` or with the first code that is
-- not a success.
pub iterate_append :
    {E Ctx : Type 0} (xs ys : List E) (callback : Iterator E Ctx) (context : Ctx)
    → iterate (xs ++ ys) callback context ≡ (
        let (r, between) = iterate xs callback context in
        if cpl_is_ok r then iterate ys callback between else (r, between))
unfolding iterate
iterate_append [] ys callback context = refl
iterate_append (x ∷ xs) ys callback context = elim (Bool-cases (cpl_is_ok (callback x context).0)) [
  | inl e ↦ rw e (iterate_append xs ys callback (callback x context).1)
  | inr e ↦ rw (e, e) refl
]

module _ {E Ctx : Type 0} (callback : Iterator E Ctx) where
  offered_failed :
      (entries : List E) (r : ℤ) (context : Ctx)
      → ltb_ℤ r (pos 0) ≡ true
      → offered entries callback (r, context) ≡ (r, context)
  offered_failed [] r context e = rw e refl
  offered_failed (entry ∷ entries) r context e = rw e (offered_failed entries r context e)

  offered_lem :
      (entries : List E) (r : ℤ) (context : Ctx)
      → ltb_ℤ r (pos 0) ≡ false
      → offered entries callback (r, context) ≡ iterate entries callback context
  unfolding iterate
  offered_lem [] r context e = rw e refl
  offered_lem (entry ∷ entries) r context e =
      let (code, after) = callback entry context in
      rw e (elim (Bool-cases (ltb_ℤ code (pos 0))) [
        | inl failed ↦ rw failed (offered_failed entries code after failed)
        | inr fine ↦ rw fine (offered_lem entries code after fine)
      ])

  hand_over_lem :
      (entries : List E) (context : Ctx)
      → hand_over cpl_s_no_data (some entries) callback context ≡ handed entries callback context
  unfolding hand_over
  hand_over_lem [] context = refl
  hand_over_lem (entry ∷ entries) context = sym (offered_lem (entry ∷ entries) (pos 0) context refl)

-- The statement of a walk.
abbrev pub walk : ℤ → Statement
walk direction =
    if eq_ℤ direction cpl_d_ancestors then get_object_ancestors else get_object_descendants

-- Rows that are read one entry each.
entries_of-map :
    {X E Row : Type 0} (read : Row → List E) (cells : X → Row) (meant : X → E) (xs : List X)
    → ((x : X) → read (cells x) ≡ meant x ∷ [])
    → entries_of read (map cells xs) ≡ map meant xs
entries_of-map read cells meant [] h = refl
entries_of-map read cells meant (x ∷ xs) h = rw (h x, entries_of-map read cells meant xs h) refl

module _ {Conn Timestamp : Type 0} (d : Driver Conn Timestamp) where
  -- The handle that a call takes, and how its statement was executed.
  abbrev pub taken : Statement → Odbc Conn → Option ℕ
  taken name s = (stmt_acquire name s).0

  abbrev pub executed_by : Statement → List Parameter → Odbc Conn → Bool × Odbc Conn
  executed_by name ps s = sql_execute d (taken name s) ps (stmt_acquire name s).1

module _ {Conn Timestamp : Type 0} (d : Driver Conn Timestamp)
    (rows : Option ℕ → Conn → List (List (Cell Timestamp))) where
  -- The rows of the result set.
  abbrev pub results : Statement → List Parameter → Odbc Conn → List (List (Cell Timestamp))
  results name ps s = rows (taken d name s) (executed_by d name ps s).1.conn

  module _ (v : Serves d rows) where
    give_rows_all :
        {E : Type 0} (name : Statement) (stmt : Option ℕ) (columns : ℕ)
        (read : List (Cell Timestamp) → List E) (s : Odbc Conn)
        → (give_rows d name stmt true columns read s).0 ≡ some (entries_of read (rows stmt s.conn))
    unfolding give_rows stmt_release ◌>>=◌ ◌>>◌ pure
    give_rows_all name stmt columns read s = collect_rows_all d read rows v columns stmt s

    call_delivers :
        {E B : Type 0} (name : Statement) (ps : List Parameter) (columns : ℕ)
        (read : List (Cell Timestamp) → List E) (k : Option (List E) → B) (s : Odbc Conn)
        → (executed_by d name ps s).0 ≡ true
        → ((stmt_acquire name >>= λ stmt. sql_execute d stmt ps >>= λ executed.
              give_rows d name stmt executed columns read >>= λ entries. pure (k entries))
            s).0
          ≡ k (some (entries_of read (results name ps s)))
    unfolding ◌>>=◌ pure
    call_delivers name ps columns read k s e =
        let stmt = taken d name s in
        let u = (executed_by d name ps s).1 in
        subst
          (λ b.
            k (give_rows d name stmt b columns read u).0
            ≡ k (some (entries_of read (rows stmt u.conn))))
          (sym e) (ap k (give_rows_all name stmt columns read u))

    -- The same for rows that are known.
    known_rows :
        {X E Ctx : Type 0} (name : Statement) (ps : List Parameter) (columns : ℕ)
        (read : List (Cell Timestamp) → List E) (cells : X → List (Cell Timestamp)) (meant : X → E)
        (xs : List X) (callback : Iterator E Ctx) (c : Ctx) (s : Odbc Conn)
        → ((x : X) → read (cells x) ≡ meant x ∷ [])
        → (executed_by d name ps s).0 ≡ true
        → results name ps s ≡ map cells xs
        → ((stmt_acquire name >>= λ stmt. sql_execute d stmt ps >>= λ executed.
              give_rows d name stmt executed columns read >>= λ entries.
              pure (hand_over cpl_s_no_data entries callback c))
            s).0
          ≡ handed (map meant xs) callback c
    known_rows name ps columns read cells meant xs callback c s h e r =
        call_delivers name ps columns read (λ es. hand_over cpl_s_no_data es callback c) s e
        ∙ ap (λ rs. hand_over cpl_s_no_data (some (entries_of read rs)) callback c) r
        ∙ ap (λ es. hand_over cpl_s_no_data (some es) callback c)
            (entries_of-map read cells meant xs h)
        ∙ hand_over_lem callback (map meant xs) c

    -- Over a driver whose reading does not fail, if the statements of a walk and of the two calls for a
    -- bundle are executed and have these rows, the callback is given what the rows tell, one row after
    -- the other, until it fails; without rows the code is `CPL_S_NO_DATA`.
    pub calls_deliver :
        {Ctx : Type 0} (id : ℕ) (direction flags : ℤ) (objects : Iterator ObjectInfo Ctx)
        (relations : Iterator Relation Ctx) (c : Ctx) (s : Odbc Conn) (steps : List (ℤ × ℤ × ℤ))
        (members : List (ℤ × Timestamp × Text × Text × ℤ)) (links : List (ℤ × ℤ × ℤ × ℤ))
        → (executed_by d (walk direction) (bind_id id ∷ []) s).0 ≡ true
        → results (walk direction) (bind_id id ∷ []) s ≡ map walk_cells steps
        → (executed_by d get_bundle_objects (bind_id id ∷ []) s).0 ≡ true
        → results get_bundle_objects (bind_id id ∷ []) s ≡ map object_cells members
        → (executed_by d get_bundle_relations (bind_id id ∷ []) s).0 ≡ true
        → results get_bundle_relations (bind_id id ∷ []) s ≡ map relation_cells links
        → ((cpl_odbc_get_object_relations d id direction flags relations c s).0
            ≡ handed (map (walked id) steps) relations c)
          × ((cpl_odbc_get_bundle_objects d id objects c s).0
              ≡ handed (map (listed_object d.unix_time) members) objects c)
          × ((cpl_odbc_get_bundle_relations d id relations c s).0
              ≡ handed (map bundled links) relations c)
    unfolding cpl_odbc_get_object_relations cpl_odbc_get_bundle_objects
        cpl_odbc_get_bundle_relations
    calls_deliver id direction flags objects relations c s steps members links e re f rf g rg = (
      known_rows _ _ 3 (relation_row d id) walk_cells (walked id) steps relations c s (λ x. refl) e
          re,
      known_rows _ _ 5 (object_row d) object_cells (listed_object d.unix_time) members objects c s
          (λ x. refl) f rf,
      known_rows _ _ 4 (bundle_relation_row d) relation_cells bundled links relations c s
          (λ x. refl) g rg,
    )
