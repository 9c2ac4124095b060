-- ===== src/Document/Json/Laws.antt =====
-- What the exports rely on in the JSON library, and what an assignment two levels deep comes to.
use prov_cpl.Prelude.{
  Text, Bool-cases, Option-cases, none, some, if◌then◌else◌, ◌≡◌, ◌⊎◌, inl, inr, text_eq,
  text_eq_refl, text_eq_iff, arith, refl, ◌∙◌,
}
use prov_cpl.Document.Json.{JsonLib, JsonMaker, null, object}
use prov_cpl.Document.Export.Objects.{assign_under, or_unset}

module _ {Json Double : Type 0} (lib : JsonLib Json Double) (maker : JsonMaker Json Double) where
  -- A value that has keys or may get some.
  abbrev pub IsContainer : Json → Type 0
  IsContainer j = (lib.kind j ≡ object) ⊎ (lib.kind j ≡ null)

  -- The documented behaviour of `operator[]` on a value that nothing was assigned to, which is null, on
  -- null, which becomes an object, and on an object.
  pub record Assigns : Type 0 where
    pub unset_null : lib.kind maker.unset ≡ null
    pub find_unset : (key : Text) → lib.find maker.unset key ≡ none
    pub assigns :
        (j : Json) (key : Text) (v : Json)
        → IsContainer j
        → (j' : Json) × (maker.assign j key v ≡ some j')
    pub makes_object :
        (j : Json) (key : Text) (v j' : Json)
        → maker.assign j key v ≡ some j'
        → lib.kind j' ≡ object
    pub find_assign :
        (j : Json) (key : Text) (v j' : Json) (other : Text)
        → maker.assign j key v ≡ some j'
        → lib.find j' other ≡ (if text_eq key other then some v else lib.find j other)

  -- The value `document[key][name]`.
  abbrev pub HasEntry : Text → Text → Json → Json → Type 0
  HasEntry key name value document =
      (entries : Json) × (lib.find document key ≡ some entries)
      × (lib.find entries name ≡ some value)

  -- A document that is built up by assignments two levels deep.
  pub record IsDocument (document : Json) : Type 0 where
    pub container : IsContainer document
    pub containers :
        (key : Text) (entries : Json) → lib.find document key ≡ some entries → IsContainer entries

  module _ (laws : Assigns) where
    or_unset-IsContainer :
        (document : Json) (key : Text)
        → IsDocument document
        → IsContainer (or_unset lib maker (lib.find document key))
    or_unset-IsContainer document key h = elim (Option-cases (lib.find document key)) [
      | inl missing ↦ rw missing (inr laws.unset_null)
      | inr (entries, e) ↦ rw e (h.containers key entries e)
    ]

    pub unset-IsDocument : IsDocument maker.unset
    unset-IsDocument = record {
      container = inr laws.unset_null;
      containers = λ key entries e. let n = laws.find_unset key in cc;
    }

    -- The two assignments.
    assign_under-steps :
        (key name : Text) (value document document' : Json)
        → assign_under lib maker key name value document ≡ some document'
        → (entries : Json) × (maker.assign (or_unset lib maker (lib.find document key)) name value
            ≡ some entries)
          × (maker.assign document key entries ≡ some document')
    unfolding assign_under
    assign_under-steps key name value document document' e =
        elim (Option-cases (maker.assign (or_unset lib maker (lib.find document key)) name value)) [
          | inl missing ↦ absurd (ground arith)
          | inr (entries, made) ↦ (entries, made, ground arith)
        ]

    -- The entry is there afterwards.
    pub assign_under-HasEntry :
        (key name : Text) (value document document' : Json)
        → assign_under lib maker key name value document ≡ some document'
        → HasEntry key name value document'
    assign_under-HasEntry key name value document document' e =
        let (entries, inner, outer) = assign_under-steps key name value document document' e in
        (
          entries,
          laws.find_assign document key entries document' key outer ∙ rw (text_eq_refl key) refl,
          laws.find_assign (or_unset lib maker (lib.find document key)) name value entries name
                inner
              ∙ rw (text_eq_refl name) refl,
        )

    -- Other entries stay, and so does this one, with another value.
    pub assign_under-keeps :
        (key name : Text) (value document document' : Json) (k n : Text) (v : Json)
        → assign_under lib maker key name value document ≡ some document'
        → HasEntry k n v document
        → (v' : Json) × HasEntry k n v' document'
    assign_under-keeps key name value document document' k n v e h =
        let (entries, inner, outer) = assign_under-steps key name value document document' e in
        let there = laws.find_assign document key entries document' k outer in
        let within =
          laws.find_assign (or_unset lib maker (lib.find document key)) name value entries n
            inner in
        elim (Bool-cases (text_eq key k)) [
          | inr other ↦ (v, (h.0, there ∙ rw other h.1, h.2))
          | inl same ↦ elim (Bool-cases (text_eq name n)) [
            | inl again ↦ (value, (entries, there ∙ rw same refl, within ∙ rw again refl))
            | inr beside ↦
                let key_eq = (text_eq_iff key k).0 same in
                let old : lib.find (or_unset lib maker (lib.find document key)) n ≡ some v =
                  rw (key_eq, h.1) h.2 in
                (v, (entries, there ∙ rw same refl, within ∙ rw beside old))
          ]
        ]

    -- A document can be assigned to, and stays one.
    pub assign_under-IsDocument :
        (key name : Text) (value document : Json)
        → IsDocument document
        → (document' : Json) × (assign_under lib maker key name value document ≡ some document')
          × IsDocument document'
    unfolding assign_under
    assign_under-IsDocument key name value document h =
        let (entries, inner) =
          laws.assigns (or_unset lib maker (lib.find document key)) name value
            (or_unset-IsContainer document key h) in
        let (document', outer) = laws.assigns document key entries h.container in
        let filled =
          laws.makes_object (or_unset lib maker (lib.find document key)) name value entries inner in
        (
          document',
          rw inner outer,
          record {
            container = inl (laws.makes_object document key entries document' outer);
            containers = λ k es e.
                let there = laws.find_assign document key entries document' k outer in
                elim (Bool-cases (text_eq key k)) [
                  | inl same ↦ inl cc
                  | inr other ↦ h.containers k es cc
                ];
          },
        )
