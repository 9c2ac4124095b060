-- ===== src/Document/Tokens/Laws.antt =====
-- Splitting a name undoes joining one, where it does.
use prov_cpl.Prelude.{ℕ, Text, [], ◌∷◌, ◌++◌, text_eq, text_eq_iff, ◌≡◌, ◌≢◌, refl, arith, All}
use prov_cpl.Document.Tokens.{getline, name_to_tokens, full_name, colon, newline}

-- A text without a byte.
abbrev pub Without : ℕ → Text → Type 0
Without c = All (λ b. b ≢ c)

getline-append : (d : ℕ) (s rest : Text) → Without d s → getline d (s ++ d ∷ rest) ≡ (s, rest)
unfolding getline
getline-append d [] rest h = ground arith
getline-append d (c ∷ s) rest h = ground (arith, getline-append d s rest h.1)

getline_all : (d : ℕ) (s : Text) → Without d s → getline d s ≡ (s, [])
unfolding getline
getline_all d [] h = refl
getline_all d (c ∷ s) h = ground (arith, getline_all d s h.1)

split_at_colon :
    (left right : Text)
    → Without colon left
    → Without newline right
    → right ≢ []
    → name_to_tokens (left ++ colon ∷ right) ≡ (left, right)
unfolding name_to_tokens
split_at_colon left right hl hr ne =
    ground (
      arith,
      getline-append colon left right hl,
      getline_all newline right hr,
      text_eq_iff right [],
    )

no_colon : (name : Text) → Without colon name → name_to_tokens name ≡ ([], name)
unfolding name_to_tokens getline text_eq
no_colon name h = rw (getline_all colon name h)

-- A prefix without a colon and a name of one line come back from the name that the exports write,
-- if the name is not empty, and has no colon in case the prefix is empty.
pub name_to_tokens-full_name :
    (prefix name : Text)
    → Without colon prefix
    → Without newline name
    → name ≢ []
    → (prefix ≡ [] → Without colon name)
    → name_to_tokens (full_name prefix name) ≡ (prefix, name)
unfolding full_name text_eq
name_to_tokens-full_name [] name hp hn ne hc = no_colon name (hc refl)
name_to_tokens-full_name (c ∷ prefix) name hp hn ne hc = split_at_colon (c ∷ prefix) name hp hn ne

-- A name with a colon and without a prefix does not come back: what stands before its first colon is
-- taken for the prefix, unless nothing stands behind it.
pub name_to_tokens_stray_colon :
    (left right : Text)
    → Without colon left
    → Without newline right
    → right ≢ []
    → name_to_tokens (full_name [] (left ++ colon ∷ right)) ≡ (left, right)
unfolding full_name text_eq
name_to_tokens_stray_colon left right hl hr ne = split_at_colon left right hl hr ne
