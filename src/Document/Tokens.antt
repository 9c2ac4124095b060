-- ===== src/Document/Tokens.antt =====
-- Names with a prefix: `name_to_tokens`, and the way in which the exports join the two parts.
pub mod Laws
use prov_cpl.Prelude.{ℕ, ◌==◌, Text, codes, List, [], ◌∷◌, ◌++◌, if◌then◌else◌, Bool, text_eq, not}

-- `std::getline(stream, token, delim)`: the token, and what the stream has left behind the
-- delimiter. At the end of the stream the token is empty.
unfoldable pub getline : ℕ → Text → Text × Text
getline delim [] = ([], [])
getline delim (c ∷ rest) =
    let (token, left) = getline delim rest in if c == delim then ([], rest) else (c ∷ token, left)

abbrev pub colon : ℕ
colon = b':'

abbrev pub newline : ℕ
newline = 10

-- The second `getline` has the default delimiter, the newline.
unfoldable pub name_to_tokens : Text → Text × Text
unfolding getline
name_to_tokens name_string =
    let (tok1, left) = getline colon name_string in
    let (tok2, _) = getline newline left in if text_eq tok2 [] then ([], tok1) else (tok1, tok2)

-- `full_obj_name` and `full_prop_name` of the exports.
unfoldable pub full_name : Text → Text → Text
full_name prefix name = if not (text_eq prefix []) then prefix ++ colon ∷ name else prefix ++ name
