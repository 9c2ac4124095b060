-- ===== src/Prelude/Strings.antt =====
-- Text as the list of its bytes. C strings and `std::string` are both read so.
use Prim.Native.Nat.{ℕ}
use Prim.Native.Char.{code}
use Prim.Native.String.{String}
use mathlib.Core.Path.{◌≡◌, refl}
use mathlib.Core.Logic.{◌↔◌}
use mathlib.Core.Bool.{Bool, true, false, ◌&&◌}
use mathlib.Core.List.{List, [], ◌∷◌}
use native.Mathlib.Omega.{arith}
use prov_cpl.Prelude.Tests.{◌==◌}

abbrev pub Text : Type 0
Text = List ℕ

-- The bytes of an ASCII literal.
abbrev pub codes : String → Text
codes String.[] = []
codes (String.◌∷◌ c s) = code c ∷ codes s

-- `operator==` of `std::string`, and `strcmp(a, b) == 0`.
unfoldable pub text_eq : Text → Text → Bool
text_eq [] [] = true
text_eq [] (b ∷ s) = false
text_eq (a ∷ r) [] = false
text_eq (a ∷ r) (b ∷ s) = a == b && text_eq r s

pub text_eq_iff : (r s : Text) → (text_eq r s ≡ true) ↔ (r ≡ s)
unfolding text_eq
text_eq_iff [] [] = ground arith
text_eq_iff [] (b ∷ s) = ground arith
text_eq_iff (a ∷ r) [] = ground arith
text_eq_iff (a ∷ r) (b ∷ s) = ground (arith, text_eq_iff r s)

pub text_eq_refl : (s : Text) → text_eq s s ≡ true
text_eq_refl s = (text_eq_iff s s).1 refl
