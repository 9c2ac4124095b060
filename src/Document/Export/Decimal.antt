-- ===== src/Document/Export/Decimal.antt =====
-- `std::to_string` of a `cpl_id_t`, an unsigned number of 64 bits: its decimal digits.
use prov_cpl.Prelude.{
  ℕ, zero, suc, ◌+◌, ◌*◌, ◌/◌, ◌%◌, ◌-◌, ◌^◌, ◌<◌, ltb, if◌then◌else◌, Text, [], Bool-cases, inl,
  inr, ◌∷◌, ◌≡◌, arith,
}
use native.Mathlib.Nat.{pow-suc}

-- The digits of `n` in front of those that are there, for at most `fuel` digits.
unfoldable pub digits : ℕ → ℕ → Text → Text
digits zero n text = text
digits (suc fuel) n text =
    let rest = digits fuel (n / 10) ((b'0' + n % 10) ∷ text) in
    if ltb n 10 then (b'0' + n % 10) ∷ text else rest

-- A number of 64 bits has at most 20 digits.
unfoldable pub to_string : ℕ → Text
unfolding digits
to_string n = digits 20 n []

-- The number that decimal digits stand for, behind those that were read.
abbrev pub read_digits : ℕ → Text → ℕ
read_digits n [] = n
read_digits n (c ∷ text) = read_digits (n * 10 + (c - b'0')) text

read_digits-digits :
    (fuel n : ℕ) (text : Text)
    → n < 10 ^ fuel
    → 0 < fuel
    → read_digits 0 (digits fuel n text) ≡ read_digits n text
unfolding digits
read_digits-digits zero n text h f = absurd (omega arith)
read_digits-digits (suc zero) n text h f = ground arith
read_digits-digits (suc (suc fuel)) n text h f =
    let p = pow-suc 10 (suc fuel) in
    let ih = read_digits-digits (suc fuel) (n / 10) ((b'0' + n % 10) ∷ text) in
    elim (Bool-cases (ltb n 10)) [ inl small ↦ ground arith | inr large ↦ ground arith ]

-- The text of an identifier of 64 bits is read back as that identifier, so that two of them have
-- two texts.
pub read_digits-to_string : (n : ℕ) → n < 2 ^ 64 → read_digits 0 (to_string n) ≡ n
unfolding to_string
read_digits-to_string n h = read_digits-digits 20 n [] (omega arith) (omega arith)
