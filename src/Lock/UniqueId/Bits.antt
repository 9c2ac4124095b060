-- ===== src/Lock/UniqueId/Bits.antt =====
-- `|` of two numbers of which one ends in zeros where the other has its digits, and `&` with a mask of
-- ones.
use Prim.Native.Nat.{max, digits, bit_or, bit_or-bitwise}
use native.Mathlib.Nat.{pow-suc}
use prov_cpl.Prelude.{ℕ, zero, suc, ◌+◌, ◌*◌, ◌/◌, ◌^◌, ◌≤◌, ◌<◌, ◌≡◌, refl, ap, arith}

half_field : (q k : ℕ) → q * 2 ^ suc k ≡ 2 * (q * 2 ^ k)
half_field q k = omega (arith, ap (λ (t : ℕ). q * t) (pow-suc 2 k))

-- The digits of `a` are above those of `b`.
digits_above :
    (fuel k q a b : ℕ) → a ≡ q * 2 ^ k → a ≤ fuel → b < 2 ^ k → digits (λ y. y) max fuel a b ≡ a + b
digits_above zero k q a b e f h = omega arith
digits_above (suc fuel) k q zero b e f h = omega arith
digits_above (suc fuel) zero q (suc a) b e f h = omega (
  arith,
  digits_above fuel zero (suc a / 2) (suc a / 2) (b / 2) (omega arith) (omega arith) (omega arith),
)
digits_above (suc fuel) (suc k) q (suc a) b e f h =
    let half = half_field q k in
    omega (
      arith,
      half,
      digits_above fuel k q (suc a / 2) (b / 2) (omega (arith, half)) (omega arith)
          (omega (arith, pow-suc 2 k)),
    )

-- The digits of `a` are below those of `b`.
digits_below :
    (fuel k q a b : ℕ) → b ≡ q * 2 ^ k → a ≤ fuel → a < 2 ^ k → digits (λ y. y) max fuel a b ≡ a + b
digits_below zero k q a b e f h = omega arith
digits_below (suc fuel) k q zero b e f h = omega arith
digits_below (suc fuel) zero q (suc a) b e f h = absurd (omega arith)
digits_below (suc fuel) (suc k) q (suc a) b e f h =
    let half = half_field q k in
    omega (
      arith,
      half,
      digits_below fuel k q (suc a / 2) (b / 2) (omega (arith, half)) (omega arith)
          (omega (arith, pow-suc 2 k)),
    )

pub bit_or_above : (k q b : ℕ) → b < 2 ^ k → bit_or (q * 2 ^ k) b ≡ q * 2 ^ k + b
bit_or_above k q b h =
    simp bit_or-bitwise (digits_above (q * 2 ^ k) k q (q * 2 ^ k) b refl (omega arith) h)

pub bit_or_below : (k q a : ℕ) → a < 2 ^ k → bit_or a (q * 2 ^ k) ≡ a + q * 2 ^ k
bit_or_below k q a h = simp bit_or-bitwise (digits_below a k q a (q * 2 ^ k) refl (omega arith) h)
