-- ===== src/Text/Width.antt =====
-- How many bytes a printed number takes.
use fz_server.Prelude.{
  ℕ, zero, suc, ◌+◌, ◌*◌, ◌/◌, ◌%◌, ◌≤◌, ◌<◌, ◌∷◌, [], arith, ltb, Bool-cases, inl, inr, length,
}
use fz_server.Prelude.Int.{ℤ, pos, negsuc}
use fz_server.Memory.{Bytes}
use fz_server.Text.Decimal.{digits_onto, show_nat, show_int}

abbrev pub ten_to : ℕ → ℕ
ten_to zero = 1
ten_to (suc k) = 10 * ten_to k

digits_onto-width :
    (fuel n k : ℕ) (tail : Bytes)
    → n < 10 * ten_to k
    → length (digits_onto fuel n tail) ≤ suc k + length tail
unfolding digits_onto
digits_onto-width zero n k tail h = omega arith
digits_onto-width (suc fuel) n zero tail h =
    let small : n < 10 = omega (arith, h) in ground (arith, small)
digits_onto-width (suc fuel) n (suc k) tail h = elim (Bool-cases (ltb n 10)) [
  | inl small ↦ rw small (omega arith)
  | inr big ↦
      rw big
        (omega (arith, digits_onto-width fuel (n / 10) k ((48 + n % 10) ∷ tail) (omega (arith, h))))
]

pub show_nat-width : (n k : ℕ) → n < 10 * ten_to k → length (show_nat n) ≤ suc k
unfolding show_nat
show_nat-width n k h = omega (arith, digits_onto-width (suc n) n k [] h)

-- A number of at most k digits and a sign.
abbrev pub IsShort : ℕ → ℤ → Type 0
IsShort k (pos n) = n < 10 * ten_to k
IsShort k (negsuc n) = suc n < 10 * ten_to k

pub show_int-width : (z : ℤ) (k : ℕ) → IsShort k z → length (show_int z) ≤ suc (suc k)
unfolding show_int
show_int-width (pos n) k h = omega (arith, show_nat-width n k h)
show_int-width (negsuc n) k h = omega (arith, show_nat-width (suc n) k h)
