-- ===== src/Ini/Values.antt =====
-- `Value`: a text that is assigned from and read as a bool, an int or a string. A double is printed and
-- read by the library.
use fz_server.Prelude.{
  ℕ, zero, suc, ◌+◌, ◌/◌, ◌%◌, ◌≡◌, ◌≢◌, refl, inl, inr, Bool, true, false, [], ◌∷◌, append-nil,
  none, some, arith, ltb, if◌then◌else◌, Bool-cases,
}
use fz_server.Prelude.Int.{ℤ, pos, negsuc}
use fz_server.Memory.{Bytes}
use fz_server.Text.{bytes, equals, span, c_string, skip_spaces, is_space}
use fz_server.Text.Decimal.{digits_onto, show_nat, show_int, scan_int, scan_int-show_int}
use fz_server.Map.{equals_iff}

unfoldable pub of_bool : Bool → Bytes
of_bool value = if value then bytes "true" else bytes "false"

unfoldable pub of_int : ℤ → Bytes
of_int value = show_int value

unfoldable pub to_bool : Bytes → Bool
to_bool text = equals text (bytes "true")

-- `atoi`: 0 where no number stands. A number that does not fit an int is undefined there, and is itself here.
unfoldable pub to_int : Bytes → ℤ
unfolding skip_spaces c_string scan_int
to_int text = elim (scan_int (skip_spaces (c_string text))) [ none ↦ pos 0 | some n ↦ n ]

-- Neither the end of a C string nor a space.
abbrev Plain : Bytes → Type 0
Plain [] = Unit {0}
Plain (c ∷ cs) = (c ≢ 0) × (is_space c ≡ false) × Plain cs

Plain-digits_onto : (fuel n : ℕ) (tail : Bytes) → Plain tail → Plain (digits_onto fuel n tail)
unfolding digits_onto
Plain-digits_onto zero n tail h = h
Plain-digits_onto (suc fuel) n tail h = elim (Bool-cases (ltb n 10)) [
  | inl small ↦ rw small (omega arith, ground arith, h)
  | inr big ↦
      rw big (Plain-digits_onto fuel (n / 10) ((48 + n % 10) ∷ tail) (omega arith, ground arith, h))
]

Plain-show_int : (z : ℤ) → Plain (show_int z)
unfolding show_int show_nat
Plain-show_int (pos n) = Plain-digits_onto (suc n) n [] tt
Plain-show_int (negsuc n) = (omega arith, refl, Plain-digits_onto (suc (suc n)) (suc n) [] tt)

c_string-Plain : (s : Bytes) → Plain s → c_string s ≡ s
unfolding c_string span
c_string-Plain [] h = refl
c_string-Plain (c ∷ cs) h = ground (arith, c_string-Plain cs h.2)

skip_spaces-Plain : (s : Bytes) → Plain s → skip_spaces s ≡ s
unfolding skip_spaces span
skip_spaces-Plain [] h = refl
skip_spaces-Plain (c ∷ cs) h = ground (arith, h.1)

-- A value that is given a number converts back to that number, and one that is given a truth
-- value converts back to that truth value.
pub to_int-of_int : (n : ℤ) (b : Bool) → (to_int (of_int n) ≡ n) × (to_bool (of_bool b) ≡ b)
unfolding to_int of_int to_bool of_bool equals
to_int-of_int n b = (number, truth b)
  where
    number : elim (scan_int (skip_spaces (c_string (show_int n)))) [ none ↦ pos 0 | some m ↦ m ] ≡ n
    number = rw (
      c_string-Plain (show_int n) (Plain-show_int n),
      skip_spaces-Plain (show_int n) (Plain-show_int n),
      ← append-nil (show_int n),
      scan_int-show_int n [] refl,
    )

    truth : (b : Bool) → equals (if b then bytes "true" else bytes "false") (bytes "true") ≡ b
    truth true = (equals_iff (bytes "true") (bytes "true")).1 refl
    truth false = refl
