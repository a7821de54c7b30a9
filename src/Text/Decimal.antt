-- ===== src/Text/Decimal.antt =====
-- Decimal numbers: what `%d` of `sprintf`, `operator<<` on an `int`, `%d` of `sscanf` and `atoi` do.
use fz_server.Prelude.{
  ℕ, zero, suc, ◌+◌, ◌-◌, ◌*◌, ◌/◌, ◌%◌, ◌≤◌, ◌<◌, ◌≡◌, refl, ap, ◌∙◌, inl, inr, Bool, true, false,
  ◌&&◌, ◌||◌, [], ◌∷◌, ◌++◌, Option, none, some, arith, ◌==◌, leb, ltb, if◌then◌else◌, Bool-cases,
}
use fz_server.Prelude.Int.{ℤ, pos, negsuc}
use fz_server.Memory.{Bytes}

abbrev pub is_digit : ℕ → Bool
is_digit c = leb b'0' c && leb c b'9'

-- The digits of n in front of `tail`; the fuel n + 1 is enough.
unfoldable pub digits_onto : ℕ → ℕ → Bytes → Bytes
digits_onto zero n tail = tail
digits_onto (suc fuel) n tail =
    let more = digits_onto fuel (n / 10) ((48 + n % 10) ∷ tail) in
    if ltb n 10 then (48 + n) ∷ tail else more

unfoldable pub show_nat : ℕ → Bytes
unfolding digits_onto
show_nat n = digits_onto (suc n) n []

unfoldable pub show_int : ℤ → Bytes
show_int (pos n) = show_nat n
show_int (negsuc n) = b'-' ∷ show_nat (suc n)

-- The digits that stand in front, onto the number read so far.
unfoldable pub scan_digits : ℕ → Bytes → ℕ
scan_digits n [] = n
scan_digits n (c ∷ cs) =
    let more = scan_digits (n * 10 + (c - 48)) cs in if is_digit c then more else n

abbrev pub starts_digit : Bytes → Bool
starts_digit [] = false
starts_digit (c ∷ cs) = is_digit c

abbrev negate : ℕ → ℤ
negate zero = pos 0
negate (suc n) = negsuc n

-- `%d` behind its leading spaces: a sign, if any, and one digit at least.
unfoldable pub scan_int : Bytes → Option ℤ
scan_int [] = none
scan_int (c ∷ cs) =
    if c == b'-'
    then (if starts_digit cs then some (negate (scan_digits 0 cs)) else none)
    else if c == b'+'
    then (if starts_digit cs then some (pos (scan_digits 0 cs)) else none)
    else if is_digit c
    then some (pos (scan_digits 0 (c ∷ cs)))
    else none

-- `%d` in the middle of a format: the number, and what follows its digits.
drop_digits : Bytes → Bytes
drop_digits [] = []
drop_digits (c ∷ cs) = let rest = drop_digits cs in if is_digit c then rest else c ∷ cs

unsigned : Bytes → Bytes
unsigned [] = []
unsigned (c ∷ cs) = if c == b'-' || c == b'+' then cs else c ∷ cs

unfoldable pub take_int : Bytes → Option (ℤ × Bytes)
unfolding scan_int drop_digits unsigned
take_int s = elim (scan_int s) [ none ↦ none | some z ↦ some (z, drop_digits (unsigned s)) ]

scan_digits-digit :
    (n d : ℕ) (tail : Bytes)
    → d < 10
    → scan_digits n ((48 + d) ∷ tail) ≡ scan_digits (n * 10 + d) tail
unfolding scan_digits
scan_digits-digit n d tail h =
    rw digit (ap (λ k. scan_digits k tail) {y = n * 10 + d} (omega arith))
  where
    digit : is_digit (48 + d) ≡ true
    digit = ground arith

scan_digits-digits_onto :
    (fuel n : ℕ) (tail : Bytes)
    → n < fuel
    → scan_digits 0 (digits_onto fuel n tail) ≡ scan_digits n tail
unfolding digits_onto
scan_digits-digits_onto zero n tail h = absurd (omega arith)
scan_digits-digits_onto (suc fuel) n tail h = elim (Bool-cases (ltb n 10)) [
  | inl small ↦ rw small (
      scan_digits-digit 0 n tail (ground arith)
      ∙ ap (λ k. scan_digits k tail) {y = n} (omega arith))
  | inr big ↦
      let big' : 10 ≤ n = ground arith in
      rw big (
        scan_digits-digits_onto fuel (n / 10) ((48 + n % 10) ∷ tail) (omega arith)
        ∙ scan_digits-digit (n / 10) (n % 10) tail (omega arith)
        ∙ ap (λ k. scan_digits k tail) {y = n} (omega arith))
]

-- What follows a number that is printed and read again: nothing, or a byte that is no digit.
abbrev pub ends_number : Bytes → Bool
ends_number [] = true
ends_number (c ∷ cs) = if is_digit c then false else true

scan_digits-end : (n : ℕ) (tail : Bytes) → ends_number tail ≡ true → scan_digits n tail ≡ n
unfolding scan_digits
scan_digits-end n [] h = refl
scan_digits-end n (c ∷ cs) h = ground arith

-- A number starts with a digit.
digits_onto-starts :
    (fuel n : ℕ) (tail : Bytes)
    → n < fuel
    → (c : ℕ) × (cs : Bytes) × (digits_onto fuel n tail ≡ c ∷ cs) × (is_digit c ≡ true)
unfolding digits_onto
digits_onto-starts zero n tail h = absurd (omega arith)
digits_onto-starts (suc fuel) n tail h = elim (Bool-cases (ltb n 10)) [
  | inl small ↦ rw small (48 + n, tail, refl, ground arith)
  | inr big ↦
      let big' : 10 ≤ n = ground arith in
      rw big (digits_onto-starts fuel (n / 10) ((48 + n % 10) ∷ tail) (omega arith))
]

digits_onto-append :
    (fuel n : ℕ) (front tail : Bytes)
    → digits_onto fuel n front ++ tail ≡ digits_onto fuel n (front ++ tail)
unfolding digits_onto
digits_onto-append zero n front tail = refl
digits_onto-append (suc fuel) n front tail =
    ground (arith, digits_onto-append fuel (n / 10) ((48 + n % 10) ∷ front) tail)

pub scan_digits-show_nat :
    (n : ℕ) (tail : Bytes) → ends_number tail ≡ true → scan_digits 0 (show_nat n ++ tail) ≡ n
unfolding show_nat
scan_digits-show_nat n tail h =
    rw (digits_onto-append (suc n) n [] tail)
      (scan_digits-digits_onto (suc n) n tail (omega arith) ∙ scan_digits-end n tail h)

show_nat-starts :
    (n : ℕ) (tail : Bytes)
    → (c : ℕ) × (cs : Bytes) × (show_nat n ++ tail ≡ c ∷ cs) × (is_digit c ≡ true)
unfolding show_nat
show_nat-starts n tail =
    rw (digits_onto-append (suc n) n [] tail) (digits_onto-starts (suc n) n tail (omega arith))

scan_int-digit :
    (n : ℕ) (s : Bytes) {c : ℕ} {cs : Bytes}
    → s ≡ c ∷ cs
    → is_digit c ≡ true
    → scan_digits 0 s ≡ n
    → scan_int s ≡ some (pos n)
unfolding scan_int
scan_int-digit n s {c} {cs} e digit value = rw e (ground (arith, value, ap (scan_digits 0) e))

scan_int-minus :
    (n : ℕ) (s : Bytes) {c : ℕ} {cs : Bytes}
    → s ≡ c ∷ cs
    → is_digit c ≡ true
    → scan_digits 0 s ≡ suc n
    → scan_int (b'-' ∷ s) ≡ some (negsuc n)
unfolding scan_int
scan_int-minus n s {c} {cs} e digit value = rw value (rw e (rw digit))

-- `%d` reads back what `%d` has printed.
pub scan_int-show_int :
    (z : ℤ) (tail : Bytes) → ends_number tail ≡ true → scan_int (show_int z ++ tail) ≡ some z
unfolding show_int
scan_int-show_int (pos n) tail h =
    let (c, cs, e, digit) = show_nat-starts n tail in
    scan_int-digit n _ e digit (scan_digits-show_nat n tail h)
scan_int-show_int (negsuc n) tail h =
    let (c, cs, e, digit) = show_nat-starts (suc n) tail in
    scan_int-minus n _ e digit (scan_digits-show_nat (suc n) tail h)
