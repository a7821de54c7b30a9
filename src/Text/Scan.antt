-- ===== src/Text/Scan.antt =====
-- What the scanners find in a text that is put together from words and lines.
use fz_server.Prelude.{
  ℕ, zero, suc, ◌+◌, ◌<◌, ◌%◌, ◌/◌, ◌≡◌, refl, sym, ap, ◌∙◌, Bool, true, false, not, ◌&&◌, [], ◌∷◌,
  ◌++◌, append_assoc, append-nil, arith, ◌==◌, ltb, if◌then◌else◌, Bool-cases, inl, inr,
}
use fz_server.Prelude.Int.{ℤ, pos, negsuc}
use fz_server.Memory.{Bytes}
use fz_server.Text.{has_prefix, contains, span, is_empty, c_string, tokens_onto, tokens}
use fz_server.Text.Decimal.{digits_onto, show_nat, show_int}

unfoldable pub every : (ℕ → Bool) → Bytes → Bool
every test [] = true
every test (c ∷ cs) = test c && every test cs

pub every-append :
    (test : ℕ → Bool) (a b : Bytes)
    → every test a ≡ true
    → every test b ≡ true
    → every test (a ++ b) ≡ true
unfolding every
every-append test [] b h k = k
every-append test (c ∷ a) b h k =
    ground (arith, h, λ (g : every test a ≡ true). every-append test a b g k)

pub every-weaken :
    (test test' : ℕ → Bool) (s : Bytes)
    → ((c : ℕ) → test c ≡ true → test' c ≡ true)
    → every test s ≡ true
    → every test' s ≡ true
unfolding every
every-weaken test test' [] imp h = refl
every-weaken test test' (c ∷ s) imp h =
    ground (arith, h, imp c, λ (g : every test s ≡ true). every-weaken test test' s imp g)

every-digits_onto :
    (test : ℕ → Bool) (fuel n : ℕ) (tail : Bytes)
    → ((d : ℕ) → d < 10 → test (48 + d) ≡ true)
    → every test tail ≡ true
    → every test (digits_onto fuel n tail) ≡ true
unfolding every digits_onto
every-digits_onto test zero n tail digit h = h
every-digits_onto test (suc fuel) n tail digit h = elim (Bool-cases (ltb n 10)) [
  | inl small ↦ rw small (ground (arith, digit n (ground arith), h))
  | inr big ↦ rw big (
      every-digits_onto test fuel (n / 10) ((48 + n % 10) ∷ tail) digit
        (ground (arith, digit (n % 10) (omega arith), h)))
]

pub every-show_int :
    (test : ℕ → Bool) (z : ℤ)
    → ((d : ℕ) → d < 10 → test (48 + d) ≡ true)
    → test 45 ≡ true
    → every test (show_int z) ≡ true
unfolding show_int show_nat every
every-show_int test (pos n) digit minus = every-digits_onto test (suc n) n [] digit refl
every-show_int test (negsuc n) digit minus =
    ground (arith, minus, every-digits_onto test (suc (suc n)) (suc n) [] digit refl)

-- A text that ends where the test fails.
abbrev pub stops : (ℕ → Bool) → Bytes → Bool
stops test [] = true
stops test (c ∷ cs) = not (test c)

pub span-append :
    (test : ℕ → Bool) (a b : Bytes)
    → every test a ≡ true
    → stops test b ≡ true
    → span test (a ++ b) ≡ (a, b)
unfolding every span
span-append test [] [] h k = refl
span-append test [] (c ∷ b) h k = ground (arith, k)
span-append test (c ∷ a) b h k =
    let (first, later) : (test c ≡ true) × (every test a ≡ true) = ground (arith, h) in
    rw (first, span-append test a b later k) refl

pub c_string-every : (s : Bytes) → every (λ c. not (c == 0)) s ≡ true → c_string s ≡ s
unfolding c_string
c_string-every s h =
    ap (λ x. (span (λ c. not (c == 0)) x).0) (sym (append-nil s))
    ∙ ap (λ r. r.0) (span-append (λ c. not (c == 0)) s [] h refl)

-- A line and the delimiter behind it.
tokens_onto-line :
    (d : ℕ) (word line rest : Bytes)
    → every (λ c. not (c == d)) line ≡ true
    → tokens_onto d word (line ++ d ∷ rest)
      ≡ (if is_empty (word ++ line) then tokens d rest else (word ++ line) ∷ tokens d rest)
unfolding every tokens tokens_onto
tokens_onto-line d word [] rest h = rw (append-nil word) (ground arith)
tokens_onto-line d word (c ∷ line) rest h =
    let (first, later) : ((c == d) ≡ false) × (every (λ c. not (c == d)) line ≡ true) =
      ground (arith, h) in
    rw first (
      tokens_onto-line d (word ++ c ∷ []) line rest later
      ∙ ap (λ w. if is_empty w then tokens d rest else w ∷ tokens d rest)
          (append_assoc word (c ∷ []) line))

pub tokens-line :
    (d : ℕ) (line rest : Bytes)
    → every (λ c. not (c == d)) line ≡ true
    → is_empty line ≡ false
    → tokens d (line ++ d ∷ rest) ≡ line ∷ tokens d rest
unfolding tokens
tokens-line d line rest h some_byte = tokens_onto-line d [] line rest h ∙ rw some_byte refl

-- A text is not found where one of its bytes is missing.
has_prefix-every :
    (test : ℕ → Bool) (p s : Bytes)
    → every test s ≡ true
    → every test p ≡ false
    → has_prefix p s ≡ false
unfolding every has_prefix
has_prefix-every test [] s h k = absurd (cc k)
has_prefix-every test (x ∷ p) [] h k = refl
has_prefix-every test (x ∷ p) (c ∷ s) h k = elim (Bool-cases (x == c)) [
  | inr other ↦ ground (arith, other)
  | inl same ↦
      let e : x ≡ c = ground arith in
      let here : test x ≡ true = ap test e ∙ ground (arith, h) in
      let (later, bad) : (every test s ≡ true) × (every test p ≡ false) =
        ground (arith, h, k, here) in
      ground (arith, has_prefix-every test p s later bad)
]

pub contains-every :
    (test : ℕ → Bool) (p s : Bytes)
    → every test s ≡ true
    → every test p ≡ false
    → contains p s ≡ false
unfolding contains every
contains-every test p [] h k = has_prefix-every test p [] h k
contains-every test p (c ∷ s) h k =
    ground (arith, has_prefix-every test p (c ∷ s) h k, contains-every test p s (rest h) k)
  where
    rest : every test (c ∷ s) ≡ true → every test s ≡ true
    rest g = ground (arith, g)

has_prefix-append : (p s t : Bytes) → has_prefix p s ≡ true → has_prefix p (s ++ t) ≡ true
unfolding has_prefix
has_prefix-append [] s t h = refl
has_prefix-append (x ∷ p) [] t h = absurd (cc h)
has_prefix-append (x ∷ p) (c ∷ s) t h =
    let (here, later) : ((x == c) ≡ true) × (has_prefix p s ≡ true) = ground (arith, h) in
    ground (arith, here, has_prefix-append p s t later)

has_prefix-contains : (p s : Bytes) → has_prefix p s ≡ true → contains p s ≡ true
unfolding contains
has_prefix-contains p [] h = h
has_prefix-contains p (c ∷ s) h = ground (arith, h)

pub contains-append : (p s t : Bytes) → contains p s ≡ true → contains p (s ++ t) ≡ true
unfolding contains
contains-append p [] t h = has_prefix-contains p t (has_prefix-append p [] t h)
contains-append p (c ∷ s) t h = elim (Bool-cases (has_prefix p (c ∷ s))) [
  | inl here ↦ ground (arith, has_prefix-append p (c ∷ s) t here)
  | inr later ↦
      let g : contains p s ≡ true = ground (arith, h, later) in
      ground (arith, contains-append p s t g)
]
