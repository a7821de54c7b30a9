-- ===== src/Ini/Trim.antt =====
-- What `trim` takes away.
use fz_server.Prelude.{
  ℕ, ◌≡◌, refl, sym, ap, ◌∙◌, inl, inr, Bool, true, false, not, ◌&&◌, [], ◌∷◌, ◌++◌, append-nil,
  arith, if◌then◌else◌, Bool-cases,
}
use fz_server.Memory.{Bytes}
use fz_server.Text.{is_empty}
use fz_server.Ini.{is_blank, trim_left, trim_right, trim}

abbrev pub Blanks : Bytes → Type 0
Blanks [] = Unit {0}
Blanks (c ∷ cs) = (is_blank c ≡ true) × Blanks cs

-- Nothing to take away at either end.
pub record IsTrimmed (s : Bytes) : Type 0 where
  pub left : trim_left s ≡ s
  pub right : trim_right s ≡ s

abbrev pub starts_ink : Bytes → Bool
starts_ink [] = false
starts_ink (c ∷ cs) = not (is_blank c)

-- A text that starts with ink loses nothing at the left.
pub trim_left-starts_ink : (s t : Bytes) → starts_ink s ≡ true → trim_left (s ++ t) ≡ s ++ t
unfolding trim_left
trim_left-starts_ink [] t h = absurd (ground (arith, h))
trim_left-starts_ink (c ∷ cs) t h = ground (arith, h)

-- What is left starts with ink, or is empty.
pub starts_ink-trim_left : (s : Bytes) → starts_ink (trim_left s) ≡ not (is_empty (trim_left s))
unfolding trim_left
starts_ink-trim_left [] = refl
starts_ink-trim_left (c ∷ cs) = elim (Bool-cases (is_blank c)) [
  | inl blank ↦ rw blank (starts_ink-trim_left cs)
  | inr ink ↦ rw ink (rw ink refl)
]

starts_ink-trim_right : (s : Bytes) → starts_ink s ≡ true → starts_ink (trim_right s) ≡ true
unfolding trim_right
starts_ink-trim_right [] h = h
starts_ink-trim_right (c ∷ cs) h = ground (arith, h)

-- What ends in a text that is not blank throughout keeps what stands in front.
pub trim_right-append :
    (s t : Bytes) → is_empty (trim_right t) ≡ false → trim_right (s ++ t) ≡ s ++ trim_right t
unfolding trim_right
trim_right-append [] t h = refl
trim_right-append (c ∷ cs) t h = rw (trim_right-append cs t h) (ends cs (trim_right t) h)
  where
    ends :
        (cs r : Bytes)
        → is_empty r ≡ false
        → (if is_empty (cs ++ r) && is_blank c then [] else c ∷ (cs ++ r)) ≡ c ∷ (cs ++ r)
    ends [] [] h = absurd (ground (arith, h))
    ends [] (x ∷ r) h = refl
    ends (x ∷ cs) r h = refl

all_blank : (s : Bytes) → is_empty s ≡ true → trim_left (trim_right s) ≡ trim_right s
unfolding trim_left trim_right
all_blank [] h = refl
all_blank (c ∷ cs) h = absurd (ground (arith, h))

pub trim_right_idem : (s : Bytes) → trim_right (trim_right s) ≡ trim_right s
unfolding trim_right
trim_right_idem [] = refl
trim_right_idem (c ∷ cs) = elim (Bool-cases (is_empty (trim_right cs) && is_blank c)) [
  | inl gone ↦ rw gone
  | inr kept ↦ rw kept (rw (trim_right_idem cs) (rw kept))
]

pub IsTrimmed-starts_ink : {s : Bytes} → IsTrimmed s → starts_ink s ≡ not (is_empty s)
IsTrimmed-starts_ink {s} t =
    ap starts_ink (sym t.left) ∙ starts_ink-trim_left s ∙ ap (λ r. not (is_empty r)) t.left

trim-both : (s : Bytes) → trim s ≡ trim_right (trim_left s)
unfolding trim trim_left trim_right
trim-both [] = refl
trim-both (c ∷ cs) = refl

-- Of a text that starts with ink, only the right end is taken.
pub trim-starts_ink : (s : Bytes) → starts_ink s ≡ true → trim s ≡ trim_right s
trim-starts_ink s h =
    trim-both s
    ∙ ap (λ r. trim_right (trim_left r)) (sym (append-nil s))
    ∙ ap trim_right (trim_left-starts_ink s [] h ∙ append-nil s)

pub trim-blank : (c : ℕ) (cs : Bytes) → is_blank c ≡ true → trim (c ∷ cs) ≡ trim cs
unfolding trim_left
trim-blank c cs h = trim-both (c ∷ cs) ∙ rw h (sym (trim-both cs))

pub trim-IsTrimmed_lem : {s : Bytes} → IsTrimmed s → trim s ≡ s
trim-IsTrimmed_lem {s} t = trim-both s ∙ ap trim_right t.left ∙ t.right

left_Blanks : (s : Bytes) → (front : Bytes) × Blanks front × (s ≡ front ++ trim_left s)
unfolding trim_left
left_Blanks [] = ([], tt, refl)
left_Blanks (c ∷ cs) = elim (Bool-cases (is_blank c)) [
  | inl blank ↦ let (front, b, e) = left_Blanks cs in rw blank (c ∷ front, (blank, b), ap (◌∷◌ c) e)
  | inr ink ↦ rw ink ([], tt, refl)
]

right_Blanks : (s : Bytes) → (back : Bytes) × Blanks back × (s ≡ trim_right s ++ back)
unfolding trim_right
right_Blanks [] = ([], tt, refl)
right_Blanks (c ∷ cs) =
    let (back, b, e) = right_Blanks cs in
    elim (Bool-cases (is_empty (trim_right cs) && is_blank c)) [
      | inl gone ↦
          rw gone (
            c ∷ back,
            (ground (arith, gone), b),
            ap (◌∷◌ c) (e ∙ nothing (trim_right cs) back gone),
          )
      | inr kept ↦ rw kept (back, b, ap (◌∷◌ c) e)
    ]
  where
    nothing : (r back : Bytes) → (is_empty r && is_blank c) ≡ true → r ++ back ≡ back
    nothing [] back h = refl
    nothing (x ∷ r) back h = absurd (ground (arith, h))

-- `trim` of any text leaves nothing to trim, trimming twice is trimming once, and the text is
-- what is left with spaces, newlines and carriage returns before and behind it.
pub trim-IsTrimmed :
    (s : Bytes)
    → IsTrimmed (trim s)
      × (trim (trim s) ≡ trim s)
      × (front : Bytes) × (back : Bytes) × Blanks front
      × Blanks back
      × (s ≡ front ++ (trim s ++ back))
trim-IsTrimmed s =
    let (front, b, e) = left_Blanks s in
    let (back, b', e') = right_Blanks (trim_left s) in
    rw (trim-both s)
      (trimmed, trim-IsTrimmed_lem trimmed, front, back, b, b', e ∙ ap (◌++◌ front) e')
  where
    left : trim_left (trim_right (trim_left s)) ≡ trim_right (trim_left s)
    left = elim (Bool-cases (is_empty (trim_left s))) [
      | inl empty ↦ all_blank (trim_left s) empty
      | inr full ↦
          ap trim_left (sym (append-nil (trim_right (trim_left s))))
          ∙ trim_left-starts_ink (trim_right (trim_left s)) []
              (starts_ink-trim_right (trim_left s) (starts_ink-trim_left s ∙ ap not full))
          ∙ append-nil _
    ]

    trimmed : IsTrimmed (trim_right (trim_left s))
    trimmed = record { left = left; right = trim_right_idem (trim_left s) }
