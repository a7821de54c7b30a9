-- ===== src/Media/AnnexB.antt =====
-- A file in the byte stream format of H.264, Annex B, and what `extract_content` of
-- src/container/h264/h264.h finds in a block of it.
use fz_server.Prelude.{
  ℕ, zero, suc, ◌+◌, ◌-◌, ◌%◌, ◌≤◌, ◌<◌, ◌≡◌, ◌≢◌, refl, ap, ◌∙◌, ◌⊎◌, inl, inr, Bool, true, false,
  ◌||◌, List, [], ◌∷◌, ◌++◌, none, some, arith, ◌==◌, Bool-cases, length, get_or, subst, ltb,
}
use fz_server.Memory.{Bytes, Memory}
use fz_server.File.{File}
use fz_server.H264.Extract.{start_code3, start_code4, extract_content}
use fz_server.H264.Scan.{starts_at, Extracts, extract_content-cases}

-- A NAL unit behind a start code of four bytes or of three.
pub record CodedUnit : Type 0 where
  pub four : Bool
  pub unit : Bytes

abbrev pub code_of : Bool → Bytes
code_of true = 0 ∷ 0 ∷ 0 ∷ 1 ∷ []
code_of false = 0 ∷ 0 ∷ 1 ∷ []

abbrev pub byte_stream : List CodedUnit → Bytes
byte_stream [] = []
byte_stream (c ∷ cs) = code_of c.four ++ (c.unit ++ byte_stream cs)

abbrev pub byte_at : Bytes → ℕ → ℕ
byte_at xs i = get_or xs i 0

-- The rules of the format for a unit: no two zero bytes in front of a byte below 2, and no zero byte at
-- the end. Its first bit is 0, it is no fragment, and it fits into a block.
pub record IsNal (u : Bytes) : Type 0 where
  pub some_byte : 0 < length u
  pub clean :
      (j : ℕ) → j + 2 < length u → byte_at u j ≡ 0 → byte_at u (j + 1) ≡ 0 → 1 < byte_at u (j + 2)
  pub last : byte_at u (length u - 1) ≢ 0
  pub first : byte_at u 0 < 128
  pub kind : byte_at u 0 % 32 ≢ 28
  pub short : length u ≤ 649_992

abbrev pub AreNals : List CodedUnit → Type 0
AreNals [] = Unit {0}
AreNals (c ∷ cs) = IsNal c.unit × AreNals cs

-- The first n bytes of a buffer are those of a text.
abbrev pub Agrees : Memory → Bytes → ℕ → Type 0
Agrees m xs n = (i : ℕ) → i < n → m i ≡ byte_at xs i

pub byte_at-append : (xs ys : Bytes) (i : ℕ) → i < length xs → byte_at (xs ++ ys) i ≡ byte_at xs i
byte_at-append [] ys i h = absurd (omega arith)
byte_at-append (x ∷ xs) ys zero h = refl
byte_at-append (x ∷ xs) ys (suc i) h = byte_at-append xs ys i (omega arith)

pub byte_at-behind : (xs ys : Bytes) (i : ℕ) → byte_at (xs ++ ys) (length xs + i) ≡ byte_at ys i
byte_at-behind [] ys i = ap (byte_at ys) (omega arith)
byte_at-behind (x ∷ xs) ys i =
    ap (byte_at (x ∷ (xs ++ ys))) {y = suc (length xs + i)} (omega arith) ∙ byte_at-behind xs ys i

-- No start code begins inside a unit, whatever follows it.
no_start :
    (m : Memory) (k : ℕ) (u : Bytes)
    → ((i : ℕ) → i < length u → m (k + i) ≡ byte_at u i)
    → IsNal u
    → (j : ℕ) → j < length u
    → starts_at m (k + j) ≡ false
unfolding starts_at start_code3 start_code4
no_start m k u same v j lt = elim (Bool-cases (j + 1 == length u)) [
  | inl end ↦
      let e : byte_at u j ≢ 0 =
        λ z. v.last (ap (byte_at u) {x = length u - 1} {y = j} (ground arith) ∙ z) in
      ground (arith, e, ap m {x = k + j + 0} {y = k + j} (omega arith), same j lt)
  | inr inner ↦
      let b0 : m (k + j + 0) ≡ byte_at u j =
        ap m {x = k + j + 0} {y = k + j} (omega arith) ∙ same j lt in
      let b1 : m (k + j + 1) ≡ byte_at u (j + 1) =
        ap m {x = k + j + 1} {y = k + (j + 1)} (omega arith) ∙ same (j + 1) (ground arith) in
      elim (Bool-cases (j + 2 == length u)) [
        | inl end ↦
            let e : byte_at u (j + 1) ≢ 0 =
              λ z. v.last (ap (byte_at u) {x = length u - 1} {y = j + 1} (ground arith) ∙ z) in
            ground (arith, e, b1)
        | inr more ↦
            let far : j + 2 < length u = ground arith in
            let b2 : m (k + j + 2) ≡ byte_at u (j + 2) =
              ap m {x = k + j + 2} {y = k + (j + 2)} (omega arith) ∙ same (j + 2) far in
            ground (arith, b0, b1, b2, v.clean j far)
      ]
]

pub code_starts :
    (m : Memory) (k : ℕ) (four : Bool)
    → ((i : ℕ) → i < length (code_of four) → m (k + i) ≡ byte_at (code_of four) i)
    → starts_at m k ≡ true
unfolding starts_at start_code3 start_code4
code_starts m k true same =
    ground (
      arith,
      same 0 (omega arith),
      same 1 (omega arith),
      same 2 (omega arith),
      same 3 (omega arith),
    )
code_starts m k false same =
    ground (arith, same 0 (omega arith), same 1 (omega arith), same 2 (omega arith))

abbrev pub StepIs : Memory → ℕ → Type 0
StepIs m step = ((step ≡ 3) × (start_code3 m ≡ true)) ⊎ ((step ≡ 4) × (start_code4 m ≡ true))

code_step :
    (m : Memory) (four : Bool) (step : ℕ)
    → Agrees m (code_of four) (length (code_of four))
    → StepIs m step
    → step ≡ length (code_of four)
unfolding start_code3 start_code4
code_step m true step same (inl (e, three)) = absurd (ground (arith, three, same 2 (omega arith)))
code_step m true step same (inr (e, four)) = e
code_step m false step same (inl (e, three)) = e
code_step m false step same (inr (e, four)) = absurd (ground (arith, four, same 2 (omega arith)))

code_is :
    (m : Memory) (four : Bool)
    → Agrees m (code_of four) (length (code_of four))
    → (start_code3 m || start_code4 m) ≡ true
unfolding start_code3 start_code4
code_is m true same =
    ground (
      arith,
      same 0 (omega arith),
      same 1 (omega arith),
      same 2 (omega arith),
      same 3 (omega arith),
    )
code_is m false same =
    ground (arith, same 0 (omega arith), same 1 (omega arith), same 2 (omega arith))

module _ (m : Memory) (fp : File) (size : ℕ) (c : CodedUnit) (v : IsNal c.unit)
    (same : Agrees m (code_of c.four ++ c.unit) (length (code_of c.four) + length c.unit)) where
  abbrev coded : ℕ
  coded = length (code_of c.four) + length c.unit

  code_same : Agrees m (code_of c.four) (length (code_of c.four))
  code_same i lt = same i (omega arith) ∙ byte_at-append (code_of c.four) c.unit i lt

  unit_same : (i : ℕ) → i < length c.unit → m (length (code_of c.four) + i) ≡ byte_at c.unit i
  unit_same i lt =
      same (length (code_of c.four) + i) (omega arith) ∙ byte_at-behind (code_of c.four) c.unit i

  pub step_lem :
      {n : ℕ} {after : File} (ex : Extracts m fp size n after) → ex.step ≡ length (code_of c.four)
  step_lem ex = code_step m c.four ex.step code_same ex.step_is

  -- A unit that is found is not shorter than the one that stands there.
  coded-le : {n : ℕ} {after : File} → Extracts m fp size n after → coded ≤ n
  coded-le {n} {after} ex = elim (Bool-cases (ltb n coded)) [
    | inl less ↦
        let short : n < coded = ground arith in
        let from : length (code_of c.four) ≤ n = omega (arith, step_lem ex, ex.step_le) in
        absurd (
          cc (
            no_start m (length (code_of c.four)) c.unit unit_same v (n - length (code_of c.four))
                (omega arith),
            ap (starts_at m) {x = n} {y = length (code_of c.four) + (n - length (code_of c.four))}
                (omega arith),
            ex.ends,
          ))
    | inr more ↦ ground arith
  ]

  -- Where a start code follows in the range of the search, the unit is found.
  pub extract_content-found :
      starts_at m coded ≡ true
      → length c.unit + 3 < size
      → (after : File) × (extract_content m fp size ≡ some (coded, after))
        × Extracts m fp size coded after
  extract_content-found there room = elim (extract_content-cases m fp size) [
    | inl (e, inl no_code) ↦ absurd (cc (code_is m c.four code_same, no_code.0, no_code.1))
    | inl (e, inr (step, is, none_there)) ↦ absurd (
        cc (
          none_there (length c.unit) (omega arith),
          ap (λ k. starts_at m (k + length c.unit)) (code_step m c.four step code_same is),
          there,
        ))
    | inr (n, after, e, ex) ↦ exact n after e ex (n_is n after ex)
  ]
    where
      n_is : (n : ℕ) (after : File) → Extracts m fp size n after → n ≡ coded
      n_is n after ex = elim (Bool-cases (ltb coded n)) [
        | inl more ↦ absurd (cc (ex.first coded (omega (arith, step_lem ex)) (ground arith), there))
        | inr most ↦ let le : n ≤ coded = ground arith in omega (arith, coded-le ex)
      ]

      exact :
          (n : ℕ) (after : File)
          → extract_content m fp size ≡ some (n, after)
          → Extracts m fp size n after
          → n ≡ coded
          → (f : File) × (extract_content m fp size ≡ some (coded, f)) × Extracts m fp size coded f
      exact n after e ex is =
          (after, e ∙ ap (λ k. some (k, after)) is, subst (λ k. Extracts m fp size k after) is ex)

  -- At the end of the file it is found only where the buffer holds a start code behind the file's bytes.
  pub extract_content-last :
      size ≡ coded
      → (extract_content m fp size ≡ none)
        ⊎ ((after : File) × (extract_content m fp size ≡ some (coded, after))
            × Extracts m fp size coded after)
  extract_content-last end = elim (extract_content-cases m fp size) [
    | inl (e, why) ↦ inl e
    | inr (n, after, e, ex) ↦
        let is : n ≡ coded = omega (arith, coded-le ex, ex.within) in
        inr (after, e ∙ ap (λ k. some (k, after)) is, subst (λ k. Extracts m fp size k after) is ex)
  ]
