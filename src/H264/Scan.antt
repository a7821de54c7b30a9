-- ===== src/H264/Scan.antt =====
-- `extract_content` finds the unit that ends at the next start code, and leaves the file there.
use fz_server.Prelude.{
  ℕ, zero, suc, ◌+◌, ◌-◌, ◌≤◌, ◌<◌, ◌≡◌, refl, sym, subst, fun_ext, ap, ◌∙◌, ◌⊎◌, inl, inr, Bool,
  true, false, ◌||◌, Option, none, some, arith, Bool-cases,
}
use fz_server.Memory.{Memory, shift}
use fz_server.File.{File}
use fz_server.H264.Extract.{start_code3, start_code4, find_start, seek_back, extract_content}

-- A start code of three or four bytes stands at offset i.
unfoldable pub starts_at : Memory → ℕ → Bool
starts_at m i = start_code3 (shift m i) || start_code4 (shift m i)

pub starts_at-shift : (m : Memory) (k i : ℕ) → starts_at (shift m k) i ≡ starts_at m (k + i)
unfolding starts_at
starts_at-shift m k i =
    ap (λ (x : Memory). start_code3 x || start_code4 x) (fun_ext λ j. ap m (omega arith))

starts_at_zero : (m : Memory) → starts_at m 0 ≡ (start_code3 m || start_code4 m)
unfolding starts_at
starts_at_zero m =
    ap (λ (x : Memory). start_code3 x || start_code4 x) (fun_ext λ j. ap m (omega arith))

starts_at-suc : (m : Memory) (j : ℕ) → starts_at (shift m 1) j ≡ starts_at m (suc j)
starts_at-suc m j = starts_at-shift m 1 j ∙ ap (starts_at m) (omega arith)

none_up_to :
    (m : Memory) (n : ℕ)
    → starts_at m 0 ≡ false
    → ((j : ℕ) → j < n → starts_at (shift m 1) j ≡ false)
    → (j : ℕ) → j < suc n
    → starts_at m j ≡ false
none_up_to m n z later zero lt = z
none_up_to m n z later (suc j) lt = sym (starts_at-suc m j) ∙ later j (omega arith)

-- The first of `rounds` offsets where a start code stands.
pub record FirstStart (m : Memory) (rounds i : ℕ) : Type 0 where
  pub in_range : i < rounds
  pub there : starts_at m i ≡ true
  pub none_before : (j : ℕ) → j < i → starts_at m j ≡ false

find_start-cases :
    (m : Memory) (rounds start_num : ℕ)
    → ((find_start m rounds start_num ≡ none) × ((j : ℕ) → j < rounds → starts_at m j ≡ false))
      ⊎ ((i : ℕ) × (find_start m rounds start_num ≡ some (start_num + i)) × FirstStart m rounds i)
unfolding find_start
find_start-cases m zero start_num = inl (refl, λ j lt. absurd (omega arith))
find_start-cases m (suc rounds) start_num = elim (Bool-cases (start_code3 m || start_code4 m)) [
  | inl here ↦ inr (
    0,
    rw here (ap some (omega arith)),
    record {
      in_range = omega arith;
      there = starts_at_zero m ∙ here;
      none_before = λ j lt. absurd (omega arith);
    },
  )
  | inr not_here ↦
      let z = starts_at_zero m ∙ not_here in
      elim (find_start-cases (shift m 1) rounds (start_num + 1)) [
        | inl (e, no_start) ↦ inl (rw not_here e, none_up_to m rounds z no_start)
        | inr (i, e, first) ↦ inr (
          suc i,
          rw not_here (e ∙ ap some (omega arith)),
          record {
            in_range = omega (arith, first.in_range);
            there = sym (starts_at-suc m i) ∙ first.there;
            none_before = none_up_to m i z first.none_before;
          },
        )
      ]
]

-- What a found unit is: n bytes from a start code of `step` bytes on, up to the next start code, which
-- lies in the search's range; the file stands at that start code.
pub record Extracts (rec : Memory) (fp : File) (size n : ℕ) (after : File) : Type 0 where
  pub step : ℕ
  pub step_is : ((step ≡ 3) × (start_code3 rec ≡ true)) ⊎ ((step ≡ 4) × (start_code4 rec ≡ true))
  pub step_le : step ≤ n
  pub within : n ≤ size
  pub ends : starts_at rec n ≡ true
  pub first : (j : ℕ) → step ≤ j → j < n → starts_at rec j ≡ false
  pub content_kept : after.content ≡ fp.content
  pub pos_is : after.pos ≡ fp.pos + n - size

-- What a failure says: the buffer starts with no start code, or none follows in the search's range.
abbrev pub NoUnit : Memory → ℕ → Type 0
NoUnit rec size =
    ((start_code3 rec ≡ false) × (start_code4 rec ≡ false))
    ⊎ ((step : ℕ) × (((step ≡ 3) × (start_code3 rec ≡ true))
          ⊎ ((step ≡ 4) × (start_code4 rec ≡ true)))
        × ((j : ℕ) → j < size - 3 → starts_at rec (step + j) ≡ false))

module _ (rec : Memory) (fp : File) (size : ℕ) where
  abbrev Outcome : Option (ℕ × File) → Type 0
  Outcome r =
      ((r ≡ none) × NoUnit rec size)
      ⊎ ((n : ℕ) × (after : File) × (r ≡ some (n, after)) × Extracts rec fp size n after)

  from_step :
      (step : ℕ)
      → ((step ≡ 3) × (start_code3 rec ≡ true)) ⊎ ((step ≡ 4) × (start_code4 rec ≡ true))
      → Outcome (seek_back fp size (find_start (shift rec step) (size - 3) (step + 1)))
  unfolding seek_back
  from_step step is = elim (find_start-cases (shift rec step) (size - 3) (step + 1)) [
    | inl (e, no_start) ↦
        inl (rw e, inr (step, is, λ j lt. sym (starts_at-shift rec step j) ∙ no_start j lt))
    | inr (i, e, found) ↦ inr (
      step + 1 + i - 1,
      _,
      rw e,
      record {
        step = step;
        step_is = is;
        step_le = omega arith;
        within = omega (arith, found.in_range);
        ends = ap (starts_at rec) (omega arith) ∙ sym (starts_at-shift rec step i) ∙ found.there;
        first = λ j lo hi.
            ap (starts_at rec) (omega arith)
            ∙ sym (starts_at-shift rec step (j - step))
            ∙ found.none_before (j - step) (omega arith);
        content_kept = refl;
        pos_is = refl;
      },
    )
  ]

  three_bytes :
      start_code3 rec ≡ true
      → extract_content rec fp size
        ≡ seek_back fp size (find_start (shift rec 3) (size - 3) (3 + 1))
  unfolding extract_content
  three_bytes three = rw three

  four_bytes :
      start_code3 rec ≡ false
      → start_code4 rec ≡ true
      → extract_content rec fp size
        ≡ seek_back fp size (find_start (shift rec 4) (size - 3) (4 + 1))
  unfolding extract_content
  four_bytes not3 four = rw (not3, four)

  no_bytes : start_code3 rec ≡ false → start_code4 rec ≡ false → extract_content rec fp size ≡ none
  unfolding extract_content
  no_bytes not3 not4 = rw (not3, not4)

  -- `extract_content` on every input: it returns -1, and then the buffer starts with no start
  -- code or none follows in the range of the search; or it finds the unit of n bytes from the
  -- first start code up to the next one, with n at most `size`, and moves the file back to that
  -- start code.
  pub extract_content-cases :
      ((extract_content rec fp size ≡ none) × NoUnit rec size)
      ⊎ ((n : ℕ) × (after : File) × (extract_content rec fp size ≡ some (n, after))
          × Extracts rec fp size n after)
  extract_content-cases = elim (Bool-cases (start_code3 rec)) [
    | inl three ↦ subst Outcome (sym (three_bytes three)) (from_step 3 (inl (refl, three)))
    | inr not3 ↦ elim (Bool-cases (start_code4 rec)) [
      | inl four ↦ subst Outcome (sym (four_bytes not3 four)) (from_step 4 (inr (refl, four)))
      | inr not4 ↦ inl (no_bytes not3 not4, inl (not3, not4))
    ]
  ]
