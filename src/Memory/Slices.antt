-- ===== src/Memory/Slices.antt =====
-- What a slice of a buffer holds after a copy.
use fz_server.Prelude.{
  ℕ, zero, suc, ◌+◌, ◌-◌, ◌<◌, ◌≡◌, refl, ap, ap₂, ◌∙◌, ◌∷◌, ◌++◌, arith, length,
}
use fz_server.Memory.{Memory, shift, memcpy, slice}

pub length-slice : (m : Memory) (k n : ℕ) → length (slice m k n) ≡ n
length-slice m k zero = refl
length-slice m k (suc n) = ap suc (length-slice m (k + 1) n)

-- Slices are equal if their bytes are, one by one.
pub slice_ext :
    (m m' : Memory) (n k k' : ℕ)
    → ((i : ℕ) → i < n → m (k + i) ≡ m' (k' + i))
    → slice m k n ≡ slice m' k' n
slice_ext m m' zero k k' h = refl
slice_ext m m' (suc n) k k' h = ap₂ ◌∷◌ head (slice_ext m m' n (k + 1) (k' + 1) later)
  where
    at : (x : Memory) {a b : ℕ} → a ≡ b → x a ≡ x b
    at x e = ap x e

    head : m k ≡ m' k'
    head = at m {a = k} {b = k + 0} (omega arith) ∙ h 0 (omega arith) ∙ at m' (omega arith)

    later : (i : ℕ) → i < n → m (k + 1 + i) ≡ m' (k' + 1 + i)
    later i lt = at m {b = k + suc i} (omega arith) ∙ h (suc i) (omega arith) ∙ at m' (omega arith)

memcpy_at : (m src : Memory) (k n i : ℕ) → i < n → memcpy m k src n (k + i) ≡ src i
memcpy_at m src k n i lt = let e : k + i - k ≡ i = omega arith in ground (arith, ap src e)

-- A copied block reads as its source does.
pub slice-memcpy : (m src : Memory) (k n : ℕ) → slice (memcpy m k src n) k n ≡ slice src 0 n
slice-memcpy m src k n =
    slice_ext (memcpy m k src n) src n k 0 λ i lt. memcpy_at m src k n i lt ∙ ap src (omega arith)

pub slice-shift : (m : Memory) (k j n : ℕ) → slice (shift m k) j n ≡ slice m (k + j) n
slice-shift m k j n = slice_ext (shift m k) m n j (k + j) λ i lt. ap m (omega arith)

pub slice-append : (m : Memory) (a b k : ℕ) → slice m k (a + b) ≡ slice m k a ++ slice m (k + a) b
slice-append m zero b k = ap₂ (slice m) (omega arith) (omega arith)
slice-append m (suc a) b k =
    ap (slice m k) {y = suc (a + b)} (omega arith)
    ∙ ap (◌∷◌ (m k))
        (slice-append m a b (k + 1) ∙ ap (λ j. slice m (k + 1) a ++ slice m j b) (omega arith))
