-- ===== src/File/Reads.antt =====
-- What a read delivers, and where it leaves the file.
use fz_server.Prelude.{
  ℕ, zero, suc, ◌+◌, ◌-◌, ◌≤◌, ◌≡◌, ◌≢◌, refl, ap, ap₂, ◌∙◌, [], ◌∷◌, arith, length, take, drop,
  length-take, length-drop, min, lt→ltb,
}
use fz_server.Memory.{Bytes, Memory, shift, slice, fill}
use fz_server.Memory.Slices.{slice_ext}
use fz_server.File.{File, fread, next_bytes}

take-take : (n cap : ℕ) (xs : Bytes) → n ≤ length (take cap xs) → take n (take cap xs) ≡ take n xs
take-take zero cap xs h = refl
take-take (suc n) zero xs h = absurd (omega arith)
take-take (suc n) (suc cap) [] h = refl
take-take (suc n) (suc cap) (x ∷ xs) h = ap (◌∷◌ x) (take-take n cap xs (omega arith))

fill_cons :
    (m : Memory) (b : ℕ) (bs : Bytes) (i : ℕ) → fill m (b ∷ bs) (1 + i) ≡ fill (shift m 1) bs i
fill_cons m b bs i = let e : 1 + i ≡ suc i = omega arith in ap (fill m (b ∷ bs)) e ∙ step
  where
    step : fill m (b ∷ bs) (suc i) ≡ fill (shift m 1) bs i
    step = let e : suc i ≡ 1 + i = omega arith in ground (arith, ap m e)

pub slice-fill :
    (m : Memory) (bs : Bytes) (n : ℕ) → n ≤ length bs → slice (fill m bs) 0 n ≡ take n bs
slice-fill m bs zero h = refl
slice-fill m [] (suc n) h = absurd (omega arith)
slice-fill m (b ∷ bs) (suc n) h = ap₂ ◌∷◌ (rw (lt→ltb 0 (suc (length bs)) (omega arith))) (
    slice_ext (fill m (b ∷ bs)) (fill (shift m 1) bs) n 1 0
      (λ i lt. fill_cons m b bs i ∙ ap (fill (shift m 1) bs) (omega arith))
    ∙ slice-fill (shift m 1) bs n (omega arith))

-- A read of at most `cap` bytes at the file's position.
pub record Freads (buf : Memory) (cap : ℕ) (fp : File) : Type 0 where
  pub size_le : (fread buf cap fp).2 ≤ cap
  pub content_kept : (fread buf cap fp).1.content ≡ fp.content
  pub pos_is : (fread buf cap fp).1.pos ≡ fp.pos + (fread buf cap fp).2
  pub in_file : fp.pos ≤ length fp.content → (fread buf cap fp).1.pos ≤ length fp.content
  pub at_end : cap ≢ 0 → (fread buf cap fp).2 ≡ 0 → length fp.content ≤ fp.pos
  pub bytes_are :
      (n : ℕ)
      → n ≤ (fread buf cap fp).2
      → slice (fread buf cap fp).0 0 n ≡ take n (drop fp.pos fp.content)

pub fread-Freads : (buf : Memory) (cap : ℕ) (fp : File) → Freads buf cap fp
unfolding fread
fread-Freads buf cap fp = record {
  size_le = omega (arith, delivered, left);
  content_kept = refl;
  pos_is = refl;
  in_file = λ h. omega (arith, delivered, left);
  at_end = λ some_room nothing. omega (arith, delivered, left);
  bytes_are =
      λ n h. slice-fill buf (next_bytes fp cap) n h ∙ take-take n cap (drop fp.pos fp.content) h;
}
  where
    delivered : length (next_bytes fp cap) ≡ min cap (length (drop fp.pos fp.content))
    delivered = length-take cap (drop fp.pos fp.content)

    left : length (drop fp.pos fp.content) ≡ length fp.content - fp.pos
    left = length-drop fp.pos fp.content
