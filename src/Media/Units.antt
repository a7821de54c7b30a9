-- ===== src/Media/Units.antt =====
-- The units of a file, and what one round of the H.264 loop finds.
use fz_server.Prelude.{
  ℕ, zero, suc, ◌+◌, ◌-◌, ◌≤◌, ◌<◌, ◌≡◌, refl, sym, ap, ◌∙◌, ◌⊎◌, inl, inr, true, false, [], ◌∷◌,
  arith, length, take, drop, drop-append,
}
use fz_server.Memory.{Bytes, Memory, shift, slice}
use fz_server.Memory.Slices.{slice-append, slice-shift, length-slice}
use fz_server.File.{File, fread}
use fz_server.File.Reads.{Freads, fread-Freads}
use fz_server.Rtp.{RtpPacket, rtp_header_init, rtp_version, rtp_payload_type_h264}
use fz_server.H264.Extract.{start_code3, start_code4}
use fz_server.H264.Scan.{starts_at, starts_at-shift, Extracts}
use fz_server.Media.{h264_file_buffer, code_length}

take-nil : (n : ℕ) → take {A = ℕ} n [] ≡ []
take-nil zero = refl
take-nil (suc n) = refl

drop-nil : (n : ℕ) → drop {A = ℕ} n [] ≡ []
drop-nil zero = refl
drop-nil (suc n) = refl

drop-take : (k n : ℕ) (xs : Bytes) → drop k (take n xs) ≡ take (n - k) (drop k xs)
drop-take zero n xs = ap (λ m. take m xs) {y = n - 0} (omega arith)
drop-take (suc k) zero xs = ap (λ m. take m (drop (suc k) xs)) {x = 0} {y = 0 - suc k} (omega arith)
drop-take (suc k) (suc n) [] = sym (take-nil (suc n - suc k))
drop-take (suc k) (suc n) (x ∷ xs) =
    drop-take k n xs ∙ ap (λ m. take m (drop k xs)) {y = suc n - suc k} (omega arith)

pub drop-drop : (k j : ℕ) (xs : Bytes) → drop k (drop j xs) ≡ drop (j + k) xs
drop-drop k zero xs = ap (λ m. drop m xs) {y = 0 + k} (omega arith)
drop-drop k (suc j) [] = drop-nil k ∙ sym (drop-nil (suc j + k))
drop-drop k (suc j) (x ∷ xs) =
    drop-drop k j xs ∙ ap (λ m. drop m (x ∷ xs)) {x = suc (j + k)} {y = suc j + k} (omega arith)

-- A file that was just opened.
abbrev pub opened : Bytes → File
opened content = record { content = content; pos = 0 }

-- The packet that both functions start with.
abbrev pub h264_packet : RtpPacket → RtpPacket
h264_packet p = rtp_header_init p 0 0 0 rtp_version rtp_payload_type_h264 0 0 0 0x88923423

-- A unit: at `at` a start code of `step` bytes, then the unit, up to `at + n`. It holds
-- no start code, the next one follows, and `m` holds its bytes.
pub record IsUnit (content : Bytes) (at step n : ℕ) (m : Memory) : Type 0 where
  pub step_is : (step ≡ 3) ⊎ (step ≡ 4)
  pub step_le : step ≤ n
  pub in_file : at + n ≤ length content
  pub bytes_are : slice m 0 (n - step) ≡ take (n - step) (drop (at + step) content)
  pub no_start : (j : ℕ) → j < n - step → starts_at m j ≡ false
  pub start_follows : starts_at m (n - step) ≡ true

pub code_length-is :
    (buf : Memory) {step : ℕ}
    → ((step ≡ 3) × (start_code3 buf ≡ true)) ⊎ ((step ≡ 4) × (start_code4 buf ≡ true))
    → code_length buf ≡ step
unfolding code_length start_code3 start_code4
code_length-is buf h = ground arith

-- The rest of a block behind its first `step` bytes.
pub slice-tail :
    (m : Memory) (step n : ℕ) (xs : Bytes)
    → step ≤ n
    → slice m 0 n ≡ take n xs
    → slice (shift m step) 0 (n - step) ≡ take (n - step) (drop step xs)
slice-tail m step n xs le h =
    slice-shift m step 0 (n - step)
    ∙ ap (λ k. slice m k (n - step)) {y = 0 + step} (omega arith)
    ∙ sym
        (drop-append step (slice m 0 step) (slice m (0 + step) (n - step)) (length-slice m 0 step))
    ∙ ap (drop step)
        (sym (slice-append m step (n - step) 0) ∙ ap (slice m 0) {y = n} (omega arith) ∙ h)
    ∙ drop-take step n xs

-- One round of the loop: what `fread` and `extract_content` find is a unit of the file, and the file
-- is left at the unit's end, within the file.
module _ (rec : Memory) (fp : File) (room : fp.pos ≤ length fp.content) where
  abbrev pub buf : Memory
  buf = (fread rec h264_file_buffer fp).0

  abbrev pub fp₁ : File
  fp₁ = (fread rec h264_file_buffer fp).1

  abbrev pub size : ℕ
  size = (fread rec h264_file_buffer fp).2

  pub reads : Freads rec h264_file_buffer fp
  reads = fread-Freads rec h264_file_buffer fp

  pub fread-IsUnit :
      (n : ℕ) (after : File)
      → Extracts buf fp₁ size n after
      → IsUnit fp.content fp.pos (code_length buf) n (shift buf (code_length buf))
        × (after.content ≡ fp.content)
        × (after.pos ≡ fp.pos + n)
  fread-IsUnit n after ex = rw (code_length-is buf ex.step_is) (
    record {
      step_is = elim ex.step_is [ inl three ↦ inl three.0 | inr four ↦ inr four.0 ];
      step_le = ex.step_le;
      in_file = omega (arith, reads.pos_is, reads.in_file room, ex.within);
      bytes_are =
          slice-tail buf ex.step n (drop fp.pos fp.content) ex.step_le (reads.bytes_are n ex.within)
          ∙ ap (take (n - ex.step)) (drop-drop ex.step fp.pos fp.content);
      no_start = λ j lt.
          starts_at-shift buf ex.step j ∙ ex.first (ex.step + j) (omega arith) (omega arith);
      start_follows =
          starts_at-shift buf ex.step (n - ex.step)
          ∙ ap (starts_at buf) (omega (arith, ex.step_le))
          ∙ ex.ends;
    },
    ex.content_kept ∙ reads.content_kept,
    omega (arith, reads.pos_is, ex.within),
  )
