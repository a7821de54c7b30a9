-- ===== src/Aac/Masks.antt =====
-- The masks and shifts of the ADTS parser as divisions and remainders, by evaluation.
use fz_server.Prelude.{
  ℕ, ◌+◌, ◌*◌, ◌/◌, ◌%◌, ◌<◌, ◌≡◌, refl, Bool, true, bit_and, bit_or, arith, ◌==◌, ==_iff,
}
use fz_server.Bits.{every_below, every_below-at}

-- `(x & mask) >> k` picks the bits from k on, as many as `width` has values.
abbrev picks : ℕ → ℕ → ℕ → ℕ → Bool
picks mask shift width x = bit_and x mask / shift == x / shift % width

picked :
    (mask shift width x : ℕ)
    → every_below 256 (picks mask shift width) ≡ true
    → x < 256
    → bit_and x mask / shift ≡ x / shift % width
picked mask shift width x table h = (==_iff _ _).0 (every_below-at 256 _ x table h)

high_table : every_below 256 (λ x. bit_and x 0xF0 == x / 16 * 16) ≡ true
unfolding every_below
high_table = refl

-- `|` of numbers with no common bit adds them.
abbrev adds : ℕ → ℕ → ℕ → Bool
adds scale low x = every_below low (λ y. bit_or (x * scale) y == x * scale + y)

channel_table : every_below 2 (adds 4 4) ≡ true
unfolding every_below
channel_table = refl

length_high_table :
    every_below 4 (λ x. every_below 256 (λ y. bit_or (x * 2048) (y * 8) == x * 2048 + y * 8)) ≡ true
unfolding every_below
length_high_table = refl

length_low_table : every_below 1024 (adds 8 8) ≡ true
unfolding every_below
length_low_table = refl

fullness_table : every_below 32 (adds 64 64) ≡ true
unfolding every_below
fullness_table = refl

module _ (x y : ℕ) where
  pub or_channel : x < 2 → y < 4 → bit_or (x * 4) y ≡ x * 4 + y
  or_channel h k = (==_iff _ _).0 (every_below-at 4 _ y (every_below-at 2 _ x channel_table h) k)

  pub or_length_high : x < 4 → y < 256 → bit_or (x * 2048) (y * 8) ≡ x * 2048 + y * 8
  or_length_high h k =
      (==_iff _ _).0 (every_below-at 256 _ y (every_below-at 4 _ x length_high_table h) k)

  pub or_length_low : x < 1024 → y < 8 → bit_or (x * 8) y ≡ x * 8 + y
  or_length_low h k =
      (==_iff _ _).0 (every_below-at 8 _ y (every_below-at 1024 _ x length_low_table h) k)

  pub or_fullness : x < 32 → y < 64 → bit_or (x * 64) y ≡ x * 64 + y
  or_fullness h k =
      (==_iff _ _).0 (every_below-at 64 _ y (every_below-at 32 _ x fullness_table h) k)

high_half : (x : ℕ) → x < 256 → bit_and x 0xF0 ≡ x / 16 * 16
high_half x h = (==_iff _ _).0 (every_below-at 256 _ x high_table h)

pub record Masks (x : ℕ) : Type 0 where
  pub bit0 : bit_and x 0x01 ≡ x % 2
  pub bit1 : bit_and x 0x02 / 2 ≡ x / 2 % 2
  pub bit3 : bit_and x 0x08 / 8 ≡ x / 8 % 2
  pub bit4 : bit_and x 0x10 / 16 ≡ x / 16 % 2
  pub bit5 : bit_and x 0x20 / 32 ≡ x / 32 % 2
  pub low2 : bit_and x 0x03 ≡ x % 4
  pub bits1_2 : bit_and x 0x06 / 2 ≡ x / 2 % 4
  pub bits6_7 : bit_and x 0xC0 / 64 ≡ x / 64
  pub bits2_5 : bit_and x 0x3C / 4 ≡ x / 4 % 16
  pub bits2_7 : bit_and x 0xFC / 4 ≡ x / 4
  pub bits5_7 : bit_and x 0xE0 / 32 ≡ x / 32
  pub low5 : bit_and x 0x1F ≡ x % 32
  pub all8 : bit_and x 0xFF ≡ x
  pub high4 : bit_and x 0xF0 ≡ x / 16 * 16

pub byte-Masks : (x : ℕ) → x < 256 → Masks x
unfolding every_below
byte-Masks x h = record {
  bit0 = omega (arith, picked 0x01 1 2 x refl h);
  bit1 = omega (arith, picked 0x02 2 2 x refl h);
  bit3 = omega (arith, picked 0x08 8 2 x refl h);
  bit4 = omega (arith, picked 0x10 16 2 x refl h);
  bit5 = omega (arith, picked 0x20 32 2 x refl h);
  low2 = omega (arith, picked 0x03 1 4 x refl h);
  bits1_2 = omega (arith, picked 0x06 2 4 x refl h);
  bits6_7 = omega (arith, picked 0xC0 64 4 x refl h);
  bits2_5 = omega (arith, picked 0x3C 4 16 x refl h);
  bits2_7 = omega (arith, picked 0xFC 4 64 x refl h);
  bits5_7 = omega (arith, picked 0xE0 32 8 x refl h);
  low5 = omega (arith, picked 0x1F 1 32 x refl h);
  all8 = omega (arith, picked 0xFF 1 256 x refl h);
  high4 = high_half x h;
}
