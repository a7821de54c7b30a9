-- ===== src/Aac/Header.antt =====
-- `parseAdtsHeader` against the layout of the header as a string of 56 bits.
use fz_server.Prelude.{
  ℕ, ◌+◌, ◌-◌, ◌*◌, ◌/◌, ◌%◌, ◌^◌, ◌<◌, ◌≡◌, ◌≢◌, refl, ap, ◌∙◌, bit_and, bit_or, none, some, arith,
  ◌==◌, sym, inl, inr, ◌⊎◌, Bool-cases, false, ◌&&◌, ==_iff,
}
use mathlib.Core.Bool.{false≢true}
use fz_server.Memory.{Memory}
use fz_server.Aac.{AdtsHeader, header_fields, parse_adts_header}
use fz_server.Aac.Masks.{Masks, byte-Masks, or_channel, or_length_high, or_length_low, or_fullness}

-- The first seven bytes as one number, the first byte highest.
abbrev pub header_word : Memory → ℕ
header_word b =
    b 0 * 2 ^ 48 + b 1 * 2 ^ 40 + b 2 * 2 ^ 32 + b 3 * 2 ^ 24 + b 4 * 2 ^ 16 + b 5 * 2 ^ 8 + b 6

-- The bits of the header from `offset` on, as many as `width`; bit 0 is sent first.
abbrev pub field : Memory → ℕ → ℕ → ℕ
field b offset width = header_word b / 2 ^ (56 - offset - width) % 2 ^ width

abbrev pub IsBytes : Memory → Type 0
IsBytes b = (i : ℕ) → b i < 256

-- The fields of ISO/IEC 13818-7, 6.2, behind the sync word, as the parser reports them.
pub record Reads (b : Memory) (h : AdtsHeader) : Type 0 where
  pub id_is : h.id ≡ field b 12 1
  pub layer_is : h.layer ≡ field b 13 2
  pub protection_absent_is : h.protection_absent ≡ field b 15 1
  pub profile_is : h.profile ≡ field b 16 2
  pub sampling_freq_index_is : h.sampling_freq_index ≡ field b 18 4
  pub private_bit_is : h.private_bit ≡ field b 22 1
  pub channel_cfg_is : h.channel_cfg ≡ field b 23 3
  pub original_copy_is : h.original_copy ≡ field b 26 1
  pub home_is : h.home ≡ field b 27 1
  pub copyright_identification_bit_is : h.copyright_identification_bit ≡ field b 28 1
  pub aac_frame_length_is : h.aac_frame_length ≡ field b 30 13
  pub adts_buffer_fullness_is : h.adts_buffer_fullness ≡ field b 43 11
  pub number_of_raw_data_block_in_frame_is : h.number_of_raw_data_block_in_frame ≡ field b 54 2

by_halves :
    (x y : ℕ) → x < 256 → y < 256 → (x == 0xFF && y / 16 * 16 == 0xF0) ≡ (x * 16 + y / 16 == 0xFFF)
by_halves x y h k = ground arith

module _ (b : Memory) (bytes : IsBytes b) where
  mask : (i : ℕ) → Masks (b i)
  mask i = byte-Masks (b i) (bytes i)

  id_bits : field b 12 1 ≡ b 1 / 8 % 2
  id_bits = omega (arith, bytes 0, bytes 1, bytes 2, bytes 3, bytes 4, bytes 5, bytes 6)

  layer_bits : field b 13 2 ≡ b 1 / 2 % 4
  layer_bits = omega (arith, bytes 0, bytes 1, bytes 2, bytes 3, bytes 4, bytes 5, bytes 6)

  protection_absent_bits : field b 15 1 ≡ b 1 % 2
  protection_absent_bits =
      omega (arith, bytes 0, bytes 1, bytes 2, bytes 3, bytes 4, bytes 5, bytes 6)

  profile_bits : field b 16 2 ≡ b 2 / 64
  profile_bits = omega (arith, bytes 0, bytes 1, bytes 2, bytes 3, bytes 4, bytes 5, bytes 6)

  sampling_freq_index_bits : field b 18 4 ≡ b 2 / 4 % 16
  sampling_freq_index_bits =
      omega (arith, bytes 0, bytes 1, bytes 2, bytes 3, bytes 4, bytes 5, bytes 6)

  private_bit_bits : field b 22 1 ≡ b 2 / 2 % 2
  private_bit_bits = omega (arith, bytes 0, bytes 1, bytes 2, bytes 3, bytes 4, bytes 5, bytes 6)

  channel_cfg_bits : field b 23 3 ≡ b 2 % 2 * 4 + b 3 / 64
  channel_cfg_bits = omega (arith, bytes 0, bytes 1, bytes 2, bytes 3, bytes 4, bytes 5, bytes 6)

  original_copy_bits : field b 26 1 ≡ b 3 / 32 % 2
  original_copy_bits = omega (arith, bytes 0, bytes 1, bytes 2, bytes 3, bytes 4, bytes 5, bytes 6)

  home_bits : field b 27 1 ≡ b 3 / 16 % 2
  home_bits = omega (arith, bytes 0, bytes 1, bytes 2, bytes 3, bytes 4, bytes 5, bytes 6)

  copyright_identification_bit_bits : field b 28 1 ≡ b 3 / 8 % 2
  copyright_identification_bit_bits =
      omega (arith, bytes 0, bytes 1, bytes 2, bytes 3, bytes 4, bytes 5, bytes 6)

  aac_frame_length_bits : field b 30 13 ≡ (b 3 % 4 * 256 + b 4) * 8 + b 5 / 32
  aac_frame_length_bits =
      omega (arith, bytes 0, bytes 1, bytes 2, bytes 3, bytes 4, bytes 5, bytes 6)

  adts_buffer_fullness_bits : field b 43 11 ≡ b 5 % 32 * 64 + b 6 / 4
  adts_buffer_fullness_bits =
      omega (arith, bytes 0, bytes 1, bytes 2, bytes 3, bytes 4, bytes 5, bytes 6)

  number_of_raw_data_block_in_frame_bits : field b 54 2 ≡ b 6 % 4
  number_of_raw_data_block_in_frame_bits =
      omega (arith, bytes 0, bytes 1, bytes 2, bytes 3, bytes 4, bytes 5, bytes 6)

  channel_cfg_or :
      bit_or (bit_and (b 2) 0x01 * 4) (bit_and (b 3) 0xC0 / 64) ≡ b 2 % 2 * 4 + b 3 / 64
  channel_cfg_or =
      rw ((mask 2).bit0, (mask 3).bits6_7)
        (or_channel (b 2 % 2) (b 3 / 64) (omega arith) (omega (arith, bytes 3)))

  aac_frame_length_or :
      bit_or (bit_or (bit_and (b 3) 0x03 * 2048) (bit_and (b 4) 0xFF * 8)) (bit_and (b 5) 0xE0 / 32)
      ≡ (b 3 % 4 * 256 + b 4) * 8 + b 5 / 32
  aac_frame_length_or =
      rw ((mask 3).low2, (mask 4).all8, (mask 5).bits5_7)
        (ap (λ x. bit_or x (b 5 / 32)) high
          ∙ or_length_low (b 3 % 4 * 256 + b 4) (b 5 / 32) (omega (arith, bytes 4))
              (omega (arith, bytes 5)))
    where
      high : bit_or (b 3 % 4 * 2048) (b 4 * 8) ≡ (b 3 % 4 * 256 + b 4) * 8
      high = or_length_high (b 3 % 4) (b 4) (omega arith) (bytes 4) ∙ omega arith

  adts_buffer_fullness_or :
      bit_or (bit_and (b 5) 0x1F * 64) (bit_and (b 6) 0xFC / 4) ≡ b 5 % 32 * 64 + b 6 / 4
  adts_buffer_fullness_or =
      rw ((mask 5).low5, (mask 6).bits2_7)
        (or_fullness (b 5 % 32) (b 6 / 4) (omega arith) (omega (arith, bytes 6)))

  header_fields-Reads : Reads b (header_fields b)
  unfolding header_fields
  header_fields-Reads = record {
    id_is = (mask 1).bit3 ∙ sym id_bits;
    layer_is = (mask 1).bits1_2 ∙ sym layer_bits;
    protection_absent_is = (mask 1).bit0 ∙ sym protection_absent_bits;
    profile_is = (mask 2).bits6_7 ∙ sym profile_bits;
    sampling_freq_index_is = (mask 2).bits2_5 ∙ sym sampling_freq_index_bits;
    private_bit_is = (mask 2).bit1 ∙ sym private_bit_bits;
    channel_cfg_is = channel_cfg_or ∙ sym channel_cfg_bits;
    original_copy_is = (mask 3).bit5 ∙ sym original_copy_bits;
    home_is = (mask 3).bit4 ∙ sym home_bits;
    copyright_identification_bit_is = (mask 3).bit3 ∙ sym copyright_identification_bit_bits;
    aac_frame_length_is = aac_frame_length_or ∙ sym aac_frame_length_bits;
    adts_buffer_fullness_is = adts_buffer_fullness_or ∙ sym adts_buffer_fullness_bits;
    number_of_raw_data_block_in_frame_is =
        (mask 6).low2 ∙ sym number_of_raw_data_block_in_frame_bits;
  }

  start_is : (header_fields b).copyright_identification_start ≡ field b 31 1
  unfolding header_fields
  start_is =
      (mask 3).bit0 ∙ omega (arith, bytes 0, bytes 1, bytes 2, bytes 3, bytes 4, bytes 5, bytes 6)

  synced : (b 0 == 0xFF && bit_and (b 1) 0xF0 == 0xF0) ≡ (field b 0 12 == 0xFFF)
  synced =
      ap (λ x. b 0 == 0xFF && x == 0xF0) (mask 1).high4
      ∙ by_halves (b 0) (b 1) (bytes 0) (bytes 1)
      ∙ ap (λ x. x == 0xFFF) (sym sync_bits)
    where
      sync_bits : field b 0 12 ≡ b 0 * 16 + b 1 / 16
      sync_bits = omega (arith, bytes 0, bytes 1, bytes 2, bytes 3, bytes 4, bytes 5, bytes 6)

  -- On bytes, `parseAdtsHeader` returns -1 exactly where the first twelve bits are not 0xFFF;
  -- else it reports each field of the 56 header bits but `copyrightIdentificationStart`, for
  -- which it reports the second bit of the frame length, and `syncword`, which stays 0.
  pub parse_adts_header-Reads :
      ((field b 0 12 ≢ 0xFFF) × (parse_adts_header b ≡ none))
      ⊎ ((h : AdtsHeader) × (field b 0 12 ≡ 0xFFF)
          × (parse_adts_header b ≡ some h)
          × Reads b h
          × (h.syncword ≡ 0)
          × (h.copyright_identification_start ≡ field b 31 1))
  unfolding parse_adts_header
  parse_adts_header-Reads = elim (Bool-cases (field b 0 12 == 0xFFF)) [
    | inl sync ↦ inr (
      header_fields b,
      (==_iff _ _).0 sync,
      rw (synced ∙ sync),
      header_fields-Reads,
      unfold header_fields in refl,
      start_is,
    )
    | inr no_sync ↦ inl (other no_sync, rw (synced ∙ no_sync))
  ]
    where
      other : (field b 0 12 == 0xFFF) ≡ false → field b 0 12 ≢ 0xFFF
      other no_sync e = false≢true (sym no_sync ∙ (==_iff _ _).1 e)
