-- ===== src/Codec/Aac/Octets.antt =====
-- The seven bytes of the ADTS header that src/codec/aac/aac_track.cpp writes, as sums of its fields.
use streaming.Prelude.{◌+◌, ◌*◌, ◌/◌, ◌%◌, ◌^◌, ◌<◌, ◌≡◌, refl, arith}
use Prim.Native.Nat.{bit_and, bit_or}
use streaming.Prelude.Bits.{bit_or-add}
use streaming.Codec.Aac.{AdtsHeader, shl}
use streaming.Codec.Aac.Masks

-- Every field fits the bits that it has.
pub record Fits (h : AdtsHeader) : Type 0 where
  pub syncword : h.syncword < 2 ^ 12
  pub id : h.id < 2
  pub layer : h.layer < 4
  pub protection : h.protection_absent < 2
  pub profile : h.profile < 4
  pub sampling : h.sampling_frequency_index < 16
  pub private : h.private_bit < 2
  pub channel : h.channel_configuration < 8
  pub originality : h.originality < 2
  pub home : h.home < 2
  pub copyright : h.copyright_identification_bit < 2
  pub start : h.copyright_identification_start < 2
  pub frame_length : h.aac_frame_length < 2 ^ 13
  pub fullness : h.adts_buffer_fullness < 2 ^ 11
  pub blocks : h.no_raw_data_blocks_in_frame < 4

module _ (h : AdtsHeader) (f : Fits h) where
  pub byte1 :
      bit_or
        (bit_or
          (bit_or (bit_and (shl h.syncword 4) 0xF0) (bit_and (shl h.id 3) 0b1000))
          (bit_and (shl h.layer 1) 0b0110))
        (bit_and h.protection_absent 0b0001)
      ≡ h.syncword % 16 * 16 + h.id * 8 + h.layer * 2 + h.protection_absent
  byte1 =
      rw
        (
          Masks.mask_top4 h.syncword f.syncword,
          Masks.mask_1_3 h.id f.id,
          Masks.mask_2_1 h.layer f.layer,
          Masks.mask_low1 h.protection_absent f.protection,
        )
        (rw
          (bit_or-add 4 (h.syncword % 16) (h.syncword % 16 * 16) (h.id * 8) (omega arith)
            (omega (arith, f.id)))
          (rw
            (bit_or-add 3 (h.syncword % 16 * 2 + h.id) (h.syncword % 16 * 16 + h.id * 8)
              (h.layer * 2) (omega arith) (omega (arith, f.layer)))
            (bit_or-add 1 (h.syncword % 16 * 8 + h.id * 4 + h.layer) _ h.protection_absent
              (omega arith) (omega (arith, f.protection)))))

  pub byte2 :
      bit_or
        (bit_or
          (bit_or
            (bit_and (shl h.profile 6) 0b11000000)
            (bit_and (shl h.sampling_frequency_index 2) 0b00111100))
          (bit_and (shl h.private_bit 1) 0b0010))
        (bit_and (h.channel_configuration / 2 ^ 2) 0b0001)
      ≡ h.profile * 64
        + h.sampling_frequency_index * 4
        + h.private_bit * 2
        + h.channel_configuration / 4
  byte2 =
      let p : bit_and (shl h.profile 6) 0b11000000 ≡ h.profile * 64 =
        omega (arith, Masks.mask_top2 h.profile (omega (arith, f.profile)), f.profile) in
      let c : bit_and (h.channel_configuration / 2 ^ 2) 0b0001 ≡ h.channel_configuration / 4 =
        omega
          (arith, Masks.mask_low1 (h.channel_configuration / 2 ^ 2) (omega (arith, f.channel))) in
      rw
        (
          p,
          Masks.mask_4_2 h.sampling_frequency_index f.sampling,
          Masks.mask_1_2 h.private_bit f.private,
          c,
        )
        (rw
          (bit_or-add 6 h.profile (h.profile * 64) (h.sampling_frequency_index * 4) refl
            (omega (arith, f.sampling)))
          (rw
            (bit_or-add 2 (h.profile * 16 + h.sampling_frequency_index)
              (h.profile * 64 + h.sampling_frequency_index * 4) (h.private_bit * 2) (omega arith)
              (omega (arith, f.private)))
            (bit_or-add 1 (h.profile * 32 + h.sampling_frequency_index * 2 + h.private_bit) _
              (h.channel_configuration / 4) (omega arith) (omega (arith, f.channel)))))

  pub byte3 :
      bit_or
        (bit_or
          (bit_or
            (bit_or
              (bit_or
                (bit_and (shl h.channel_configuration 6) 0b11000000)
                (bit_and (shl h.originality 5) 0b00100000))
              (bit_and (shl h.home 4) 0b00010000))
            (bit_and (shl h.copyright_identification_bit 3) 0b00001000))
          (bit_and (shl h.copyright_identification_start 2) 0b00000100))
        (bit_and (h.aac_frame_length / 2 ^ 11) 0b00000011)
      ≡ h.channel_configuration % 4 * 64
        + h.originality * 32
        + h.home * 16
        + h.copyright_identification_bit * 8
        + h.copyright_identification_start * 4
        + h.aac_frame_length / 2 ^ 11
  byte3 =
      let c = h.channel_configuration % 4 in
      let o = h.originality in
      let m = h.home in
      let b = h.copyright_identification_bit in
      let s = h.copyright_identification_start in
      rw
        (
          Masks.mask_top2 h.channel_configuration (omega (arith, f.channel)),
          Masks.mask_1_5 o f.originality,
          Masks.mask_1_4 m f.home,
          Masks.mask_1_3 b f.copyright,
          Masks.mask_1_bit2 s f.start,
          Masks.mask_low2 (h.aac_frame_length / 2 ^ 11) (omega (arith, f.frame_length)),
        )
        (rw (bit_or-add 6 c (c * 64) (o * 32) refl (omega (arith, f.originality))) (
          rw
            (bit_or-add 5 (c * 2 + o) (c * 64 + o * 32) (m * 16) (omega arith)
              (omega (arith, f.home)))
            (rw
              (bit_or-add 4 (c * 4 + o * 2 + m) (c * 64 + o * 32 + m * 16) (b * 8) (omega arith)
                (omega (arith, f.copyright)))
              (rw
                (bit_or-add 3 (c * 8 + o * 4 + m * 2 + b) (c * 64 + o * 32 + m * 16 + b * 8) (s * 4)
                  (omega arith) (omega (arith, f.start)))
                (bit_or-add 2 (c * 16 + o * 8 + m * 4 + b * 2 + s) _ (h.aac_frame_length / 2 ^ 11)
                  (omega arith) (omega (arith, f.frame_length)))))))

  pub byte5 :
      bit_or
        (bit_and (shl h.aac_frame_length 5) 0b11100000)
        (bit_and (h.adts_buffer_fullness / 2 ^ 6) 0b00011111)
      ≡ h.aac_frame_length % 8 * 32 + h.adts_buffer_fullness / 64
  byte5 =
      rw
        (
          Masks.mask_top3 h.aac_frame_length f.frame_length,
          Masks.mask_low5 (h.adts_buffer_fullness / 2 ^ 6) (omega (arith, f.fullness)),
        )
        (bit_or-add 5 (h.aac_frame_length % 8) _ (h.adts_buffer_fullness / 64) refl
          (omega (arith, f.fullness)))

  pub byte6 :
      bit_or
        (bit_and (shl h.adts_buffer_fullness 2) 0b11111100)
        (bit_and h.no_raw_data_blocks_in_frame 0b00000011)
      ≡ h.adts_buffer_fullness % 64 * 4 + h.no_raw_data_blocks_in_frame
  byte6 =
      rw
        (
          Masks.mask_top6 h.adts_buffer_fullness f.fullness,
          Masks.mask_low2 h.no_raw_data_blocks_in_frame f.blocks,
        )
        (bit_or-add 2 (h.adts_buffer_fullness % 64) _ h.no_raw_data_blocks_in_frame refl
          (omega (arith, f.blocks)))
