-- ===== src/Codec/Aac/Adts.antt =====
-- The ADTS header that src/codec/aac/aac_track.cpp writes, against a reader that takes the fields
-- from one number of 56 bits.
use streaming.Prelude.{◌++◌, ap, ◌∙◌, ℕ, ◌+◌, ◌*◌, ◌/◌, ◌%◌, ◌^◌, ◌≡◌, arith, List, take}
use streaming.Network.Unread.{big_endian}
use streaming.Codec.Aac.{AdtsHeader, dump_adts_header}
use streaming.Codec.Aac.Masks
use streaming.Codec.Aac.Octets.{Fits, byte1, byte2, byte3, byte5, byte6}

-- The fields in their order, by the number of bits behind each.
unfoldable pub header_of : ℕ → AdtsHeader
header_of n = record {
  syncword = n / 2 ^ 44;
  id = n / 2 ^ 43 % 2;
  layer = n / 2 ^ 41 % 4;
  protection_absent = n / 2 ^ 40 % 2;
  profile = n / 2 ^ 38 % 4;
  sampling_frequency_index = n / 2 ^ 34 % 16;
  private_bit = n / 2 ^ 33 % 2;
  channel_configuration = n / 2 ^ 30 % 8;
  originality = n / 2 ^ 29 % 2;
  home = n / 2 ^ 28 % 2;
  copyright_identification_bit = n / 2 ^ 27 % 2;
  copyright_identification_start = n / 2 ^ 26 % 2;
  aac_frame_length = n / 2 ^ 13 % 2 ^ 13;
  adts_buffer_fullness = n / 2 ^ 2 % 2 ^ 11;
  no_raw_data_blocks_in_frame = n % 4;
}

unfoldable pub read_adts : List ℕ → AdtsHeader
read_adts bytes = header_of (big_endian 0 (take 7 bytes))

module _ (h : AdtsHeader) (f : Fits h) where
  -- The header as one number.
  abbrev number : ℕ
  number =
      h.syncword * 2 ^ 44
      + h.id * 2 ^ 43
      + h.layer * 2 ^ 41
      + h.protection_absent * 2 ^ 40
      + h.profile * 2 ^ 38
      + h.sampling_frequency_index * 2 ^ 34
      + h.private_bit * 2 ^ 33
      + h.channel_configuration * 2 ^ 30
      + h.originality * 2 ^ 29
      + h.home * 2 ^ 28
      + h.copyright_identification_bit * 2 ^ 27
      + h.copyright_identification_start * 2 ^ 26
      + h.aac_frame_length * 2 ^ 13
      + h.adts_buffer_fullness * 2 ^ 2
      + h.no_raw_data_blocks_in_frame

  header_of-number : header_of number ≡ h
  unfolding header_of
  header_of-number =
      let p0 : (header_of number).syncword ≡ h.syncword = omega (arith, f) in
      let p1 : (header_of number).id ≡ h.id = omega (arith, f) in
      let p2 : (header_of number).layer ≡ h.layer = omega (arith, f) in
      let p3 : (header_of number).protection_absent ≡ h.protection_absent = omega (arith, f) in
      let p4 : (header_of number).profile ≡ h.profile = omega (arith, f) in
      let p5 : (header_of number).sampling_frequency_index ≡ h.sampling_frequency_index =
        omega (arith, f) in
      let p6 : (header_of number).private_bit ≡ h.private_bit = omega (arith, f) in
      let p7 : (header_of number).channel_configuration ≡ h.channel_configuration =
        omega (arith, f) in
      let p8 : (header_of number).originality ≡ h.originality = omega (arith, f) in
      let p9 : (header_of number).home ≡ h.home = omega (arith, f) in
      let p10 : (header_of number).copyright_identification_bit ≡ h.copyright_identification_bit =
        omega (arith, f) in
      let p11 : (header_of number).copyright_identification_start
          ≡ h.copyright_identification_start =
        omega (arith, f) in
      let p12 : (header_of number).aac_frame_length ≡ h.aac_frame_length = omega (arith, f) in
      let p13 : (header_of number).adts_buffer_fullness ≡ h.adts_buffer_fullness =
        omega (arith, f) in
      let p14 : (header_of number).no_raw_data_blocks_in_frame ≡ h.no_raw_data_blocks_in_frame =
        omega (arith, f) in
      λ i. record {
        syncword = p0 i;
        id = p1 i;
        layer = p2 i;
        protection_absent = p3 i;
        profile = p4 i;
        sampling_frequency_index = p5 i;
        private_bit = p6 i;
        channel_configuration = p7 i;
        originality = p8 i;
        home = p9 i;
        copyright_identification_bit = p10 i;
        copyright_identification_start = p11 i;
        aac_frame_length = p12 i;
        adts_buffer_fullness = p13 i;
        no_raw_data_blocks_in_frame = p14 i;
      }

  dump-number : (rest : List ℕ) → big_endian 0 (take 7 (dump_adts_header h ++ rest)) ≡ number
  unfolding dump_adts_header big_endian
  dump-number rest =
      rw (byte1 h f, byte2 h f, byte3 h f, byte5 h f, byte6 h f)
        (rw
          (
            Masks.mask_low8 (h.syncword / 2 ^ 4) (omega (arith, f.syncword)),
            Masks.mask_low8 (h.aac_frame_length / 2 ^ 3) (omega (arith, f.frame_length)),
          )
          (omega (arith, f)))

  -- A header whose fields fit their bits is read back from the seven bytes that are written for
  -- it, whatever follows them, by a reader that knows the format only.
  pub read_adts-dump_adts_header : (rest : List ℕ) → read_adts (dump_adts_header h ++ rest) ≡ h
  unfolding read_adts
  read_adts-dump_adts_header rest = ap header_of (dump-number rest) ∙ header_of-number
