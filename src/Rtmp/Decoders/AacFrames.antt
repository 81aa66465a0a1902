-- ===== src/Rtmp/Decoders/AacFrames.antt =====
-- The frames that `aac_rtmp_decoder` makes of the payloads of audio messages.
use Prim.Native.Nat.{bit_and}
use streaming.Prelude.{
  ℕ, ◌+◌, ◌-◌, ◌*◌, ◌/◌, ◌%◌, ◌^◌, ◌<◌, ◌≤◌, ◌≡◌, refl, sym, ap, ◌∙◌, arith, false, List, ◌∷◌, ◌++◌,
  length, length-append, ltb,
}
use streaming.Prelude.Outcome.{ok}
use streaming.Prelude.Words.{IsByte}
use streaming.Prelude.Bits.{bit_or-add, byte_table, all_below}
use streaming.Network.Unread.{require, consume}
use streaming.Codec.Frame.{input_frame}
use streaming.Codec.Aac.{
  AacTrack, AdtsHeader, sample_index_of, channel_of, extract_aac_config, dump_adts_header,
  aac_frame,
}
use streaming.Codec.Aac.Octets.{Fits}
use streaming.Codec.Aac.Adts.{read_adts, read_adts-dump_adts_header}
use streaming.Rtmp.Packet.{Packet, is_config_frame}
use streaming.Rtmp.Decoders.{aac_input_rtmp}

-- The two bytes of a configuration with an object type from 1 to 4, which are all that ADTS has.
pub record IsPlain (cfg1 cfg2 : ℕ) : Type 0 where
  pub first : IsByte cfg1
  pub second : IsByte cfg2
  pub at_least : 8 ≤ cfg1
  pub below : cfg1 < 40
  pub channel : cfg2 / 8 % 16 < 8

low3 : (b : ℕ) → b < 256 → bit_and b 0b00000111 ≡ b % 8
unfolding all_below
low3 = byte_table (λ b. bit_and b 0b00000111) (λ b. b % 8) refl

channel_of-div : (b : ℕ) → b < 256 → channel_of b ≡ b / 8 % 16
unfolding all_below channel_of
channel_of-div = byte_table channel_of (λ b. b / 8 % 16) refl

sample_index_of-sum :
    (cfg1 cfg2 : ℕ)
    → IsByte cfg1
    → IsByte cfg2
    → sample_index_of cfg1 cfg2 ≡ cfg1 % 8 * 2 + cfg2 / 128
unfolding sample_index_of
sample_index_of-sum cfg1 cfg2 h1 h2 =
    rw (low3 cfg1 h1)
      (bit_or-add 1 (cfg1 % 8) (cfg1 % 8 * 2) (cfg2 / 2 ^ 7) (omega arith) (omega (arith, h2)))

-- The header of the frames of a track whose configuration is `cfg1 ∷ cfg2 ∷ more`.
abbrev pub header_for : ℕ → ℕ → ℕ → AdtsHeader
header_for cfg1 cfg2 frame_length = record {
  syncword = 0x0FFF;
  id = 0;
  layer = 0;
  protection_absent = 1;
  profile = cfg1 / 8 - 1;
  sampling_frequency_index = cfg1 % 8 * 2 + cfg2 / 128;
  private_bit = 0;
  channel_configuration = cfg2 / 8 % 16;
  originality = 0;
  home = 0;
  copyright_identification_bit = 0;
  copyright_identification_start = 0;
  aac_frame_length = frame_length;
  adts_buffer_fullness = 0b11111111111;
  no_raw_data_blocks_in_frame = 0;
}

module _ (cfg1 cfg2 n : ℕ) (plain : IsPlain cfg1 cfg2) where
  header_for-Fits : n < 2 ^ 13 → Fits (header_for cfg1 cfg2 n)
  header_for-Fits small = record {
    syncword = omega arith;
    id = omega arith;
    layer = omega arith;
    protection = omega arith;
    profile = omega (arith, plain);
    sampling = omega (arith, plain);
    private = omega arith;
    channel = omega (arith, plain);
    originality = omega arith;
    home = omega arith;
    copyright = omega arith;
    start = omega arith;
    frame_length = omega arith;
    fullness = omega arith;
    blocks = omega arith;
  }

  extract_aac_config-header :
      (more : List ℕ) (t : AacTrack)
      → extract_aac_config (record t { cfg = cfg1 ∷ cfg2 ∷ more }) ≡ ok (header_for cfg1 cfg2 7)
  unfolding extract_aac_config
  extract_aac_config-header more t =
      let long : ltb (length (cfg1 ∷ cfg2 ∷ more)) 2 ≡ false = ground arith in
      let profile : (cfg1 / 2 ^ 3 + 2 ^ 32 - 1) % 2 ^ 32 ≡ cfg1 / 8 - 1 = omega (arith, plain) in
      rw
        (
          long,
          profile,
          sample_index_of-sum cfg1 cfg2 plain.first plain.second,
          channel_of-div cfg2 plain.second,
        )
        refl

-- Each audio message that is no configuration gives one frame. The seven bytes in front of its
-- payload, read by a reader that knows ADTS only, are the fields of the configuration, and the
-- length in them is the frame's: for a configuration that ADTS can express (object type 1 to 4, at
-- most 7 as the channel configuration) and a frame of fewer than 2^13 bytes.
pub aac_input_rtmp-frame :
    (pkt : Packet) (tag kind : ℕ) (payload : List ℕ) (cfg1 cfg2 : ℕ) (more : List ℕ) (t : AacTrack)
    → is_config_frame (record pkt { buf = tag ∷ kind ∷ payload }) ≡ ok false
    → IsPlain cfg1 cfg2
    → length payload + 7 < 2 ^ 13
    → (head : List ℕ) × (aac_input_rtmp
          (record pkt { buf = tag ∷ kind ∷ payload })
          (record t { cfg = cfg1 ∷ cfg2 ∷ more })
        ≡ ok (record t {
          base = input_frame (aac_frame (head ++ payload) pkt.time_stamp) t.base;
          cfg = cfg1 ∷ cfg2 ∷ more;
        }))
      × (length head ≡ 7)
      × (read_adts (head ++ payload) ≡ header_for cfg1 cfg2 (length (head ++ payload)))
unfolding aac_input_rtmp require consume dump_adts_header
aac_input_rtmp-frame pkt tag kind payload cfg1 cfg2 more t media plain short =
    let n = length payload + 7 in
    let h = header_for cfg1 cfg2 n in
    let size : length (dump_adts_header h ++ payload) ≡ n =
      omega (arith, length-append (dump_adts_header h) payload) in
    let long : ltb (length (tag ∷ kind ∷ payload)) 2 ≡ false = ground arith in
    let wide : n % 2 ^ 32 ≡ n = omega arith in
    (
      dump_adts_header h,
      rw (long, media, extract_aac_config-header cfg1 cfg2 n plain more t, wide) refl,
      refl,
      read_adts-dump_adts_header h (header_for-Fits cfg1 cfg2 n plain short) payload
          ∙ ap (header_for cfg1 cfg2) (sym size),
    )
