-- ===== src/Codec/Aac.antt =====
-- include/codec/aac/aac_track.h, src/codec/aac/aac_track.cpp and aac_frame.cpp.
pub mod Masks
pub mod Octets
pub mod Adts
use streaming.Prelude.{
  ℕ, ◌+◌, ◌-◌, ◌*◌, ◌/◌, ◌%◌, ◌^◌, Bool, ◌||◌, List, [], ◌∷◌, length, get_or, leb, ltb, ◌==◌,
  if◌then◌else◌,
}
use Prim.Native.Nat.{bit_and, bit_or}
use streaming.Prelude.Outcome.{
  Result, ok, err, ◌>>=◌, ◌>>◌, throw_if, bad_aac_config, bad_sample_index,
}
use streaming.Network.Unread
use streaming.Codec.Frame.{Frame, Track, aac}

abbrev pub sampling_frequency_table : List ℕ
sampling_frequency_table =
    96000 ∷ 88200 ∷ 64000 ∷ 48000 ∷ 44100 ∷ 32000 ∷ 24000 ∷ 22050 ∷ 16000 ∷ 12000 ∷ 11025 ∷ 8000
    ∷ 7350 ∷ 0 ∷ 0 ∷ 0 ∷ []

abbrev pub adts_header_length : ℕ
adts_header_length = 7

-- The fields are `unsigned int`.
pub record AdtsHeader : Type 0 where
  pub syncword : ℕ
  pub id : ℕ
  pub layer : ℕ
  pub protection_absent : ℕ
  pub profile : ℕ
  pub sampling_frequency_index : ℕ
  pub private_bit : ℕ
  pub channel_configuration : ℕ
  pub originality : ℕ
  pub home : ℕ
  pub copyright_identification_bit : ℕ
  pub copyright_identification_start : ℕ
  pub aac_frame_length : ℕ
  pub adts_buffer_fullness : ℕ
  pub no_raw_data_blocks_in_frame : ℕ

pub record AacTrack : Type 0 where
  pub base : Track
  pub cfg : List ℕ
  pub channel : ℕ
  pub sample_rate : ℕ

-- The fields of the two bytes of an AudioSpecificConfig.
unfoldable pub sample_index_of : ℕ → ℕ → ℕ
sample_index_of cfg1 cfg2 = bit_or (bit_and cfg1 0b00000111 * 2 ^ 1) (cfg2 / 2 ^ 7)

unfoldable pub channel_of : ℕ → ℕ
channel_of cfg2 = bit_and cfg2 0b01111000 / 2 ^ 3

-- `buf` is the unread bytes, none of which are consumed.
unfoldable pub parse_config : List ℕ → AacTrack → Result AacTrack
parse_config buf t = do
  Unread.require 2 buf
  let sample_index = sample_index_of (get_or buf 0 0) (get_or buf 1 0)
  throw_if (leb 16 sample_index) bad_sample_index
  ok (record t {
    cfg = buf;
    sample_rate = get_or sampling_frequency_table sample_index 0;
    channel = channel_of (get_or buf 1 0);
  })

unfoldable pub extract_aac_config : AacTrack → Result AdtsHeader
extract_aac_config t = do
  throw_if (ltb (length t.cfg) 2) bad_aac_config
  let cfg1 = get_or t.cfg 0 0
  let cfg2 = get_or t.cfg 1 0
  ok (record {
    syncword = 0x0FFF;
    id = 0;
    layer = 0;
    protection_absent = 1;
    profile = (cfg1 / 2 ^ 3 + 2 ^ 32 - 1) % 2 ^ 32;
    sampling_frequency_index = sample_index_of cfg1 cfg2;
    private_bit = 0;
    channel_configuration = channel_of cfg2;
    originality = 0;
    home = 0;
    copyright_identification_bit = 0;
    copyright_identification_start = 0;
    aac_frame_length = 7;
    adts_buffer_fullness = 0b11111111111;
    no_raw_data_blocks_in_frame = 0;
  })

-- `x << k` of an `unsigned int`.
abbrev pub shl : ℕ → ℕ → ℕ
shl x k = x * 2 ^ k % 2 ^ 32

infixl 40 ◌or◌
abbrev pub ◌or◌ : ℕ → ℕ → ℕ
a or b = bit_or a b

-- The seven bytes, each from the fields that lie in it.
unfoldable pub dump_adts_header : AdtsHeader → List ℕ
dump_adts_header h =
    bit_and (h.syncword / 2 ^ 4) 0xFF
    ∷ (bit_and (shl h.syncword 4) 0xF0
        or bit_and (shl h.id 3) 0b1000
        or bit_and (shl h.layer 1) 0b0110
        or bit_and h.protection_absent 0b0001)
    ∷ (bit_and (shl h.profile 6) 0b11000000
        or bit_and (shl h.sampling_frequency_index 2) 0b00111100
        or bit_and (shl h.private_bit 1) 0b0010
        or bit_and (h.channel_configuration / 2 ^ 2) 0b0001)
    ∷ (bit_and (shl h.channel_configuration 6) 0b11000000
        or bit_and (shl h.originality 5) 0b00100000
        or bit_and (shl h.home 4) 0b00010000
        or bit_and (shl h.copyright_identification_bit 3) 0b00001000
        or bit_and (shl h.copyright_identification_start 2) 0b00000100
        or bit_and (h.aac_frame_length / 2 ^ 11) 0b00000011)
    ∷ bit_and (h.aac_frame_length / 2 ^ 3) 0xFF
    ∷ (bit_and (shl h.aac_frame_length 5) 0b11100000
        or bit_and (h.adts_buffer_fullness / 2 ^ 6) 0b00011111)
    ∷ (bit_and (shl h.adts_buffer_fullness 2) 0b11111100
        or bit_and h.no_raw_data_blocks_in_frame 0b00000011)
    ∷ []

-- The constructor of `aac_frame`.
unfoldable pub aac_frame : List ℕ → ℕ → Frame
aac_frame buf dts = record {
  codec_id = aac;
  dts = dts % 2 ^ 32;
  pts = 0;
  prefix_size = 0;
  buf = buf;
}
