-- ===== src/Codec/Examples.antt =====
-- Runs of the code of codec/, at one input for each theorem.
use streaming.Prelude.{ℕ, ◌≡◌, refl, arith, true, some, List, [], ◌∷◌, ◌++◌}
use streaming.Prelude.Outcome.{ok}
use streaming.Codec.H264.{H264Track, SpsInfo, parse_config}
use streaming.Codec.H264.Config.{config_record, config_frames, parse_config-record}
use streaming.Codec.Aac.{AdtsHeader, dump_adts_header}
use streaming.Codec.Aac.Octets.{Fits}
use streaming.Codec.Aac.Adts.{read_adts, read_adts-dump_adts_header}

abbrev info : SpsInfo
info = record { width = 1280; height = 720; fps = 30 }

abbrev track : H264Track
track = record {
  base = record { bit_rate = 2500; has_translator = true; translated = [] };
  sps = [];
  pps = [];
  info = record { width = 0; height = 0; fps = 0 };
}

abbrev head : List ℕ
head = 1 ∷ 66 ∷ 0 ∷ 30 ∷ 255 ∷ 225 ∷ []

abbrev sps : List ℕ
sps = 103 ∷ 66 ∷ 0 ∷ 30 ∷ []

abbrev pps : List ℕ
pps = 104 ∷ 206 ∷ []

parse_config-record_example :
    parse_config (λ x. some info) (config_record head sps 1 pps []) track
    ≡ ok (record {
      base = record track.base { translated = ([] ++ config_frames sps) ++ config_frames pps };
      sps = sps;
      pps = pps;
      info = info;
    })
parse_config-record_example =
    parse_config-record (λ x. some info) head sps pps [] 1 info track refl (omega arith)
      (omega arith) (omega arith) refl refl

abbrev header : AdtsHeader
header = record {
  syncword = 0x0FFF;
  id = 0;
  layer = 0;
  protection_absent = 1;
  profile = 1;
  sampling_frequency_index = 4;
  private_bit = 0;
  channel_configuration = 2;
  originality = 0;
  home = 0;
  copyright_identification_bit = 0;
  copyright_identification_start = 0;
  aac_frame_length = 371;
  adts_buffer_fullness = 0b11111111111;
  no_raw_data_blocks_in_frame = 0;
}

header-Fits : Fits header
header-Fits = record {
  syncword = omega arith;
  id = omega arith;
  layer = omega arith;
  protection = omega arith;
  profile = omega arith;
  sampling = omega arith;
  private = omega arith;
  channel = omega arith;
  originality = omega arith;
  home = omega arith;
  copyright = omega arith;
  start = omega arith;
  frame_length = omega arith;
  fullness = omega arith;
  blocks = omega arith;
}

read_adts-dump_adts_header_example : read_adts (dump_adts_header header ++ (33 ∷ [])) ≡ header
read_adts-dump_adts_header_example = read_adts-dump_adts_header header header-Fits (33 ∷ [])
