-- ===== src/Codec/H264.antt =====
-- src/codec/h264/h264_track.cpp and h264_frame.cpp. The parser of the sequence parameter set is
-- vendored: `parse_sps` stands for it, and is `none` where it does not return 0.
pub mod Config
use Prim.Native.Nat.{bit_and}
use streaming.Prelude.{
  ℕ, ◌+◌, ◌*◌, ◌%◌, ◌^◌, Bool, ◌||◌, List, [], ◌∷◌, ◌++◌, length, drop, take, get_or, ltb, ◌==◌,
  Option, none, some, if◌then◌else◌,
}
use streaming.Prelude.Outcome.{Result, ok, err, ◌>>=◌, ◌>>◌, throw_if, bad_sps, undefined}
use streaming.Network.Unread
use streaming.Codec.Frame.{Frame, Track, h264, input_frame}

-- The prefix without the zero that ends the literal.
abbrev pub h264_header_prefix : List ℕ
h264_header_prefix = 0 ∷ 0 ∷ 0 ∷ 1 ∷ []

-- What the parser of a sequence parameter set gives.
pub record SpsInfo : Type 0 where
  pub width : ℕ
  pub height : ℕ
  pub fps : ℕ

pub record H264Track : Type 0 where
  pub base : Track
  pub sps : List ℕ
  pub pps : List ℕ
  pub info : SpsInfo

-- A frame with the prefix in front of `bytes`.
unfoldable pub prefixed : ℕ → ℕ → List ℕ → Frame
prefixed dts pts bytes = record {
  codec_id = h264;
  dts = dts;
  pts = pts;
  prefix_size = 4;
  buf = h264_header_prefix ++ bytes;
}

-- The byte behind the prefix is read without a test that it is there.
unfoldable pub nal_type : Frame → Result ℕ
nal_type f = do
  Unread.require f.prefix_size f.buf
  throw_if (length f.buf == f.prefix_size) undefined
  ok (bit_and (get_or f.buf f.prefix_size 0) 0x1F)

unfoldable pub is_key_frame : Frame → Result Bool
unfolding nal_type
is_key_frame f = do ft ← nal_type f; ok (ft == 5)

unfoldable pub is_config_frame : Frame → Result Bool
unfolding nal_type
is_config_frame f = do ft ← nal_type f; ok (ft == 7 || ft == 8)

unfoldable pub encapsulate_config_frame : List ℕ → Track → Track
unfolding input_frame prefixed
encapsulate_config_frame [] t = t
encapsulate_config_frame (b ∷ bs) t = input_frame (prefixed 0 0 (b ∷ bs)) t

-- A length of 16 bits and as many bytes.
unfoldable pub read_block : List ℕ → Result (List ℕ × List ℕ)
read_block buf = do
  (n, rest) ← Unread.read 2 buf
  Unread.require n rest
  ok (take n rest, drop n rest)

module _ (parse_sps : List ℕ → Option SpsInfo) where
  -- The parser is given what follows the first byte. A short set is only logged.
  unfoldable pub extract_bitstream_sps : H264Track → Result H264Track
  extract_bitstream_sps t = if ltb (length t.sps) 4 then ok t else parsed (parse_sps (drop 1 t.sps))
    where
      parsed : Option SpsInfo → Result H264Track
      parsed none = err bad_sps
      parsed (some i) = ok (record t { info = i })

  unfoldable pub parse_config : List ℕ → H264Track → Result H264Track
  unfolding extract_bitstream_sps encapsulate_config_frame read_block
  parse_config buf t = do
    blocks ← Unread.consume 6 buf
    (sps, behind) ← read_block blocks
    more ← Unread.consume 1 behind
    (pps, rest) ← read_block more
    parsed ← extract_bitstream_sps (record t { sps = sps; pps = pps })
    let with_sps = encapsulate_config_frame sps parsed.base
    ok (record parsed { base = encapsulate_config_frame pps with_sps })
