-- ===== src/Rtmp/Decoders.antt =====
-- src/protocol/rtmp/h264_rtmp.cpp and aac_rtmp.cpp: from the payload of a message to the frames.
pub mod Nals
pub mod CompositionTime
pub mod AacFrames
use Prim.Native.Nat.{bit_or, bit_xor}
use streaming.Prelude.{
  ℕ, zero, suc, ◌+◌, ◌*◌, ◌%◌, ◌^◌, List, [], ◌∷◌, ◌++◌, length, take, drop, get_or, ltb, ◌==◌, not,
  Option, if◌then◌else◌,
}
use streaming.Prelude.Outcome.{Result, ok, err, ◌>>=◌, ◌>>◌, throw_if, bad_nal_lengths, out_of_fuel}
use streaming.Prelude.Sending.{Call, Done}
use streaming.Network.Unread
use streaming.Codec.Frame.{Track, input_frame}
use streaming.Codec.H264
use streaming.Codec.H264.{H264Track, SpsInfo, prefixed}
use streaming.Codec.Aac
use streaming.Codec.Aac.{
  AacTrack, AdtsHeader, extract_aac_config, dump_adts_header, aac_frame, adts_header_length,
}
use streaming.Rtmp.Packet.{Packet, is_config_frame}

-- The `while` of `split_nal_frame`: what it leaves unread, and the track that was given the frames.
unfoldable pub split_loop : ℕ → ℕ → ℕ → List ℕ → Track → Result (List ℕ × Track)
unfolding input_frame
split_loop zero dts pts buf t = err out_of_fuel
split_loop (suc fuel) dts pts buf t =
    let round = Unread.read 4 buf >>= (λ (len, rest).
      if ltb (length rest) len
      then ok (rest, t)
      else split_loop fuel dts pts (drop len rest)
          (input_frame (prefixed dts pts (take len rest)) t)) in
    if ltb (length buf) 4 then ok (buf, t) else round

-- The track has been given the frames when the call throws.
unfoldable pub split_nal_frame : ℕ → ℕ → List ℕ → Call Track (Unit {0})
unfolding split_loop
split_nal_frame dts pts buf t = ended (split_loop (suc (length buf)) dts pts buf t)
  where
    ended : Result (List ℕ × Track) → Done Track (Unit {0})
    ended (err e) = record { sent = []; state = t; value = err e }
    ended (ok (left, given)) = record {
      sent = [];
      state = given;
      value = throw_if (not (length left == 0)) bad_nal_lengths;
    }

-- The signed 24 bits, as the 32 bits of an `int32_t`.
unfoldable pub composition_time : ℕ → ℕ → ℕ → ℕ
composition_time b0 b1 b2 =
    bit_xor ((bit_or (bit_or (b0 * 2 ^ 16) (b1 * 2 ^ 8)) b2 + 0xff800000) % 2 ^ 32) 0xff800000

-- An exception leaves the decoder to the session, which stops: only `split_nal_frame` says what the
-- track was given before.
unfoldable pub h264_input_rtmp : (List ℕ → Option SpsInfo) → Packet → H264Track → Result H264Track
unfolding split_nal_frame composition_time
h264_input_rtmp parse_sps pkt t = do
  Unread.require 5 pkt.buf
  config ← is_config_frame pkt
  let configured =
      Unread.consume 5 pkt.buf >>= (λ record_bytes. H264.parse_config parse_sps record_bytes t)
  let split = do
    time ← Unread.consume 2 pkt.buf
    let cts = composition_time (get_or time 0 0) (get_or time 1 0) (get_or time 2 0)
    nals ← Unread.consume 3 time
    let given = split_nal_frame pkt.time_stamp ((pkt.time_stamp + cts) % 2 ^ 32) nals t.base
    given.value
    ok (record t { base = given.state })
  if config then configured else split

-- A frame is the header and the payload, and the length in the header is that of both.
unfoldable pub aac_input_rtmp : Packet → AacTrack → Result AacTrack
unfolding input_frame
aac_input_rtmp pkt t = do
  Unread.require 2 pkt.buf
  config ← is_config_frame pkt
  let configured = Unread.consume 2 pkt.buf >>= (λ config_bytes. Aac.parse_config config_bytes t)
  let framed = do
    payload ← Unread.consume 2 pkt.buf
    config_header ← extract_aac_config t
    let adts_head = record config_header {
      aac_frame_length = (length payload + adts_header_length) % 2 ^ 32;
    }
    let data_buf = dump_adts_header adts_head ++ payload
    ok (record t { base = input_frame (aac_frame data_buf pkt.time_stamp) t.base })
  if config then configured else framed
