-- ===== src/Flv/Muxer.antt =====
-- src/protocol/flv/flv_muxer.cpp and flv_header.h: the bytes that are sent to a client. The
-- structs are packed, and the host is little-endian.
pub mod Reader
pub mod Start
pub mod Plays
use streaming.Prelude.{
  ℕ, ◌+◌, ◌/◌, ◌%◌, ◌^◌, Bool, ◌&&◌, ◌||◌, not, Option, none, some, List, [], ◌∷◌, ◌++◌, length,
  ltb, ◌==◌, if◌then◌else◌,
}
use streaming.Prelude.Outcome.{Result, ok, err, ◌>>=◌, ◌>>◌, throw_if, invalid_flv}
use streaming.Prelude.Words.{put32}
use streaming.Util.Bytes.{set_be24}
use streaming.Rtmp.Packet.{Packet, msg_audio, msg_video}

abbrev pub script_data : ℕ
script_data = 18

abbrev pub audio_data : ℕ
audio_data = 8

abbrev pub video_data : ℕ
video_data = 9

-- 'F', 'L', 'V', the version, the two flags and the length of the header.
unfoldable pub prepare_flv_header : List ℕ
prepare_flv_header = 70 ∷ 76 ∷ 86 ∷ 1 ∷ 0b101 ∷ put32 9

unfoldable pub prepare_flv_tag_header : ℕ → ℕ → ℕ → List ℕ
prepare_flv_tag_header t body_size time_stamp =
    t % 2 ^ 8
    ∷ (set_be24 (body_size % 2 ^ 32)
        ++ (set_be24 (time_stamp % 2 ^ 24) ++ ((time_stamp / 2 ^ 24 % 2 ^ 8) ∷ 0 ∷ 0 ∷ 0 ∷ [])))

-- The three calls of `send`. An empty body is refused.
unfoldable pub write_flv : ℕ → List ℕ → ℕ → Result (List ℕ)
unfolding prepare_flv_tag_header
write_flv t body time_stamp = do
  throw_if (length body == 0) invalid_flv
  let header = prepare_flv_tag_header t (length body) time_stamp
  ok (header ++ (body ++ put32 ((length header + length body) % 2 ^ 32)))

-- What is sent for a configuration: nothing if it is neither audio nor video.
unfoldable pub write_config_frame : Packet → Result (List ℕ)
unfolding write_flv
write_config_frame pkt =
    if pkt.msg_type_id == msg_audio
    then write_flv audio_data pkt.buf pkt.time_stamp
    else if pkt.msg_type_id == msg_video
    then write_flv video_data pkt.buf pkt.time_stamp
    else ok []

-- A call for each packet of a list, with what all of them send. `loop_config_frame` calls in the
-- order of the map.
unfoldable pub for_each : (Packet → Result (List ℕ)) → List Packet → Result (List ℕ)
for_each call [] = ok []
for_each call (pkt ∷ pkts) = do sent ← call pkt; more ← for_each call pkts; ok (sent ++ more)

-- `start_muxing` up to the reader: the header, four zero bytes, the metadata, the configurations.
-- `script` is what the AMF encoder makes of the metadata.
unfoldable pub start_muxing : List ℕ → List Packet → Result (List ℕ)
unfolding prepare_flv_header write_flv for_each write_config_frame
start_muxing script configs = do
  metadata ← write_flv script_data script 0
  frames ← for_each write_config_frame configs
  ok (prepare_flv_header ++ ((0 ∷ 0 ∷ 0 ∷ 0 ∷ []) ++ (metadata ++ frames)))

-- The callback of the reader, for one packet. It holds the muxer weakly: `alive` says whether that is
-- still there.
unfoldable pub read_cb : Bool → ℕ → Packet → Result (List ℕ)
unfolding write_flv
read_cb alive start_pts pkt =
    if ltb 0 start_pts && ltb pkt.time_stamp start_pts
    then ok []
    else if alive
    then write_flv (pkt.msg_type_id % 2 ^ 8) pkt.buf pkt.time_stamp
    else ok []
