-- ===== src/Rtmp/Packet.antt =====
-- protocol/rtmp/rtmp_packet.h and rtmp_packet.cpp: a message as it is put together from its chunks.
pub mod Kinds
use streaming.Prelude.{
  ℕ, ◌+◌, ◌/◌, ◌%◌, ◌^◌, Bool, false, not, ◌||◌, ◌&&◌, List, [], length, ◌==◌, if◌then◌else◌,
  get_or,
}
use streaming.Prelude.Outcome.{Result, ok, ◌>>=◌, ◌>>◌}
use streaming.Network.Unread
use Prim.Native.Nat.{bit_and}

-- The message types that `handle_chunk` and the media source tell apart.
abbrev pub msg_set_chunk : ℕ
msg_set_chunk = 1

abbrev pub msg_ack : ℕ
msg_ack = 3

abbrev pub msg_set_peer_bw : ℕ
msg_set_peer_bw = 6

abbrev pub msg_audio : ℕ
msg_audio = 8

abbrev pub msg_video : ℕ
msg_video = 9

abbrev pub msg_data : ℕ
msg_data = 18

abbrev pub msg_data3 : ℕ
msg_data3 = 15

abbrev pub msg_cmd : ℕ
msg_cmd = 20

abbrev pub msg_cmd3 : ℕ
msg_cmd3 = 17

-- The chunk streams that the server sends on.
abbrev pub chunk_network : ℕ
chunk_network = 2

abbrev pub chunk_client_request_before : ℕ
chunk_client_request_before = 3

-- `buf` is the list of the unread bytes of the packet's `flat_buffer`.
pub record Packet : Type 0 where
  pub is_abs_stamp : Bool
  pub chunk_stream_id : ℕ
  pub msg_stream_id : ℕ
  pub msg_length : ℕ
  pub msg_type_id : ℕ
  pub ts_delta : ℕ
  pub time_stamp : ℕ
  pub buf : List ℕ
  pub pkt_header_length : ℕ

-- `new rtmp_packet` leaves the numbers as they are in memory: `memory` says what stands there.
unfoldable pub create : Packet → Packet
create memory = record memory { is_abs_stamp = false; buf = []; pkt_header_length = 0 }

unfoldable pub restore_context : Packet → Packet → Packet
restore_context p other = record p {
  is_abs_stamp = other.is_abs_stamp;
  chunk_stream_id = other.chunk_stream_id;
  msg_stream_id = other.msg_stream_id;
  msg_length = other.msg_length;
  msg_type_id = other.msg_type_id;
  ts_delta = other.ts_delta;
  time_stamp = other.time_stamp;
}

unfoldable pub set_pkt_header_length : Packet → ℕ → Packet
set_pkt_header_length p n =
    if n == 0 then p else record p { pkt_header_length = (p.pkt_header_length + n) % 2 ^ 64 }

-- `size()` adds the unread bytes to the header length and keeps the sum.
unfoldable pub size : Packet → ℕ × Packet
size p =
    let n = (p.pkt_header_length + length p.buf) % 2 ^ 64 in (n, record p { pkt_header_length = n })

-- `is_video_keyframe`: the frame type is the high half of the first byte, without its top bit.
unfoldable pub frame_type : ℕ → ℕ
frame_type tag =
    if bit_and (tag / 2 ^ 4) 0b1000 == 0 then tag / 2 ^ 4 else bit_and (tag / 2 ^ 4) 0b0111

unfoldable pub is_video_keyframe : Packet → Result Bool
is_video_keyframe p =
    if p.msg_type_id == msg_video
    then Unread.peek 1 p.buf >>= (λ tag. ok (frame_type tag == 1))
    else ok false

-- `get_av_codec_id`: for video the low half of the first byte, for audio the high half. 255 is the
-- 8-bit pattern of `non_av`, -1.
unfoldable pub get_av_codec_id : Packet → Result ℕ
get_av_codec_id p = do
  tag ← Unread.peek 1 p.buf
  ok (
      if p.msg_type_id == msg_video
      then bit_and tag 0x0f
      else if p.msg_type_id == msg_audio
      then tag / 2 ^ 4
      else 255)

-- The second byte, after `require_length_or_fail(2)`.
unfoldable pub packet_type : Packet → Result ℕ
packet_type p = do Unread.require 2 p.buf; ok (get_or p.buf 1 0)

-- A key frame with an enhanced header is a configuration if its packet type is 0 (sequence start).
-- With a plain header the codec has to be H264 (7) or H265 (12), and the second byte 0.
unfoldable pub is_video_config : Packet → Result Bool
is_video_config p = do
  tag ← Unread.peek 1 p.buf
  codec ← get_av_codec_id p
  let plain = packet_type p >>= (λ kind. ok (kind == 0))
  if not (bit_and (tag / 2 ^ 4) 0b1000 == 0)
      then ok (bit_and tag 0b1111 == 0)
      else if codec == 7 || codec == 12
      then plain
      else ok false

unfoldable pub is_audio_config : Packet → Result Bool
is_audio_config p = do
  kind ← packet_type p
  codec ← get_av_codec_id p
  ok (codec == 10 && kind == 0)

unfoldable pub is_config_frame : Packet → Result Bool
is_config_frame p =
    let video = is_video_keyframe p >>= (λ key. if key then is_video_config p else ok false) in
    if p.msg_type_id == msg_video
    then video
    else if p.msg_type_id == msg_audio
    then is_audio_config p
    else ok false
