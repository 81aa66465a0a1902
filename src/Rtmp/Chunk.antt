-- ===== src/Rtmp/Chunk.antt =====
-- The chunk stream of protocol/rtmp/rtmp_protocol.cpp: what `send_rtmp` writes and `split_rtmp`
-- reads. `M` is what the connection keeps about its media, which this layer does not touch.
pub mod Round
pub mod Stops
pub mod Reads
pub mod Resume
pub mod Growing
pub mod Segments
pub mod Message
pub mod Compact
pub mod Client
pub mod Total
pub mod Framing
pub mod Header
pub mod Delivery
pub mod RoundTrip
pub mod Pending
use streaming.Prelude.{
  ℕ, zero, suc, ◌+◌, ◌-◌, ◌*◌, ◌/◌, ◌%◌, ◌^◌, Bool, true, false, ◌||◌, ◌&&◌, Option, none, some,
  List, [], ◌∷◌, ◌++◌, length, ltb, leb, ◌==◌, if◌then◌else◌, get_or, take, drop, min,
}
use streaming.Prelude.Outcome.{
  Result, ok, err, ◌>>=◌, ◌>>◌, throw_if, bad_chunk_stream, out_of_fuel,
}
use streaming.Prelude.Words.{put32}
use streaming.Util.Bytes.{load_be24, load_be32, load_le32, set_be24, set_be32, set_le32}
use streaming.Rtmp.Packet
use streaming.Rtmp.Packet.{Packet, msg_ack, chunk_network}

-- An entry of `chunked_data_map_`: the packet being put together and the last one before it.
pub record Slot : Type 0 where
  pub now : Option Packet
  pub last : Option Packet

pub data Stage : Type 0 where
  await_c0c1 await_c2 chunks : Stage

-- The members of `rtmp_protocol`. `sent` is what was handed to `socket_sender::send`, `memory`
-- what a new packet finds in memory, and `stage` the handler in `next_step_func_`.
pub record Protocol (M : Type 0) : Type 0 where
  pub chunk_stream_id : ℕ
  pub msg_stream_id : ℕ
  pub chunk_size_in : ℕ
  pub chunk_size_out : ℕ
  pub chunked_data_map : ℕ → Slot
  pub stage : Stage
  pub transaction_id : ℕ
  pub bytes_sent : ℕ
  pub bytes_sent_last : ℕ
  pub bytes_recv : ℕ
  pub bytes_recv_last : ℕ
  pub windows_size : ℕ
  pub sent : List ℕ
  pub memory : Packet
  pub media : M

abbrev pub update {ℓ} : {A : Type ℓ} → (ℕ → A) → ℕ → A → ℕ → A
update f k v i = if i == k then v else f i

-- The 12 bytes of an `rtmp_header` with `fmt` 0. The fields of one byte keep its low bits.
unfoldable pub message_header : ℕ → ℕ → ℕ → ℕ → ℕ → List ℕ
message_header chunk_stream_id stamp msg_length msg_type_id msg_stream_id =
    (chunk_stream_id % 64)
    ∷ (set_be24 stamp ++ (set_be24 msg_length ++ ((msg_type_id % 256) ∷ set_le32 msg_stream_id)))

-- The loop of `send_rtmp` from `offset` on: `data` is what is left, `first` says that `offset` is
-- 0. The chunk size is not 0, so each round takes bytes.
unfoldable pub send_chunks : ℕ → ℕ → ℕ → List ℕ → Bool → List ℕ → List ℕ
send_chunks fuel chunk_stream_id chunk_size extended first [] = []
send_chunks zero chunk_stream_id chunk_size extended first (b ∷ bs) = []
send_chunks (suc fuel) chunk_stream_id chunk_size extended first (b ∷ bs) =
    let n = min chunk_size (length (b ∷ bs)) in
    (if first then [] else (chunk_stream_id + 192) ∷ [])
    ++ (extended
        ++ (take n (b ∷ bs)
            ++ send_chunks fuel chunk_stream_id chunk_size extended false (drop n (b ∷ bs))))

abbrev pub extended_stamp : ℕ → List ℕ
extended_stamp time_stamp = if leb 0xFFFFFF time_stamp then set_be32 time_stamp else []

-- All that `send_rtmp` writes for one message.
unfoldable pub frame : ℕ → ℕ → ℕ → List ℕ → ℕ → ℕ → List ℕ
frame chunk_size msg_type_id msg_stream_id bytes time_stamp chunk_stream_id =
    message_header chunk_stream_id (if leb 0xFFFFFF time_stamp then 0xFFFFFF else time_stamp)
      (length bytes % 2 ^ 32) msg_type_id msg_stream_id
    ++ send_chunks (length bytes) chunk_stream_id chunk_size (extended_stamp time_stamp) true bytes

-- `send_rtmp` for a message: the frame is sent and counted. With a window, an acknowledgement is
-- due after that many bytes, and it is a message too, sent before the count is reset: `fuel`
-- bounds how deep these calls go.
unfoldable pub send_rtmp :
    {M : Type 0} → ℕ → ℕ → ℕ → List ℕ → ℕ → ℕ → Protocol M → Result (Protocol M)
send_rtmp zero msg_type_id msg_stream_id bytes time_stamp chunk_stream_id st = err out_of_fuel
send_rtmp (suc fuel) msg_type_id msg_stream_id bytes time_stamp chunk_stream_id st =
    let out = frame st.chunk_size_out msg_type_id msg_stream_id bytes time_stamp chunk_stream_id in
    let counted = record st {
      sent = st.sent ++ out;
      bytes_sent = (st.bytes_sent + length out % 2 ^ 32) % 2 ^ 64;
    } in
    let unacknowledged = (counted.bytes_sent + 2 ^ 64 - counted.bytes_sent_last) % 2 ^ 64 in
    let acknowledged =
      send_rtmp fuel msg_ack st.msg_stream_id (put32 (unacknowledged % 2 ^ 32)) 0 chunk_network
        counted
      >>= (λ st'. ok (record st' { bytes_sent_last = st'.bytes_sent })) in
    if ltb chunk_stream_id 2 || ltb 63 chunk_stream_id
    then err bad_chunk_stream
    else if ltb 0 st.windows_size && leb st.windows_size unacknowledged
    then acknowledged
    else ok counted

-- One message and its acknowledgement.
abbrev pub send_depth : ℕ
send_depth = 2

unfoldable pub send_acknowledgement : {M : Type 0} → ℕ → Protocol M → Result (Protocol M)
send_acknowledgement n st =
    send_rtmp send_depth msg_ack st.msg_stream_id (put32 n) 0 chunk_network st
