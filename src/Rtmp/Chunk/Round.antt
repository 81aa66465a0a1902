-- ===== src/Rtmp/Chunk/Round.antt =====
-- `split_rtmp`: one round of its loop, and the loop.
use streaming.Prelude.{
  ℕ, zero, suc, ◌+◌, ◌-◌, ◌*◌, ◌/◌, ◌%◌, ◌^◌, true, false, ◌&&◌, Option, none, some, List, [], ◌∷◌,
  ◌++◌, length, ltb, leb, ◌==◌, if◌then◌else◌, get_or, take, drop, min,
}
use streaming.Prelude.Outcome.{Result, ok, err, ◌>>=◌, out_of_fuel}
use streaming.Util.Bytes.{load_be24, load_be32, load_le32}
use streaming.Rtmp.Packet
use streaming.Rtmp.Packet.{Packet}
use streaming.Rtmp.Chunk.{Protocol, Slot, update, send_acknowledgement}

-- `kHeaderLength[header->fmt]`: `fmt` is the top two bits of the first byte.
unfoldable pub header_length : ℕ → ℕ
header_length b = elim (b / 64) [ zero ↦ 12 | suc zero ↦ 8 | suc (suc zero) ↦ 4 | _ ↦ 1 ]

-- The chunk stream id and how many bytes it takes beyond the first; `none` if they are not there
-- yet.
unfoldable pub basic_header : List ℕ → Option (ℕ × ℕ)
basic_header ptr =
    let id = get_or ptr 0 0 % 64 in
    if id == 0
    then (if ltb (length ptr) 2 then none else some (64 + get_or ptr 1 0, 1))
    else if id == 1
    then (if ltb (length ptr) 3
        then none
        else some (64 + get_or ptr 1 0 + get_or ptr 2 0 * 2 ^ 8, 2))
    else some (id, 0)

-- The packet of a slot, new ones with the context of the last.
unfoldable pub now_packet : Packet → Slot → Packet
now_packet memory slot = elim slot.now [
  | some p ↦ p
  | none ↦
      record (elim slot.last [
        | none ↦ Packet.create memory
        | some last ↦ Packet.restore_context (Packet.create memory) last
      ]) { is_abs_stamp = false }
]

-- The fields that a header of `n` bytes gives: `h` is the header, behind the basic one.
unfoldable pub apply_header : ℕ → List ℕ → Packet → Packet
apply_header n h p =
    let stamp = load_be24 (drop 1 h) in
    let timed = record p { ts_delta = stamp } in
    let sized = record timed { msg_length = load_be24 (drop 4 h); msg_type_id = get_or h 7 0 } in
    if n == 12
    then record sized { is_abs_stamp = true; msg_stream_id = load_le32 (drop 8 h) }
    else if n == 8
    then sized
    else if n == 4
    then timed
    else p

-- What a round of the loop comes to: wait for more bytes, take a chunk, or take the last chunk of
-- a message that is to be handled.
pub data Round (M : Type 0) : Type 0 where
  wait : Protocol M → Round M
  chunk : Protocol M → List ℕ → Round M
  message : Protocol M → Packet → List ℕ → Round M

-- `bytes_recv_` counts, and acknowledges if there is a window.
unfoldable pub count_received : {M : Type 0} → ℕ → Protocol M → Result (Protocol M)
count_received n st =
    let counted = record st { bytes_recv = (st.bytes_recv + n % 2 ^ 32) % 2 ^ 64 } in
    let due = (counted.bytes_recv + 2 ^ 64 - counted.bytes_recv_last) % 2 ^ 64 in
    if ltb 0 st.windows_size && leb st.windows_size due
    then send_acknowledgement (due % 2 ^ 32) counted
      >>= (λ st'. ok (record st' { bytes_recv_last = st'.bytes_recv }))
    else ok counted

-- A message that is complete has its time stamp, and its chunk stream is free again.
abbrev pub completed : ℕ → Packet → Packet
completed time_stamp p = record p {
  time_stamp = (time_stamp + (if p.is_abs_stamp then 0 else p.time_stamp)) % 2 ^ 32;
}

abbrev pub closed : {M : Type 0} → ℕ → Packet → Protocol M → Protocol M
closed id p st = record st {
  msg_stream_id = p.msg_stream_id;
  chunked_data_map = update st.chunked_data_map id (record { now = none; last = some p });
}

-- The end of a round: `p` holds the chunk that was just taken.
unfoldable pub finish : {M : Type 0} → ℕ → ℕ → Packet → List ℕ → Protocol M → Round M
finish id time_stamp p rest st =
    let done = completed time_stamp p in
    let st' = closed id done st in
    if p.msg_length == length p.buf
    then (if p.msg_length == 0 then chunk st' rest else message st' done rest)
    else chunk st rest

-- The packet with `more` bytes from behind `skip` bytes of headers, and the `size()` of it.
unfoldable pub append_chunk : ℕ → ℕ → Packet → List ℕ → ℕ × Packet
append_chunk skip more p ptr =
    Packet.size
      (Packet.set_pkt_header_length (record p { buf = p.buf ++ take more (drop skip ptr) }) skip)

-- The packet of a chunk stream in the map.
abbrev pub store : {M : Type 0} → ℕ → Packet → Protocol M → Protocol M
store id p st = record st {
  chunked_data_map =
      update st.chunked_data_map id (record (st.chunked_data_map id) { now = some p });
}

unfoldable pub take_chunk :
    {M : Type 0} → ℕ → ℕ → ℕ → ℕ → Packet → List ℕ → Protocol M → Result (Round M)
take_chunk id time_stamp skip more p ptr st =
    let sized = append_chunk skip more p ptr in
    count_received sized.0 (store id sized.1 st)
    >>= (λ st'. ok (finish id time_stamp sized.1 (drop (skip + more) ptr) st'))

-- `remain_msg_len` is a difference of `size_t`; a chunk takes no more than the chunk size of it.
unfoldable pub wanted : ℕ → Packet → ℕ
wanted chunk_size p = min chunk_size ((p.msg_length + 2 ^ 64 - length p.buf) % 2 ^ 64)

unfoldable pub payload : {M : Type 0} → ℕ → ℕ → ℕ → Packet → List ℕ → Protocol M → Result (Round M)
payload id time_stamp skip p ptr st =
    let more = wanted st.chunk_size_in p in
    if ltb (length ptr) (skip + more)
    then ok (wait st)
    else take_chunk id time_stamp skip more p ptr st

-- The part of a round behind the message header: an extended timestamp, if `ts_delta` says so,
-- and the payload.
unfoldable pub behind_header :
    {M : Type 0} → ℕ → ℕ → Packet → List ℕ → Protocol M → Result (Round M)
behind_header id skip p ptr st =
    let extended =
      if ltb (length ptr) (skip + 4)
      then ok (wait st)
      else payload id (load_be32 (drop skip ptr)) (skip + 4) p ptr st in
    if p.ts_delta == 0xFFFFFF then extended else payload id p.ts_delta skip p ptr st

-- The packet of chunk stream `id` with the fields of the header at `ptr`, which stands behind
-- `offset` bytes of the basic header.
unfoldable pub opened : {M : Type 0} → ℕ → ℕ → Protocol M → List ℕ → Packet
opened id offset st ptr =
    apply_header (header_length (get_or ptr 0 0)) (drop offset ptr)
      (record (now_packet st.memory (st.chunked_data_map id)) { chunk_stream_id = id })

-- The packet is in the map from here on, also if the round has to wait.
unfoldable pub enter : {M : Type 0} → ℕ → ℕ → Protocol M → List ℕ → Result (Round M)
enter id offset st ptr =
    let n = header_length (get_or ptr 0 0) in
    let named = record st { chunk_stream_id = id } in
    let p = opened id offset st ptr in
    if ltb (length ptr) (offset + n)
    then ok (wait named)
    else behind_header id (offset + n) p ptr (store id p named)

unfoldable pub entered : {M : Type 0} → Protocol M → List ℕ → Option (ℕ × ℕ) → Result (Round M)
entered st ptr none = ok (wait (record st { chunk_stream_id = get_or ptr 0 0 % 64 }))
entered st ptr (some (id, offset)) = enter id offset st ptr

-- One round at `ptr`, which is not empty.
unfoldable pub round : {M : Type 0} → Protocol M → List ℕ → Result (Round M)
round st ptr = entered st ptr (basic_header ptr)

-- The loop: a wait ends it and leaves what was not taken. A round that does not wait takes bytes,
-- so a fuel above their number is enough. `handle` is `handle_chunk`.
module _ {M : Type 0} (handle : Protocol M → Packet → Result (Protocol M)) where
  unfoldable pub follow :
      (Protocol M → List ℕ → Result (Protocol M × List ℕ))
      → List ℕ
      → Round M
      → Result (Protocol M × List ℕ)
  follow rest ptr (wait st) = ok (st, ptr)
  follow rest ptr (chunk st left) = rest st left
  follow rest ptr (message st p left) = handle st p >>= (λ st'. rest st' left)

  unfoldable pub split_from : ℕ → Protocol M → List ℕ → Result (Protocol M × List ℕ)
  split_from zero st ptr = err out_of_fuel
  split_from (suc fuel) st [] = ok (st, [])
  split_from (suc fuel) st (b ∷ bs) = round st (b ∷ bs) >>= follow (split_from fuel) (b ∷ bs)

  unfoldable pub split_rtmp : Protocol M → List ℕ → Result (Protocol M × List ℕ)
  split_rtmp st ptr = split_from (suc (length ptr)) st ptr
