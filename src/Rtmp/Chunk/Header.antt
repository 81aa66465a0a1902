-- ===== src/Rtmp/Chunk/Header.antt =====
-- What one round of `split_rtmp` makes of the headers that `send_rtmp` writes.
use streaming.Prelude.{
  ℕ, ◌+◌, ◌%◌, ◌^◌, ◌≤◌, ◌<◌, ◌≡◌, refl, arith, true, some, List, ◌∷◌, ◌++◌, length, get_or, ge→ltb,
  drop,
}
use streaming.Util.Bytes.{set_be24, set_le32}
use streaming.Util.Bytes.Laws.{load_be24-set_be24, load_le32-set_le32}
use streaming.Rtmp.Packet.{Packet}
use streaming.Rtmp.Chunk.{Protocol, message_header}
use streaming.Rtmp.Chunk.Round.{
  header_length, basic_header, apply_header, now_packet, opened, enter, entered, round,
  behind_header, store,
}

module _ (id stamp n kind stream : ℕ) (body : List ℕ) where
  abbrev pub first : List ℕ
  first = message_header id stamp n kind stream ++ body

  basic_header-first : 2 ≤ id → id < 64 → basic_header first ≡ some (id, 0)
  unfolding basic_header message_header
  basic_header-first lo hi = ground arith

  header_length-first : id < 64 → header_length (get_or first 0 0) ≡ 12
  unfolding header_length message_header
  header_length-first hi = ground arith

  long-first : 12 ≤ length first
  unfolding message_header set_be24 set_le32
  long-first = omega arith

  pub drop-first : drop 12 first ≡ body
  unfolding message_header set_be24 set_le32
  drop-first = refl

  -- All fields come from the header, but what was received before and the old time stamp.
  abbrev pub headed : Packet → Packet
  headed p = record p {
    is_abs_stamp = true;
    chunk_stream_id = id;
    msg_stream_id = stream;
    msg_length = n;
    msg_type_id = kind;
    ts_delta = stamp;
  }

  apply_header-first :
      (p : Packet)
      → stamp < 2 ^ 24
      → n < 2 ^ 24
      → kind < 256
      → stream < 2 ^ 32
      → apply_header 12 first (record p { chunk_stream_id = id }) ≡ headed p
  unfolding apply_header message_header set_be24 set_le32
  apply_header-first p hs hn hk ht = ground (
    arith,
    load_be24-set_be24 stamp (set_be24 n ++ ((kind % 256) ∷ set_le32 stream ++ body)) hs,
    load_be24-set_be24 n ((kind % 256) ∷ set_le32 stream ++ body) hn,
    load_le32-set_le32 stream body ht,
  )

  -- A round at the start of a message gets to the payload with the fields of its header.
  pub round-first :
      {M : Type 0} (st : Protocol M)
      → 2 ≤ id
      → id < 64
      → stamp < 2 ^ 24
      → n < 2 ^ 24
      → kind < 256
      → stream < 2 ^ 32
      → round st first ≡ (
          let p = headed (now_packet st.memory (st.chunked_data_map id)) in
          behind_header id 12 p first (store id p (record st { chunk_stream_id = id })))
  round-first st lo hi hs hn hk ht =
      let old = now_packet st.memory (st.chunked_data_map id) in
      let p : opened id 0 st first ≡ headed old =
        unfold opened in rw (header_length-first hi) (apply_header-first old hs hn hk ht) in
      unfold round entered enter in
      rw (basic_header-first lo hi)
        (rw (header_length-first hi) (rw (p, ge→ltb (length first) 12 long-first) refl))

-- A round at a further chunk of the message: one byte of header, and the packet stays as it is.
module _ (id : ℕ) (body : List ℕ) where
  abbrev pub further : List ℕ
  further = (id + 192) ∷ body

  basic_header-further : 2 ≤ id → id < 64 → basic_header further ≡ some (id, 0)
  unfolding basic_header
  basic_header-further lo hi = ground arith

  header_length-further : id < 64 → header_length (id + 192) ≡ 1
  unfolding header_length
  header_length-further hi = ground arith

  pub round-further :
      {M : Type 0} (st : Protocol M) (p : Packet)
      → 2 ≤ id
      → id < 64
      → now_packet st.memory (st.chunked_data_map id) ≡ p
      → p.chunk_stream_id ≡ id
      → round st further
        ≡ behind_header id 1 p further (store id p (record st { chunk_stream_id = id }))
  round-further st p lo hi now e =
      let q : opened id 0 st further ≡ p =
        unfold opened in
        rw (header_length-further hi) (unfold apply_header in rw now (ground arith)) in
      unfold round entered enter in
      rw (basic_header-further lo hi)
        (rw (header_length-further hi) (rw (q, ge→ltb (length further) 1 (omega arith)) refl))
