-- ===== src/Rtmp/Chunk/Client.antt =====
-- The headers of the formats 1 and 2, which clients send and `send_rtmp` does not, and what one round
-- of `split_rtmp` makes of them.
use streaming.Prelude.{
  ℕ, ◌+◌, ◌^◌, ◌≤◌, ◌<◌, ◌≡◌, refl, sym, ap, arith, false, none, some, List, ◌∷◌, ◌++◌, length,
  get_or, ge→ltb,
}
use streaming.Util.Bytes.{set_be24}
use streaming.Util.Bytes.Laws.{load_be24-set_be24}
use streaming.Rtmp.Packet.{Packet, create, restore_context}
use streaming.Rtmp.Chunk.{Protocol, Slot}
use streaming.Rtmp.Chunk.Round.{
  header_length, basic_header, apply_header, now_packet, opened, enter, entered, round,
  behind_header, store,
}

-- The formats of the specification that leave out the stream, and the length and the type too.
pub data Format : Type 0 where
  same_stream same_length : Format

abbrev pub header_size : Format → ℕ
header_size same_stream = 8
header_size same_length = 4

-- What a client writes: the first byte has the format in its top two bits.
abbrev pub client_header : Format → ℕ → ℕ → ℕ → ℕ → List ℕ → List ℕ
client_header same_stream id stamp n kind body =
    (id + 64) ∷ (set_be24 stamp ++ (set_be24 n ++ (kind ∷ body)))
client_header same_length id stamp n kind body = (id + 128) ∷ (set_be24 stamp ++ body)

-- The packet of which a message of such a format goes on: the last one's context and no bytes.
abbrev pub resumed : Packet → Packet → Packet
resumed memory last = record (restore_context (create memory) last) { is_abs_stamp = false }

pub now_packet-resumed :
    (memory last : Packet) (slot : Slot)
    → slot.now ≡ none
    → slot.last ≡ some last
    → now_packet memory slot ≡ resumed memory last
unfolding now_packet
now_packet-resumed memory last slot e f = rw (e, f) refl

module _ (id stamp n kind : ℕ) (body : List ℕ) (lo : 2 ≤ id) (hi : id < 64) where
  -- The fields that the header gives, or that are the last message's.
  abbrev pub compact : Packet → Packet
  compact p = record p {
    chunk_stream_id = id;
    msg_length = n;
    msg_type_id = kind;
    ts_delta = stamp;
  }

  pub basic_header-client :
      (f : Format) → basic_header (client_header f id stamp n kind body) ≡ some (id, 0)
  unfolding basic_header
  basic_header-client same_stream = ground arith
  basic_header-client same_length = ground arith

  pub header_length-client :
      (f : Format)
      → header_length (get_or (client_header f id stamp n kind body) 0 0) ≡ header_size f
  unfolding header_length
  header_length-client same_stream = ground arith
  header_length-client same_length = ground arith

  pub length-client : (f : Format) → header_size f ≤ length (client_header f id stamp n kind body)
  unfolding set_be24
  length-client same_stream = omega arith
  length-client same_length = omega arith

  pub apply_header-client :
      (f : Format) (p : Packet)
      → stamp < 2 ^ 24
      → n < 2 ^ 24
      → (f ≡ same_length → (p.msg_length ≡ n) × (p.msg_type_id ≡ kind))
      → apply_header
          (header_size f)
          (client_header f id stamp n kind body)
          (record p { chunk_stream_id = id })
        ≡ compact p
  unfolding apply_header set_be24
  apply_header-client same_stream p hs hn old = ground (
    arith,
    load_be24-set_be24 stamp (set_be24 n ++ (kind ∷ body)) hs,
    load_be24-set_be24 n (kind ∷ body) hn,
  )
  apply_header-client same_length p hs hn old =
      let (len, type) = old refl in
      let read = load_be24-set_be24 stamp body hs in
      rw (sym len, sym type) (ap (λ (k : ℕ). record p { chunk_stream_id = id; ts_delta = k }) read)

  -- A round at such a header gets to the payload with its fields and those of the last message.
  pub round-client :
      {M : Type 0} (f : Format) (st : Protocol M) (last : Packet)
      → stamp < 2 ^ 24
      → n < 2 ^ 24
      → (f ≡ same_length → (last.msg_length ≡ n) × (last.msg_type_id ≡ kind))
      → (st.chunked_data_map id).now ≡ none
      → (st.chunked_data_map id).last ≡ some last
      → (let ptr = client_header f id stamp n kind body in
          let p = compact (resumed st.memory last) in
          round st ptr
          ≡ behind_header id
              (header_size f)
              p
              ptr
              (store id p (record st { chunk_stream_id = id })))
  round-client f st last hs hn old is_free is_last =
      let ptr = client_header f id stamp n kind body in
      let now = now_packet-resumed st.memory last (st.chunked_data_map id) is_free is_last in
      let p : opened id 0 st ptr ≡ compact (resumed st.memory last) =
        unfold opened in
        rw (header_length-client f) (
          rw now (
            apply_header-client f (resumed st.memory last) hs hn
              (unfold restore_context in old))) in
      let same : 0 + header_size f ≡ header_size f = omega arith in
      unfold round entered enter in
      rw (basic_header-client f) (
        rw (header_length-client f)
          (rw (same, p, ge→ltb (length ptr) (header_size f) (length-client f)) refl))
