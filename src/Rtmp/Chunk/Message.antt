-- ===== src/Rtmp/Chunk/Message.antt =====
-- A message that `send_rtmp` writes is handed on by `split_rtmp`.
use streaming.Prelude.{
  ℕ, ◌%◌, ◌^◌, ◌≤◌, ◌<◌, ◌≡◌, refl, ap, ◌∙◌, arith, false, none, inl, inr, List, [], ◌∷◌, ◌++◌,
  length, leb, if◌then◌else◌, min, take, drop, append_assoc, Option-cases, subst, ◌+◌,
}
use streaming.Prelude.Outcome.{Result, ◌>>=◌}
use streaming.Util.Bytes.{set_be24, set_le32}
use streaming.Rtmp.Packet.{Packet, create, restore_context}
use streaming.Rtmp.Chunk.{Protocol, Slot, extended_stamp, send_chunks, frame, message_header}
use streaming.Rtmp.Chunk.Round.{split_rtmp, follow, now_packet, store, behind_header}
use streaming.Rtmp.Chunk.Stops.{split_rtmp-round}
use streaming.Rtmp.Chunk.Header.{first, headed, round-first, drop-first}
use streaming.Rtmp.Chunk.Delivery.{Delivery, Keeps}
use streaming.Rtmp.Chunk.RoundTrip.{deliver}
use streaming.Rtmp.Chunk.Pending.{next_chunk, later}

-- A chunk stream with no message under way starts one with nothing in it.
now_packet-buf :
    (memory : Packet) (slot : Slot) → slot.now ≡ none → (now_packet memory slot).buf ≡ []
unfolding now_packet create restore_context
now_packet-buf memory slot e =
    rw e (elim (Option-cases slot.last) [ inl h ↦ rw h | inr (p, h) ↦ rw h ])

-- The three bytes of the header's time stamp.
abbrev pub stamp_field : ℕ → ℕ
stamp_field ts = if leb 0xFFFFFF ts then 0xFFFFFF else ts

pub stamp_field_lt : (ts : ℕ) → stamp_field ts < 2 ^ 24
stamp_field_lt ts = ground arith

module _ {M : Type 0} (handle : Protocol M → Packet → Result (Protocol M)) (id ts : ℕ)
    (rest : List ℕ) (lo : 2 ≤ id) (hi : id < 64) (fits : ts < 2 ^ 32) (kind stream b : ℕ)
    (bs : List ℕ) (st : Protocol M) (short : length (b ∷ bs) < 2 ^ 24) where
  abbrev bytes : List ℕ
  bytes = b ∷ bs

  -- The frame, as one header and the chunks.
  abbrev parts : List ℕ
  parts =
      first id (stamp_field ts) (length bytes) kind stream
        (next_chunk handle id ts 0 rest lo hi fits (length bs) st.chunk_size_in bytes)

  frame-parts : frame st.chunk_size_in kind stream bytes ts id ++ rest ≡ parts
  unfolding frame send_chunks
  frame-parts =
      let n = min st.chunk_size_in (length bytes) in
      let header = message_header id (stamp_field ts) (length bytes) kind stream in
      let after =
        send_chunks (length bs) id st.chunk_size_in (extended_stamp ts) false (drop n bytes) in
      let e : length bytes % 2 ^ 32 ≡ length bytes = omega arith in
      ap
        (λ k.
          (message_header id (stamp_field ts) k kind stream
            ++ (extended_stamp ts ++ (take n bytes ++ after)))
          ++ rest)
        e
      ∙ append_assoc header (extended_stamp ts ++ (take n bytes ++ after)) rest
      ∙ ap (λ l. header ++ l)
          (append_assoc (extended_stamp ts) (take n bytes ++ after) rest
            ∙ ap (λ l. extended_stamp ts ++ l) (append_assoc (take n bytes) after rest))

  -- The packet of the message, when its header is read.
  abbrev begun : Packet
  begun =
      headed id (stamp_field ts) (length bytes) kind stream
        (next_chunk handle id ts 0 rest lo hi fits (length bs) st.chunk_size_in bytes)
        (now_packet st.memory (st.chunked_data_map id))

  abbrev begun_state : Protocol M
  begun_state = store id begun (record st { chunk_stream_id = id })

  begun_state-Keeps : Keeps id st begun_state
  begun_state-Keeps = record {
    size_in = refl;
    size_out = refl;
    stages = refl;
    transaction = refl;
    sending = refl;
    window = refl;
    medium = refl;
    others = λ j h. ground arith;
  }

  begins :
      kind < 256
      → stream < 2 ^ 32
      → split_rtmp handle st parts
        ≡ (behind_header id 12 begun parts begun_state >>= follow handle (split_rtmp handle) parts)
  unfolding message_header
  begins hk hs =
      split_rtmp-round handle st _ _
      ∙ ap (λ r. r >>= follow handle (split_rtmp handle) parts)
          (round-first id (stamp_field ts) (length bytes) kind stream _ st lo hi (stamp_field_lt ts)
            short hk hs)

  -- What `send_rtmp` writes for a message, the receiver's `split_rtmp` reads back. The message has
  -- 1 to 2 ^ 24 - 1 bytes, a type below 256, a stream and a time stamp below 2 ^ 32, and a chunk
  -- stream from 2 to 63 that is free at the receiver; the receiver's chunk size is the sender's
  -- and not 0, and it has no window. Then `handle_chunk` is called once, with exactly the bytes,
  -- type, stream and time stamp that were sent, however many chunks there are; until then the
  -- other chunk streams are not touched, and the loop goes on with the rest of the input.
  pub split_rtmp-frame :
      kind < 256
      → stream < 2 ^ 32
      → 0 < st.chunk_size_in
      → st.windows_size ≡ 0
      → (st.chunked_data_map id).now ≡ none
      → Delivery handle id ts rest st kind stream bytes
          (split_rtmp handle st (frame st.chunk_size_in kind stream bytes ts id ++ rest))
  split_rtmp-frame hk hs size window is_free =
      let empty : begun.buf ≡ [] = now_packet-buf st.memory (st.chunked_data_map id) is_free in
      let exact : (ts + 0) % 2 ^ 32 ≡ ts = omega arith in
      let whole = split_rtmp handle st (frame st.chunk_size_in kind stream bytes ts id ++ rest) in
      subst (λ t. Delivery handle id t rest st kind stream bytes whole) exact
        (later handle id ts 0 rest lo hi fits st begun_state begun begun bytes (begun.buf ++ bytes)
          _ _ begun_state-Keeps refl refl (ap (λ l. l ++ bytes) empty)
          (ap (split_rtmp handle st) frame-parts ∙ begins hk hs)
          (deliver handle id ts 0 rest lo hi fits (length bs) 12 begun_state begun bytes parts
            (record {
              more = omega arith;
              no_window = window;
              sized = omega (arith, ap length empty);
              short = short;
              based = refl;
              named = refl;
              delta = refl;
              chunk_size = size;
            })
            (omega arith) (unfold message_header set_be24 set_le32 in omega arith)
            (drop-first id (stamp_field ts) (length bytes) kind stream _)))
