-- ===== src/Rtmp/Chunk/Compact.antt =====
-- Messages whose header `split_rtmp` completes from the last message of the chunk stream: the
-- formats 1 and 2, which clients send and `send_rtmp` does not.
use streaming.Prelude.{
  ℕ, ◌+◌, ◌%◌, ◌^◌, ◌≤◌, ◌<◌, ◌≡◌, refl, ap, ◌∙◌, arith, true, false, none, some, List, [], ◌∷◌,
  ◌++◌, length, drop, min, take, append_assoc,
}
use streaming.Prelude.Outcome.{Result, ◌>>=◌}
use streaming.Util.Bytes.{set_be24}
use streaming.Rtmp.Packet.{Packet, create, restore_context}
use streaming.Rtmp.Chunk.{Protocol, extended_stamp, send_chunks}
use streaming.Rtmp.Chunk.Round.{round, split_rtmp, follow, store}
use streaming.Rtmp.Chunk.Stops.{split_rtmp-round}
use streaming.Rtmp.Chunk.Delivery.{Delivery, Keeps}
use streaming.Rtmp.Chunk.Message.{stamp_field, stamp_field_lt}
use streaming.Rtmp.Chunk.RoundTrip.{deliver}
use streaming.Rtmp.Chunk.Pending.{next_chunk, later}
use streaming.Rtmp.Chunk.Client.{
  Format, same_stream, same_length, header_size, client_header, resumed, compact, length-client,
  round-client,
}

-- A message as a client sends it in such a format: the header, and the payload in chunks of `size`
-- bytes, each behind the extended time stamp if there is one, and all but the first behind a header
-- of one byte.
abbrev pub client_message : Format → ℕ → ℕ → List ℕ → ℕ → ℕ → List ℕ
client_message f size kind bytes delta id =
    client_header f id (stamp_field delta) (length bytes) kind
      (send_chunks (length bytes) id size (extended_stamp delta) true bytes)

module _ {M : Type 0} (handle : Protocol M → Packet → Result (Protocol M)) (id delta : ℕ)
    (rest : List ℕ) (lo : 2 ≤ id) (hi : id < 64) (fits : delta < 2 ^ 32) (kind b : ℕ) (bs : List ℕ)
    (st : Protocol M) (last : Packet) (f : Format) (short : length (b ∷ bs) < 2 ^ 24) where
  abbrev bytes : List ℕ
  bytes = b ∷ bs

  abbrev begun : Packet
  begun = compact id (stamp_field delta) (length bytes) kind [] lo hi (resumed st.memory last)

  abbrev chunks : List ℕ
  chunks =
      next_chunk handle id delta last.time_stamp rest lo hi fits (length bs) st.chunk_size_in bytes

  abbrev parts : List ℕ
  parts = client_header f id (stamp_field delta) (length bytes) kind chunks

  client_header-append :
      (f : Format) (stamp n : ℕ) (body : List ℕ)
      → client_header f id stamp n kind body ++ rest
        ≡ client_header f id stamp n kind (body ++ rest)
  unfolding set_be24
  client_header-append same_stream stamp n body = refl
  client_header-append same_length stamp n body = refl

  message-parts : client_message f st.chunk_size_in kind bytes delta id ++ rest ≡ parts
  unfolding send_chunks
  message-parts =
      let n = min st.chunk_size_in (length bytes) in
      let after =
        send_chunks (length bs) id st.chunk_size_in (extended_stamp delta) false (drop n bytes) in
      client_header-append f (stamp_field delta) (length bytes)
        (extended_stamp delta ++ (take n bytes ++ after))
      ∙ ap (client_header f id (stamp_field delta) (length bytes) kind) (
          append_assoc (extended_stamp delta) (take n bytes ++ after) rest
          ∙ ap (λ l. extended_stamp delta ++ l) (append_assoc (take n bytes) after rest))

  abbrev begun_state : Protocol M
  begun_state = store id begun (record st { chunk_stream_id = id })

  begun_state-Keeps : Keeps id st begun_state
  begun_state-Keeps = record {
    size_in = refl;
    size_out = refl;
    stages = refl;
    transaction = refl;
    sending = refl;
    window = refl;
    medium = refl;
    others = λ j h. ground arith;
  }

  drop-header :
      (f : Format)
      → drop (header_size f) (client_header f id (stamp_field delta) (length bytes) kind chunks)
        ≡ chunks
  unfolding set_be24
  drop-header same_stream = refl
  drop-header same_length = refl

  starts :
      (f : Format)
      → (let ptr = client_header f id (stamp_field delta) (length bytes) kind chunks in
          split_rtmp handle st ptr ≡ (round st ptr >>= follow handle (split_rtmp handle) ptr))
  starts same_stream = split_rtmp-round handle st _ _
  starts same_length = split_rtmp-round handle st _ _

  -- A message that a client sends behind another one on its chunk stream, with a header that leaves
  -- out the stream (format 1), or the length and the type too, which are then the last one's (format
  -- 2): `handle_chunk` is called once, with its bytes and type, the last message's stream, and the
  -- last one's time stamp plus the delta, modulo 2 ^ 32. The message has 1 to 2 ^ 24 - 1 bytes and a
  -- delta below 2 ^ 32, the chunk stream is one from 2 to 63 with no message under way, and the
  -- receiver's chunk size is the client's and not 0, without a window.
  pub split_rtmp-client_message :
      (f ≡ same_length → (last.msg_length ≡ length bytes) × (last.msg_type_id ≡ kind))
      → 0 < st.chunk_size_in
      → st.windows_size ≡ 0
      → (st.chunked_data_map id).now ≡ none
      → (st.chunked_data_map id).last ≡ some last
      → Delivery handle id
          ((delta + last.time_stamp) % 2 ^ 32)
          rest
          st
          kind
          last.msg_stream_id
          bytes
          (split_rtmp handle st (client_message f st.chunk_size_in kind bytes delta id ++ rest))
  unfolding restore_context create
  split_rtmp-client_message old size window is_free is_last =
      later handle id delta last.time_stamp rest lo hi fits st begun_state begun begun bytes bytes _
        _ begun_state-Keeps refl refl refl
        (ap (split_rtmp handle st) message-parts
          ∙ starts f
          ∙ ap (λ r. r >>= follow handle (split_rtmp handle) parts)
              (round-client id (stamp_field delta) (length bytes) kind chunks lo hi f st last
                (stamp_field_lt delta) short old is_free is_last))
        (deliver handle id delta last.time_stamp rest lo hi fits (length bs) (header_size f)
          begun_state begun bytes parts
          (record {
            more = omega arith;
            no_window = window;
            sized = omega arith;
            short = short;
            based = refl;
            named = refl;
            delta = refl;
            chunk_size = size;
          })
          (omega arith) (length-client id (stamp_field delta) (length bytes) kind chunks lo hi f)
          (drop-header f))
