-- ===== src/Rtmp/Control.antt =====
-- The control messages and the handshake of protocol/rtmp/rtmp_protocol.cpp: `handle_chunk`, the
-- handlers in `next_step_func_`, and `on_parse_rtmp`.
pub mod Sending
pub mod InStep
pub mod Shaking
use streaming.Prelude.{
  ℕ, zero, suc, ◌+◌, ◌-◌, ◌%◌, Bool, true, false, ◌&&◌, not, List, [], ◌∷◌, ◌++◌, length, ltb, ◌==◌,
  if◌then◌else◌, get_or, take, drop,
}
use streaming.Prelude.Outcome.{
  Result, ok, err, ◌>>=◌, ◌>>◌, throw_if, bad_version, control_too_short, not_published,
}
use streaming.Prelude.Words.{put32}
use streaming.Util.Bytes.{load_be32}
use streaming.Network.FlatBuffer
use streaming.Network.FlatBuffer.{FlatBuffer}
use streaming.Rtmp.Packet.{
  Packet, msg_set_chunk, msg_ack, msg_set_peer_bw, msg_audio, msg_video, msg_data, msg_data3,
  msg_cmd, msg_cmd3, chunk_network,
}
use streaming.Rtmp.Chunk.{
  Protocol, Stage, await_c0c1, await_c2, chunks, send_rtmp, send_depth, send_acknowledgement,
}
use streaming.Rtmp.Chunk.Round.{split_rtmp}

unfoldable pub set_chunk_size : {M : Type 0} → ℕ → Protocol M → Result (Protocol M)
set_chunk_size size st = do
  st' ← send_rtmp send_depth msg_set_chunk st.msg_stream_id (put32 size) 0 chunk_network st
  ok (record st' { chunk_size_out = size })

unfoldable pub set_peer_bandwidth : {M : Type 0} → ℕ → Protocol M → Result (Protocol M)
set_peer_bandwidth size st =
    send_rtmp send_depth msg_set_peer_bw st.msg_stream_id (put32 size ++ (2 ∷ [])) 0 chunk_network
      st

-- The bytes of `cdata` in the constructor of `rtmp_handshake`.
abbrev pub cdata : List ℕ
cdata =
    0x73 ∷ 0x69 ∷ 0x6d ∷ 0x70 ∷ 0x6c ∷ 0x65 ∷ 0x2d ∷ 0x72 ∷ 0x74 ∷ 0x6d ∷ 0x70 ∷ 0x2d ∷ 0x73 ∷ 0x65
    ∷ 0x72 ∷ 0x76 ∷ 0x65 ∷ 0x72 ∷ 0x2d ∷ 0x77 ∷ 0x69 ∷ 0x6e ∷ 0x6c ∷ 0x69 ∷ 0x6e ∷ 0x2d ∷ 0x77
    ∷ 0x69 ∷ 0x6e ∷ 0x74 ∷ 0x65 ∷ 0x72 ∷ 0x73 ∷ 0x65 ∷ 0x72 ∷ 0x76 ∷ 0x65 ∷ 0x72 ∷ 0x40 ∷ 0x31
    ∷ 0x32 ∷ 0x36 ∷ 0x2e ∷ 0x63 ∷ 0x6f ∷ 0x6d ∷ []

abbrev random_bytes : (ℕ → ℕ) → ℕ → ℕ → List ℕ
random_bytes rand i zero = []
random_bytes rand i (suc n) =
    get_or cdata (rand i % (length cdata - 1)) 0 ∷ random_bytes rand (suc i) n

-- `rtmp_handshake`: 8 bytes 0 and 1528 that `std::rand` chooses; `rand i` is call
-- number `i` of it in this handshake.
unfoldable pub rtmp_handshake : (ℕ → ℕ) → List ℕ
rtmp_handshake rand = 0 ∷ 0 ∷ 0 ∷ 0 ∷ 0 ∷ 0 ∷ 0 ∷ 0 ∷ random_bytes rand 0 1528

abbrev pub c1_handshake_size : ℕ
c1_handshake_size = 1536

-- What `handle_chunk` calls for the messages with commands and media: `has_source` says whether
-- `rtmp_source_` and `src_ownership_` are both set.
pub record Handlers (M : Type 0) : Type 0 where
  pub on_process_cmd : ℕ → Protocol M → Packet → Result (Protocol M)
  pub on_process_metadata : ℕ → Protocol M → Packet → Result (Protocol M)
  pub has_source : M → Bool
  pub process_av_packet : Protocol M → Packet → Result (Protocol M)

module _ {M : Type 0} (handlers : Handlers M) (rand : ℕ → ℕ) where
  unfoldable pub handle_chunk : Protocol M → Packet → Result (Protocol M)
  handle_chunk st p =
      if p.msg_type_id == msg_set_chunk
      then (if ltb (length p.buf) 4
          then err control_too_short
          else ok (record st { chunk_size_in = load_be32 p.buf }))
      else if p.msg_type_id == msg_ack
      then (if ltb (length p.buf) 4 then err control_too_short else ok st)
      else if p.msg_type_id == msg_cmd
      then handlers.on_process_cmd 0 st p
      else if p.msg_type_id == msg_cmd3
      then handlers.on_process_cmd 3 st p
      else if p.msg_type_id == msg_data
      then handlers.on_process_metadata 0 st p
      else if p.msg_type_id == msg_data3
      then handlers.on_process_metadata 3 st p
      else if p.msg_type_id == msg_audio
      then (if handlers.has_source st.media
          then handlers.process_av_packet st p
          else err not_published)
      else if p.msg_type_id == msg_video
      then (if handlers.has_source st.media
          then handlers.process_av_packet st p
          else err not_published)
      else ok st

  -- The bytes of S0, S1 and S2 go to the socket directly, and are not counted in `bytes_sent_`.
  unfoldable pub handle_c0c1 : Protocol M → List ℕ → Result (Protocol M × List ℕ)
  handle_c0c1 st bytes =
      if ltb (length bytes) (1 + c1_handshake_size)
      then ok (st, bytes)
      else if not (get_or bytes 0 0 == 3)
      then err bad_version
      else ok (
        record st {
          sent = st.sent ++ ((3 ∷ rtmp_handshake rand) ++ take c1_handshake_size (drop 1 bytes));
          stage = await_c2;
        },
        drop (1 + c1_handshake_size) bytes,
      )

  -- What `handle_C2` sends to the client.
  unfoldable pub announce : Protocol M → Result (Protocol M)
  announce st = do
    st1 ← set_chunk_size 4096 st
    st2 ← send_acknowledgement 102400 st1
    set_peer_bandwidth 102400 st2

  unfoldable pub handle_c2 : Protocol M → List ℕ → Result (Protocol M × List ℕ)
  handle_c2 st bytes =
      if ltb (length bytes) c1_handshake_size
      then ok (st, bytes)
      else announce (record st { stage = chunks })
        >>= (λ st'. split_rtmp handle_chunk st' (drop c1_handshake_size bytes))

  -- `next_step_func_`.
  unfoldable pub next_step : Protocol M → List ℕ → Result (Protocol M × List ℕ)
  next_step st bytes = elim st.stage [
    | await_c0c1 ↦ handle_c0c1 st bytes
    | await_c2 ↦ handle_c2 st bytes
    | chunks ↦ split_rtmp handle_chunk st bytes
  ]

  -- The step gives a pointer into the unread bytes, and what lies before it is consumed.
  unfoldable pub on_parse_rtmp : Protocol M → FlatBuffer → Result (Protocol M × FlatBuffer)
  on_parse_rtmp st buf = do
    (st', rest) ← next_step st (FlatBuffer.unread buf)
    ok (st', FlatBuffer.safe_consume buf (FlatBuffer.unread_length buf - length rest))
