-- ===== src/Rtmp/Control/InStep.antt =====
-- Both ends of a connection change the chunk size at the same byte.
use streaming.Prelude.{ℕ, ◌^◌, ◌<◌, ◌≡◌, refl, sym, ap, ◌∙◌, arith, none, List, [], ◌++◌}
use streaming.Prelude.Outcome.{Result, ok, ◌>>=◌}
use streaming.Prelude.Words.{put32}
use streaming.Util.Bytes.{load_be32, set_be32}
use streaming.Util.Bytes.Laws.{load_be32-set_be32}
use streaming.Rtmp.Packet.{Packet, msg_set_chunk, chunk_network}
use streaming.Rtmp.Chunk.{Protocol, frame}
use streaming.Rtmp.Chunk.Round.{split_rtmp}
use streaming.Rtmp.Chunk.Delivery.{Delivery}
use streaming.Rtmp.Chunk.Message.{split_rtmp-frame}
use streaming.Rtmp.Control.{Handlers, handle_chunk, set_chunk_size}
use streaming.Rtmp.Control.Sending.{send_rtmp-no_window, sending}

-- The sender `s` has become `sender` by sending `bytes`, and the receiver `r` has become
-- `receiver` by reading them.
pub record Agreed {M N : Type 0} (handlers : Handlers N) (rand : ℕ → ℕ) (rest : List ℕ)
    (s : Protocol M) (r : Protocol N) (size : ℕ) (out : Result (Protocol M)) : Type 0 where
  pub sender : Protocol M
  pub receiver : Protocol N
  pub bytes : List ℕ
  pub sends : out ≡ ok sender
  pub sent_bytes : sender.sent ≡ s.sent ++ bytes
  pub reads :
      split_rtmp (handle_chunk handlers rand) r (bytes ++ rest)
      ≡ split_rtmp (handle_chunk handlers rand) receiver rest
  pub size_out : sender.chunk_size_out ≡ size
  pub size_in : receiver.chunk_size_in ≡ size
  pub still_free : (receiver.chunked_data_map chunk_network).now ≡ none

handle_chunk-set_chunk :
    {N : Type 0} (handlers : Handlers N) (rand : ℕ → ℕ) (size : ℕ) (st : Protocol N) (p : Packet)
    → size < 2 ^ 32
    → p.msg_type_id ≡ msg_set_chunk
    → p.buf ≡ put32 size
    → handle_chunk handlers rand st p ≡ ok (record st { chunk_size_in = size })
unfolding handle_chunk set_be32
handle_chunk-set_chunk handlers rand size st p h k b =
    let v : load_be32 (put32 size) ≡ size = load_be32-set_be32 size [] h in rw (k, b, v) refl

-- `set_chunk_size` keeps two ends of a connection in step, for a size and a message stream below 2
-- ^ 32: if the receiver reads with the chunk size that the sender writes with, which is not 0, has
-- no message under way on chunk stream 2, and neither end has a window, then the call succeeds,
-- and when the receiver has read what was sent, both have the new size and chunk stream 2 is free
-- again.
pub set_chunk_size-Agreed :
    {M N : Type 0} (handlers : Handlers N) (rand : ℕ → ℕ) (rest : List ℕ) (size : ℕ)
    (s : Protocol M) (r : Protocol N)
    → size < 2 ^ 32
    → s.msg_stream_id < 2 ^ 32
    → s.windows_size ≡ 0
    → r.windows_size ≡ 0
    → 0 < r.chunk_size_in
    → r.chunk_size_in ≡ s.chunk_size_out
    → (r.chunked_data_map chunk_network).now ≡ none
    → Agreed handlers rand rest s r size (set_chunk_size size s)
set_chunk_size-Agreed handlers rand rest size s r hs hm ws wr pos same is_free =
    let handle = handle_chunk handlers rand in
    let out = frame s.chunk_size_out msg_set_chunk s.msg_stream_id (put32 size) 0 chunk_network in
    let d : Delivery handle chunk_network 0 rest r msg_set_chunk s.msg_stream_id (put32 size) (
        split_rtmp handle r (
          frame r.chunk_size_in msg_set_chunk s.msg_stream_id (put32 size) 0 chunk_network
          ++ rest)) =
      split_rtmp-frame handle chunk_network 0 rest (omega arith) (omega arith) (omega arith)
        msg_set_chunk s.msg_stream_id _ _ r (omega arith) (omega arith) hm pos wr is_free in
    record {
      sender = record (sending out s) { chunk_size_out = size };
      receiver = record d.state { chunk_size_in = size };
      bytes = out;
      sends =
          unfold set_chunk_size in
          rw
            (send_rtmp-no_window 1 msg_set_chunk s.msg_stream_id (put32 size) 0 chunk_network s
              (omega arith) (omega arith) ws)
            refl;
      sent_bytes = refl;
      reads =
          ap
            (λ (k : ℕ).
              split_rtmp handle r
                (frame k msg_set_chunk s.msg_stream_id (put32 size) 0 chunk_network ++ rest))
            (sym same)
          ∙ d.result
          ∙ ap (λ m. m >>= (λ st'. split_rtmp handle st' rest))
              (handle_chunk-set_chunk handlers rand size d.state d.packet hs d.kind d.contents);
      size_out = refl;
      size_in = refl;
      still_free = d.free;
    }
