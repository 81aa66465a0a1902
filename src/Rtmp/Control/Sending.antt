-- ===== src/Rtmp/Control/Sending.antt =====
-- `send_rtmp` when no window is set: the frame is all that is sent.
use streaming.Prelude.{
  ℕ, suc, ◌+◌, ◌%◌, ◌^◌, ◌≤◌, ◌<◌, ◌≡◌, refl, arith, List, ◌++◌, length, ge→ltb,
}
use streaming.Prelude.Outcome.{ok}
use streaming.Rtmp.Chunk.{Protocol, send_rtmp, frame}

-- A message that was sent, and counted.
abbrev pub sending : {M : Type 0} → List ℕ → Protocol M → Protocol M
sending out st = record st {
  sent = st.sent ++ out;
  bytes_sent = (st.bytes_sent + length out % 2 ^ 32) % 2 ^ 64;
}

-- On the chunk streams 2 to 63 and without a window, `send_rtmp` hands exactly the message's frame
-- to the socket, adds its length to the count of sent bytes and changes nothing else.
pub send_rtmp-no_window :
    {M : Type 0} (fuel kind stream : ℕ) (bytes : List ℕ) (ts id : ℕ) (st : Protocol M)
    → 2 ≤ id
    → id < 64
    → st.windows_size ≡ 0
    → send_rtmp (suc fuel) kind stream bytes ts id st
      ≡ ok (sending (frame st.chunk_size_out kind stream bytes ts id) st)
unfolding send_rtmp
send_rtmp-no_window fuel kind stream bytes ts id st lo hi w =
    rw (ge→ltb id 2 lo, ge→ltb 63 id (omega arith), ge→ltb 0 st.windows_size (omega arith)) refl
