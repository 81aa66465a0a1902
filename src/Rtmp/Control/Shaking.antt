-- ===== src/Rtmp/Control/Shaking.antt =====
-- The handshake, from the first byte to the first chunk.
use streaming.Prelude.{
  ℕ, ◌≤◌, ◌<◌, ◌≡◌, ◌≢◌, refl, ap, arith, List, [], ◌∷◌, ◌++◌, length, lt→ltb, ge→ltb, drop-append,
  length-append, take-all, drop-all, ◌⊎◌, inl, inr,
}
use streaming.Prelude.Outcome.{ok, ◌>>=◌}
use streaming.Prelude.Words.{put32}
use streaming.Rtmp.Packet.{msg_set_chunk, msg_ack, msg_set_peer_bw, chunk_network}
use streaming.Rtmp.Chunk.{
  Protocol, Stage, await_c0c1, await_c2, chunks, frame, send_acknowledgement,
}
use streaming.Rtmp.Chunk.Round.{split_rtmp}
use streaming.Rtmp.Control.{
  Handlers, handle_chunk, handle_c0c1, handle_c2, next_step, announce, set_chunk_size,
  set_peer_bandwidth, rtmp_handshake, c1_handshake_size,
}
use streaming.Rtmp.Control.Sending.{send_rtmp-no_window, sending}

Stage-cases : (s : Stage) → (s ≡ await_c0c1) ⊎ (s ≡ await_c2) ⊎ (s ≡ chunks)
Stage-cases await_c0c1 = inl refl
Stage-cases await_c2 = inr (inl refl)
Stage-cases chunks = inr (inr refl)

-- The three control messages that follow the handshake, on chunk stream 2.
abbrev pub control : {M : Type 0} → ℕ → ℕ → List ℕ → Protocol M → Protocol M
control kind size bytes st = sending (frame size kind st.msg_stream_id bytes 0 chunk_network) st

abbrev pub announced : {M : Type 0} → Protocol M → Protocol M
announced st = control msg_set_peer_bw 4096 (put32 102400 ++ (2 ∷ [])) (
    control msg_ack 4096 (put32 102400)
      (record (control msg_set_chunk st.chunk_size_out (put32 4096) st) { chunk_size_out = 4096 }))

module _ {M : Type 0} (handlers : Handlers M) (rand : ℕ → ℕ) where
  announce-no_window :
      (st : Protocol M) → st.windows_size ≡ 0 → announce handlers rand st ≡ ok (announced st)
  unfolding announce set_chunk_size set_peer_bandwidth send_acknowledgement
  announce-no_window st w =
      let s1 = record (control msg_set_chunk st.chunk_size_out (put32 4096) st) {
        chunk_size_out = 4096;
      } in
      let s2 = control msg_ack 4096 (put32 102400) s1 in
      let two : 2 ≤ chunk_network = omega arith in
      let small : chunk_network < 64 = omega arith in
      rw
        (
          send_rtmp-no_window 1 msg_set_chunk st.msg_stream_id (put32 4096) 0 chunk_network st two
              small w,
          send_rtmp-no_window 1 msg_ack st.msg_stream_id (put32 102400) 0 chunk_network s1 two small
              w,
          send_rtmp-no_window 1 msg_set_peer_bw st.msg_stream_id (put32 102400 ++ (2 ∷ [])) 0
              chunk_network s2 two small w,
        )
        refl

module _ {M : Type 0} (handlers : Handlers M) (rand : ℕ → ℕ) (st : Protocol M) where
  -- The state after the client's version and first message.
  abbrev pub answered : List ℕ → Protocol M
  answered c1 = record st { sent = st.sent ++ ((3 ∷ rtmp_handshake rand) ++ c1); stage = await_c2 }

  c0c1 :
      (c1 : List ℕ)
      → st.stage ≡ await_c0c1
      → length c1 ≡ c1_handshake_size
      → next_step handlers rand st (3 ∷ c1) ≡ ok (answered c1, [])
  unfolding next_step handle_c0c1
  c0c1 c1 stage n =
      let whole : length (3 ∷ c1) ≡ 1537 = omega (arith, n) in
      rw
        (
          stage,
          ge→ltb (length (3 ∷ c1)) 1537 (omega (arith, whole)),
          take-all 1536 c1 (omega (arith, n)),
          drop-all 1536 c1 (omega (arith, n)),
        )
        refl

  -- A client that sends version 3 and its first 1536 bytes, and then its second 1536 bytes and
  -- whatever follows, gets the server's version, the server's 1536 bytes and its own first ones,
  -- then the chunk size, an acknowledgement and the bandwidth, as messages of which the first is
  -- cut by the old chunk size and the others by the new one; everything behind the second 1536
  -- bytes is read as chunks. No window is set.
  pub next_step-handshake :
      (c1 c2 rest : List ℕ)
      → st.stage ≡ await_c0c1
      → st.windows_size ≡ 0
      → length c1 ≡ c1_handshake_size
      → length c2 ≡ c1_handshake_size
      → (next_step handlers rand st (3 ∷ c1)
          >>= (λ x. next_step handlers rand x.0 (x.1 ++ (c2 ++ rest))))
        ≡ split_rtmp
            (handle_chunk handlers rand)
            (announced (record (answered c1) { stage = chunks }))
            rest
  next_step-handshake c1 c2 rest stage w n m = rw (c0c1 c1 stage n) (
      unfold next_step handle_c2 in
      rw
        (
          ge→ltb (length (c2 ++ rest)) 1536 (omega (arith, length-append c2 rest, m)),
          drop-append 1536 c2 rest (omega (arith, m)),
        )
        (ap (λ r. r >>= (λ st'. split_rtmp (handle_chunk handlers rand) st' rest))
          (announce-no_window handlers rand (record (answered c1) { stage = chunks }) w)))

  -- With fewer bytes than a handshake message has, both steps take nothing and wait.
  pub next_step-waits :
      (bytes : List ℕ)
      → st.stage ≢ chunks
      → length bytes < c1_handshake_size
      → next_step handlers rand st bytes ≡ ok (st, bytes)
  unfolding next_step handle_c0c1 handle_c2
  next_step-waits bytes stage few = elim (Stage-cases st.stage) [
    | inl h ↦ rw h (rw (lt→ltb (length bytes) 1537 (omega (arith, few))) refl)
    | inr (inl h) ↦ rw h (rw (lt→ltb (length bytes) 1536 few) refl)
    | inr (inr h) ↦ absurd (stage h)
  ]
