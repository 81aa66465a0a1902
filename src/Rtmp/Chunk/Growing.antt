-- ===== src/Rtmp/Chunk/Growing.antt =====
-- The parts of a round of `split_rtmp` that took a chunk, when more bytes stand behind it.
use streaming.Prelude.{
  ℕ, ◌+◌, ◌≤◌, ◌<◌, ◌⊎◌, ◌≡◌, refl, ap, ◌∙◌, arith, false, List, ◌++◌, length, length-drop,
  length-append, get_or, take, drop, ltb, ge→ltb, ◌==◌, Bool-cases, inl, inr,
}
use streaming.Prelude.Outcome.{Result, ok, err, Result-cases}
use streaming.Util.Bytes.{load_be32}
use streaming.Rtmp.Packet.{Packet}
use streaming.Rtmp.Chunk.{Protocol}
use streaming.Rtmp.Chunk.Round.{
  Round, wait, chunk, message, header_length, now_packet, apply_header, finish, append_chunk, store,
  take_chunk, count_received, wanted, payload, behind_header, opened,
}
use streaming.Rtmp.Chunk.Reads.{
  get_or-append, drop-append_behind, take-append_behind, load_be32-append, apply_header-append,
}

module _ {M : Type 0} (bs : List ℕ) where
  -- The round took the same chunk, with more bytes behind what it leaves.
  abbrev pub Grown : Result (Round M) → Result (Round M) → Type 0
  Grown (err e) big = big ≡ err e
  Grown (ok (wait st)) big = ⊥
  Grown (ok (chunk st left)) big = big ≡ ok (chunk st (left ++ bs))
  Grown (ok (message st p left)) big = big ≡ ok (message st p (left ++ bs))

  pub finish-Grown :
      (id stamp : ℕ) (p : Packet) (rest : List ℕ) (st : Protocol M)
      → Grown (ok (finish id stamp p rest st)) (ok (finish id stamp p (rest ++ bs) st))
  unfolding finish
  finish-Grown id stamp p rest st = elim (Bool-cases (p.msg_length == length p.buf)) [
    | inl e ↦ elim (Bool-cases (p.msg_length == 0)) [
      | inl f ↦ rw (e, f) refl
      | inr f ↦ rw (e, f) refl
    ]
    | inr e ↦ rw e refl
  ]

  pub take_chunk-Grown :
      (id stamp skip more : ℕ) (p : Packet) (ptr : List ℕ) (st : Protocol M)
      → skip + more ≤ length ptr
      → Grown
          (take_chunk id stamp skip more p ptr st)
          (take_chunk id stamp skip more p (ptr ++ bs) st)
  unfolding take_chunk append_chunk
  take_chunk-Grown id stamp skip more p ptr st room =
      let same : take more (drop skip (ptr ++ bs)) ≡ take more (drop skip ptr) =
        ap (take more) (drop-append_behind skip ptr bs (omega arith))
        ∙ take-append_behind more (drop skip ptr) bs (omega (arith, length-drop skip ptr)) in
      let sized = append_chunk skip more p ptr in
      elim (Result-cases (count_received sized.0 (store id sized.1 st))) [
        | inl (st', counted) ↦
            rw (same, drop-append_behind (skip + more) ptr bs room, counted)
              (finish-Grown id stamp sized.1 (drop (skip + more) ptr) st')
        | inr (e, thrown) ↦ rw (same, thrown) refl
      ]

  -- What a part of a round comes to: it waits in the state `st`, or more bytes change nothing.
  abbrev pub WaitsOrGrown : Protocol M → Result (Round M) → Result (Round M) → Type 0
  WaitsOrGrown st small big = (small ≡ ok (wait st)) ⊎ Grown small big

  pub payload-Grown :
      (id stamp skip : ℕ) (p : Packet) (ptr : List ℕ) (st : Protocol M)
      → WaitsOrGrown st (payload id stamp skip p ptr st) (payload id stamp skip p (ptr ++ bs) st)
  unfolding payload
  payload-Grown id stamp skip p ptr st =
      let more = wanted st.chunk_size_in p in
      elim (Bool-cases (ltb (length ptr) (skip + more))) [
        | inl short ↦ inl (rw short refl)
        | inr enough ↦
            let room : skip + more ≤ length ptr = ground arith in
            let still : ltb (length (ptr ++ bs)) (skip + more) ≡ false =
              ge→ltb (length (ptr ++ bs)) (skip + more) (omega (arith, length-append ptr bs)) in
            inr (rw (enough, still) (take_chunk-Grown id stamp skip more p ptr st room))
      ]

  pub behind_header-Grown :
      (id skip : ℕ) (p : Packet) (ptr : List ℕ) (st : Protocol M)
      → WaitsOrGrown st (behind_header id skip p ptr st) (behind_header id skip p (ptr ++ bs) st)
  unfolding behind_header
  behind_header-Grown id skip p ptr st = elim (Bool-cases (p.ts_delta == 0xFFFFFF)) [
    | inr plain ↦ rw plain (payload-Grown id p.ts_delta skip p ptr st)
    | inl extended ↦ elim (Bool-cases (ltb (length ptr) (skip + 4))) [
      | inl short ↦ inl (rw (extended, short) refl)
      | inr enough ↦
          let still : ltb (length (ptr ++ bs)) (skip + 4) ≡ false =
            ge→ltb (length (ptr ++ bs)) (skip + 4) (ground (arith, length-append ptr bs)) in
          let stamp : load_be32 (drop skip (ptr ++ bs)) ≡ load_be32 (drop skip ptr) =
            ap load_be32 (drop-append_behind skip ptr bs (ground arith))
            ∙ load_be32-append (drop skip ptr) bs (ground (arith, length-drop skip ptr)) in
          rw (extended, enough, still, stamp)
            (payload-Grown id (load_be32 (drop skip ptr)) (skip + 4) p ptr st)
    ]
  ]

  pub opened-append :
      (id offset : ℕ) (st : Protocol M) (ptr : List ℕ)
      → 0 < length ptr
      → offset + header_length (get_or ptr 0 0) ≤ length ptr
      → opened id offset st (ptr ++ bs) ≡ opened id offset st ptr
  unfolding opened
  opened-append id offset st ptr any room =
      let n = header_length (get_or ptr 0 0) in
      let q = record (now_packet st.memory (st.chunked_data_map id)) { chunk_stream_id = id } in
      ap (λ (b : ℕ). apply_header (header_length b) (drop offset (ptr ++ bs)) q)
        (get_or-append ptr bs 0 0 any)
      ∙ ap (λ l. apply_header n l q) (drop-append_behind offset ptr bs (omega arith))
      ∙ apply_header-append n (drop offset ptr) bs q (omega (arith, length-drop offset ptr))
