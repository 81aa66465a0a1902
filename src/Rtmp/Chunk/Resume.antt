-- ===== src/Rtmp/Chunk/Resume.antt =====
-- One round of `split_rtmp` when more bytes come: a round that took a chunk takes the same, and one
-- that waits loses nothing.
use streaming.Prelude.{
  ℕ, ◌+◌, ◌<◌, ◌⊎◌, ◌≡◌, refl, sym, ap, ◌∙◌, ◌%◌, arith, false, Option, none, some, List, ◌++◌,
  length, length-append, get_or, drop, ltb, ge→ltb, ◌==◌, ==_refl, Bool-cases, Option-cases, inl,
  inr, subst,
}
use streaming.Prelude.Outcome.{ok}
use streaming.Rtmp.Packet.{Packet}
use streaming.Rtmp.Chunk.{Protocol, Slot, update}
use streaming.Rtmp.Chunk.Round.{
  wait, header_length, basic_header, now_packet, apply_header, store, behind_header, opened, enter,
  entered, round,
}
use streaming.Rtmp.Chunk.Reads.{get_or-append, basic_header-append, apply_header-again}
use streaming.Rtmp.Chunk.Growing.{Grown, behind_header-Grown, opened-append}

apply_header-id :
    (n : ℕ) (h : List ℕ) (p : Packet) → (apply_header n h p).chunk_stream_id ≡ p.chunk_stream_id
unfolding apply_header
apply_header-id n h p = elim (Bool-cases (n == 12)) [
  | inl twelve ↦ rw twelve refl
  | inr not_twelve ↦ elim (Bool-cases (n == 8)) [
    | inl eight ↦ rw (not_twelve, eight) refl
    | inr not_eight ↦ elim (Bool-cases (n == 4)) [
      | inl four ↦ rw (not_twelve, not_eight, four) refl
      | inr not_four ↦ rw (not_twelve, not_eight, not_four) refl
    ]
  ]
]

update-again :
    (f : ℕ → Slot) (id j : ℕ) (p : Packet)
    → update
        (update f id (record (f id) { now = some p }))
        id
        (record (update f id (record (f id) { now = some p }) id) { now = some p })
        j
      ≡ update f id (record (f id) { now = some p }) j
update-again f id j p = elim (Bool-cases (j == id)) [
  | inl same ↦ rw (same, ==_refl id) refl
  | inr other ↦ rw other refl
]

module _ {M : Type 0} where
  -- The packet that waits is found again, and its header gives it the same fields.
  opened-again :
      (id offset : ℕ) (st : Protocol M) (ptr : List ℕ)
      → opened id offset
          (store id (opened id offset st ptr) (record st { chunk_stream_id = id }))
          ptr
        ≡ opened id offset st ptr
  unfolding opened now_packet
  opened-again id offset st ptr =
      let n = header_length (get_or ptr 0 0) in
      let h = drop offset ptr in
      let q = record (now_packet st.memory (st.chunked_data_map id)) { chunk_stream_id = id } in
      let p = apply_header n h q in
      let same : record p { chunk_stream_id = id } ≡ p =
        λ i. record p { chunk_stream_id = sym (apply_header-id n h q) i } in
      rw (==_refl id) (ap (apply_header n h) same ∙ apply_header-again n h q)

  store-again : (id : ℕ) (p : Packet) (st : Protocol M) → store id p (store id p st) ≡ store id p st
  store-again id p st =
      λ i. record st { chunked_data_map = λ j. update-again st.chunked_data_map id j p i }

  -- The chunk stream id of the last round is not looked at.
  entered-named :
      (x : ℕ) (st : Protocol M) (ptr : List ℕ) (h : Option (ℕ × ℕ))
      → entered (record st { chunk_stream_id = x }) ptr h ≡ entered st ptr h
  unfolding entered enter opened
  entered-named x st ptr none = refl
  entered-named x st ptr (some (id, offset)) = refl

  round-named :
      (x : ℕ) (st : Protocol M) (ptr : List ℕ)
      → round (record st { chunk_stream_id = x }) ptr ≡ round st ptr
  unfolding round
  round-named x st ptr = entered-named x st ptr (basic_header ptr)

-- A round whose headers are there.
module _ {M : Type 0} (st : Protocol M) (ptr : List ℕ) (id offset : ℕ) where
  abbrev header_end : ℕ
  header_end = offset + header_length (get_or ptr 0 0)

  -- The state with the packet of the header in the map.
  abbrev stored : Protocol M
  stored = store id (opened id offset st ptr) (record st { chunk_stream_id = id })

  round-enough :
      basic_header ptr ≡ some (id, offset)
      → ltb (length ptr) header_end ≡ false
      → round st ptr ≡ behind_header id header_end (opened id offset st ptr) ptr stored
  unfolding round entered enter
  round-enough there enough = rw (there, enough) refl

  round-enough_behind :
      (bs : List ℕ)
      → 0 < length ptr
      → basic_header ptr ≡ some (id, offset)
      → ltb (length ptr) header_end ≡ false
      → round st (ptr ++ bs)
        ≡ behind_header id header_end (opened id offset st ptr) (ptr ++ bs) stored
  unfolding round entered enter
  round-enough_behind bs any there enough =
      let still : ltb (length (ptr ++ bs)) header_end ≡ false =
        ge→ltb (length (ptr ++ bs)) header_end (ground (arith, length-append ptr bs)) in
      rw
        (
          basic_header-append ptr bs (id, offset) any there,
          get_or-append ptr bs 0 0 any,
          still,
          opened-append bs id offset st ptr any (ground arith),
        )
        refl

-- With more bytes behind, a round that waits does what it would have done from the start, and any
-- other does the same as before.
pub round-resumes :
    {M : Type 0} (st : Protocol M) (ptr bs : List ℕ)
    → 0 < length ptr
    → ((st' : Protocol M) × (round st ptr ≡ ok (wait st'))
        × (round st' (ptr ++ bs) ≡ round st (ptr ++ bs)))
      ⊎ Grown bs (round st ptr) (round st (ptr ++ bs))
unfolding round entered enter
round-resumes st ptr bs any = elim (Option-cases (basic_header ptr)) [
  | inl nothing ↦
      let x = get_or ptr 0 0 % 64 in
      inl (record st { chunk_stream_id = x }, rw nothing refl, round-named x st (ptr ++ bs))
  | inr ((id, offset), there) ↦ elim (Bool-cases (ltb (length ptr) (header_end st ptr id offset))) [
    | inl short ↦
        inl (
          record st { chunk_stream_id = id },
          rw (there, short) refl,
          round-named id st (ptr ++ bs),
        )
    | inr enough ↦
        let p = opened id offset st ptr in
        let s1 = stored st ptr id offset in
        let n = header_end st ptr id offset in
        let small = round-enough st ptr id offset there enough in
        let big = round-enough_behind st ptr id offset bs any there enough in
        elim (behind_header-Grown bs id n p ptr s1) [
          | inl waits ↦ inl (
            s1,
            small ∙ waits,
            round-enough_behind s1 ptr id offset bs any there enough
                ∙ (rw
                    (
                      opened-again id offset st ptr,
                      store-again id p (record st { chunk_stream_id = id }),
                    )
                    refl)
                ∙ sym big,
          )
          | inr grows ↦ inr (
              subst (λ r. Grown bs r (round st (ptr ++ bs))) (sym small)
                (subst (Grown bs (behind_header id n p ptr s1)) (sym big) grows))
        ]
  ]
]
