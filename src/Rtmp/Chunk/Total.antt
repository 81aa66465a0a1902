-- ===== src/Rtmp/Chunk/Total.antt =====
-- Without a window `split_rtmp` always returns: its rounds cannot fail, and each takes bytes.
use streaming.Prelude.{
  ℕ, zero, suc, ◌+◌, ◌<◌, ◌≡◌, ◌≢◌, arith, Option, none, some, List, [], ◌∷◌, length, get_or, drop,
  ltb, ◌==◌, Bool-cases, inl, inr,
}
use streaming.Prelude.Outcome.{Result, ok, err, ◌>>=◌, out_of_fuel, Ensures}
use streaming.Util.Bytes.{load_be32}
use streaming.Rtmp.Packet.{Packet}
use streaming.Rtmp.Chunk.{Protocol}
use streaming.Rtmp.Chunk.Round.{
  Round, wait, chunk, message, header_length, basic_header, finish, take_chunk, payload, round,
  append_chunk, store, wanted, behind_header, opened, enter, entered, follow, split_from,
  split_rtmp,
}
use streaming.Rtmp.Chunk.Framing.{count_received-no_window}
use streaming.Rtmp.Chunk.Stops.{round-Shrunk, Shrunk}

-- The round gives a state without a window.
abbrev pub Quiet : {M : Type 0} → Result (Round M) → Type 0
Quiet (ok (wait st)) = st.windows_size ≡ 0
Quiet (ok (chunk st rest)) = st.windows_size ≡ 0
Quiet (ok (message st p rest)) = st.windows_size ≡ 0
Quiet (err e) = ⊥

finish-Quiet :
    {M : Type 0} (id stamp : ℕ) (p : Packet) (rest : List ℕ) (st : Protocol M)
    → st.windows_size ≡ 0
    → Quiet (ok (finish id stamp p rest st))
unfolding finish
finish-Quiet id stamp p rest st w = elim (Bool-cases (p.msg_length == length p.buf)) [
  | inr e ↦ rw e w
  | inl e ↦ rw e (elim (Bool-cases (p.msg_length == 0)) [ inl f ↦ rw f w | inr f ↦ rw f w ])
]

payload-Quiet :
    {M : Type 0} (id stamp skip : ℕ) (p : Packet) (ptr : List ℕ) (st : Protocol M)
    → st.windows_size ≡ 0
    → Quiet (payload id stamp skip p ptr st)
unfolding payload take_chunk
payload-Quiet id stamp skip p ptr st w =
    let more = wanted st.chunk_size_in p in
    let sized = append_chunk skip more p ptr in
    elim (Bool-cases (ltb (length ptr) (skip + more))) [
      | inl e ↦ rw e w
      | inr e ↦ rw e (
          rw (count_received-no_window sized.0 (store id sized.1 st) w)
            (finish-Quiet id stamp sized.1 (drop (skip + more) ptr) _ w))
    ]

behind_header-Quiet :
    {M : Type 0} (id skip : ℕ) (p : Packet) (ptr : List ℕ) (st : Protocol M)
    → st.windows_size ≡ 0
    → Quiet (behind_header id skip p ptr st)
unfolding behind_header
behind_header-Quiet id skip p ptr st w = elim (Bool-cases (p.ts_delta == 0xFFFFFF)) [
  | inr e ↦ rw e (payload-Quiet id p.ts_delta skip p ptr st w)
  | inl e ↦ rw e (elim (Bool-cases (ltb (length ptr) (skip + 4))) [
    | inl f ↦ rw f w
    | inr f ↦ rw f (payload-Quiet id (load_be32 (drop skip ptr)) (skip + 4) p ptr st w)
  ])
]

entered-Quiet :
    {M : Type 0} (st : Protocol M) (ptr : List ℕ) (h : Option (ℕ × ℕ))
    → st.windows_size ≡ 0
    → Quiet (entered st ptr h)
unfolding entered enter
entered-Quiet st ptr none w = w
entered-Quiet st ptr (some (id, offset)) w =
    let n = header_length (get_or ptr 0 0) in
    let p = opened id offset st ptr in
    elim (Bool-cases (ltb (length ptr) (offset + n))) [
      | inl e ↦ rw e w
      | inr e ↦ rw e (
          behind_header-Quiet id (offset + n) p ptr
            (store id p (record st { chunk_stream_id = id })) w)
    ]

-- A handler that itself returns, and leaves the window closed.
abbrev pub Returns : {M : Type 0} → Result (Protocol M) → Type 0
Returns (ok st) = st.windows_size ≡ 0
Returns (err e) = e ≢ out_of_fuel

-- The loop gave a result or threw, but did not run out of fuel.
abbrev pub Ended {ℓ} : {A : Type ℓ} → Result A → Type 0
Ended (ok a) = Unit
Ended (err e) = e ≢ out_of_fuel

module _ {M : Type 0} (handle : Protocol M → Packet → Result (Protocol M))
    (returns : (st : Protocol M) (p : Packet) → st.windows_size ≡ 0 → Returns (handle st p)) where
  then-Ended :
      (r : Result (Protocol M)) (f : Protocol M → Result (Protocol M × List ℕ))
      → Returns r
      → ((st : Protocol M) → st.windows_size ≡ 0 → Ended (f st))
      → Ended (r >>= f)
  then-Ended (ok st) f w h = h st w
  then-Ended (err e) f w h = w

  follow-Ended :
      (rest : Protocol M → List ℕ → Result (Protocol M × List ℕ)) (k : ℕ) (ptr : List ℕ)
      (r : Result (Round M))
      → ((st : Protocol M) (l : List ℕ) → length l < k → st.windows_size ≡ 0 → Ended (rest st l))
      → Ensures (Shrunk k) r
      → Quiet r
      → Ended (r >>= follow handle rest ptr)
  unfolding follow
  follow-Ended rest k ptr (ok (wait st)) h s w = tt
  follow-Ended rest k ptr (ok (chunk st l)) h s w = h st l s w
  follow-Ended rest k ptr (ok (message st p l)) h s w =
      then-Ended (handle st p) (λ st'. rest st' l) (returns st p w) (λ st' w'. h st' l s w')
  follow-Ended rest k ptr (err e) h s w = absurd w

  split_from-Ended :
      (fuel : ℕ) (st : Protocol M) (ptr : List ℕ)
      → length ptr < fuel
      → st.windows_size ≡ 0
      → Ended (split_from handle fuel st ptr)
  unfolding split_from round
  split_from-Ended zero st ptr h w = absurd (omega arith)
  split_from-Ended (suc f) st [] h w = tt
  split_from-Ended (suc f) st (b ∷ bs) h w =
      follow-Ended (split_from handle f) (length (b ∷ bs)) (b ∷ bs) _
        (λ st' l s w'. split_from-Ended f st' l (omega arith) w')
        (unfold round in round-Shrunk st (b ∷ bs))
        (entered-Quiet st (b ∷ bs) (basic_header (b ∷ bs)) w)

  -- On every input `split_rtmp` ends without running out of its fuel, if no window is set, and if
  -- the handler, in a state without a window, gives a state without one or throws, and does not
  -- run out of fuel itself.
  pub split_rtmp-Ended :
      (st : Protocol M) (ptr : List ℕ) → st.windows_size ≡ 0 → Ended (split_rtmp handle st ptr)
  unfolding split_rtmp
  split_rtmp-Ended st ptr w = split_from-Ended (suc (length ptr)) st ptr (omega arith) w
