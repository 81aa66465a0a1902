-- ===== src/Rtmp/Chunk/Stops.antt =====
-- The loop of `split_rtmp` ends: every round that does not wait takes bytes. So any fuel above the
-- number of bytes gives the same result.
use streaming.Prelude.{
  ℕ, zero, suc, ◌+◌, ◌≤◌, ◌<◌, ◌≡◌, refl, arith, Option, none, some, List, [], ◌∷◌, length,
  length-drop, drop, get_or, inl, inr, ltb, ◌==◌, Bool-cases, lt→ltb, ge→ltb,
}
use streaming.Prelude.Outcome.{Result, Result-cases, ok, err, ◌>>=◌, Ensures}
use native.Mathlib.Decide.{dec_lt}
use streaming.Util.Bytes.{load_be32}
use streaming.Rtmp.Packet.{Packet}
use streaming.Rtmp.Chunk.{Protocol}
use streaming.Rtmp.Chunk.Round.{
  Round, wait, chunk, message, header_length, basic_header, finish, take_chunk, payload, round,
  count_received, append_chunk, store, wanted, behind_header, opened, enter, entered, follow,
  split_from, split_rtmp,
}

-- The round leaves fewer than `k` bytes, if it does not wait.
abbrev pub Shrunk : {M : Type 0} → ℕ → Round M → Type 0
Shrunk k (wait st) = Unit
Shrunk k (chunk st rest) = length rest < k
Shrunk k (message st p rest) = length rest < k

finish-Shrunk :
    {M : Type 0} (k id stamp : ℕ) (p : Packet) (rest : List ℕ) (st : Protocol M)
    → length rest < k
    → Shrunk k (finish id stamp p rest st)
unfolding finish
finish-Shrunk k id stamp p rest st h = elim (Bool-cases (p.msg_length == length p.buf)) [
  | inr e ↦ rw e h
  | inl e ↦ rw e (elim (Bool-cases (p.msg_length == 0)) [ inl f ↦ rw f h | inr f ↦ rw f h ])
]

module _ {M : Type 0} (id stamp : ℕ) (p : Packet) (ptr : List ℕ) (st : Protocol M) where
  take_chunk-Shrunk :
      (skip more : ℕ)
      → 0 < skip
      → skip + more ≤ length ptr
      → Ensures (Shrunk (length ptr)) (take_chunk id stamp skip more p ptr st)
  unfolding take_chunk
  take_chunk-Shrunk skip more pos fits =
      let sized = append_chunk skip more p ptr in
      elim (Result-cases (count_received sized.0 (store id sized.1 st))) [
        | inr (x, r) ↦ rw r tt
        | inl (st', r) ↦ rw r (
            finish-Shrunk (length ptr) id stamp sized.1 (drop (skip + more) ptr) st'
              (omega (arith, length-drop (skip + more) ptr)))
      ]

  payload-Shrunk :
      (skip : ℕ) → 0 < skip → Ensures (Shrunk (length ptr)) (payload id stamp skip p ptr st)
  unfolding payload
  payload-Shrunk skip pos =
      let more = wanted st.chunk_size_in p in
      elim (dec_lt (length ptr) (skip + more)) [
        | yes h ↦ rw (lt→ltb _ _ h) tt
        | no h ↦
            rw (ge→ltb (length ptr) (skip + more) (omega arith))
              (take_chunk-Shrunk skip more pos (omega arith))
      ]

behind_header-Shrunk :
    {M : Type 0} (id skip : ℕ) (p : Packet) (ptr : List ℕ) (st : Protocol M)
    → 0 < skip
    → Ensures (Shrunk (length ptr)) (behind_header id skip p ptr st)
unfolding behind_header
behind_header-Shrunk id skip p ptr st pos = elim (Bool-cases (p.ts_delta == 0xFFFFFF)) [
  | inr e ↦ rw e (payload-Shrunk id p.ts_delta p ptr st skip pos)
  | inl e ↦ rw e (elim (Bool-cases (ltb (length ptr) (skip + 4))) [
    | inl f ↦ rw f tt
    | inr f ↦ rw f (payload-Shrunk id (load_be32 (drop skip ptr)) p ptr st (skip + 4) (omega arith))
  ])
]

header_length_pos : (b : ℕ) → 0 < header_length b
unfolding header_length
header_length_pos b = ground arith

enter-Shrunk :
    {M : Type 0} (id offset : ℕ) (st : Protocol M) (ptr : List ℕ)
    → Ensures (Shrunk (length ptr)) (enter id offset st ptr)
unfolding enter
enter-Shrunk id offset st ptr =
    let n = header_length (get_or ptr 0 0) in
    let p = opened id offset st ptr in
    elim (Bool-cases (ltb (length ptr) (offset + n))) [
      | inl e ↦ rw e tt
      | inr e ↦ rw e (
          behind_header-Shrunk id (offset + n) p ptr
            (store id p (record st { chunk_stream_id = id }))
            (omega (arith, header_length_pos (get_or ptr 0 0))))
    ]

entered-Shrunk :
    {M : Type 0} (st : Protocol M) (ptr : List ℕ) (h : Option (ℕ × ℕ))
    → Ensures (Shrunk (length ptr)) (entered st ptr h)
unfolding entered
entered-Shrunk st ptr none = tt
entered-Shrunk st ptr (some (id, offset)) = enter-Shrunk id offset st ptr

-- A round of the loop of `split_rtmp` that neither waits nor throws leaves fewer bytes than it was
-- given.
pub round-Shrunk :
    {M : Type 0} (st : Protocol M) (ptr : List ℕ) → Ensures (Shrunk (length ptr)) (round st ptr)
unfolding round
round-Shrunk st ptr = entered-Shrunk st ptr (basic_header ptr)

module _ {M : Type 0} (handle : Protocol M → Packet → Result (Protocol M)) where
  -- Two continuations that agree on shorter inputs.
  pub follow-agree :
      (rest rest' : Protocol M → List ℕ → Result (Protocol M × List ℕ)) (k : ℕ) (ptr : List ℕ)
      (r : Round M)
      → ((st : Protocol M) (left : List ℕ) → length left < k → rest st left ≡ rest' st left)
      → Shrunk k r
      → follow handle rest ptr r ≡ follow handle rest' ptr r
  unfolding follow
  follow-agree rest rest' k ptr (wait st) agree s = refl
  follow-agree rest rest' k ptr (chunk st left) agree s = agree st left s
  follow-agree rest rest' k ptr (message st p left) agree s = elim (Result-cases (handle st p)) [
    | inl (st', e) ↦ rw e (agree st' left s)
    | inr (x, e) ↦ rw e
  ]

  pub bind-agree :
      (k : ℕ) (r : Result (Round M)) (f f' : Round M → Result (Protocol M × List ℕ))
      → Ensures (Shrunk k) r
      → ((a : Round M) → Shrunk k a → f a ≡ f' a)
      → (r >>= f) ≡ (r >>= f')
  bind-agree k (ok a) f f' s agree = agree a s
  bind-agree k (err x) f f' s agree = refl

  -- The result of the loop of `split_rtmp` is the same for any two fuels above the number of
  -- bytes.
  pub split_from-fuel :
      (f g : ℕ) (st : Protocol M) (ptr : List ℕ)
      → length ptr < f
      → length ptr < g
      → split_from handle f st ptr ≡ split_from handle g st ptr
  unfolding split_from
  split_from-fuel zero g st ptr hf hg = absurd (omega arith)
  split_from-fuel (suc f) zero st ptr hf hg = absurd (omega arith)
  split_from-fuel (suc f) (suc g) st [] hf hg = refl
  split_from-fuel (suc f) (suc g) st (b ∷ bs) hf hg =
      bind-agree (length (b ∷ bs)) (round st (b ∷ bs)) _ _ (round-Shrunk st (b ∷ bs)) λ r s.
        follow-agree (split_from handle f) (split_from handle g) (length (b ∷ bs)) (b ∷ bs) r
          (λ st' left h. split_from-fuel f g st' left (omega arith) (omega arith)) s

  -- One round of `split_rtmp`, whose fuel is enough by itself.
  pub split_rtmp-round :
      (st : Protocol M) (b : ℕ) (bs : List ℕ)
      → split_rtmp handle st (b ∷ bs)
        ≡ (round st (b ∷ bs) >>= follow handle (split_rtmp handle) (b ∷ bs))
  unfolding split_rtmp
  split_rtmp-round st b bs =
      unfold split_from in
      (bind-agree (length (b ∷ bs)) (round st (b ∷ bs)) _ _ (round-Shrunk st (b ∷ bs)) λ r s.
        follow-agree (split_from handle (suc (length bs))) (split_rtmp handle) (length (b ∷ bs))
          (b ∷ bs) r
          (λ st' left h.
            split_from-fuel (suc (length bs)) (suc (length left)) st' left (omega arith)
              (omega arith))
          s)
