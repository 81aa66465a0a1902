-- ===== src/Rtmp/Chunk/Segments.antt =====
-- `split_rtmp` on bytes that arrive in segments: `on_parse_rtmp` is called for what is left of the
-- bytes before and the segment.
use streaming.Prelude.{
  ℕ, zero, suc, ◌<◌, ◌≡◌, refl, sym, ap, ◌∙◌, arith, List, [], ◌∷◌, ◌++◌, append_assoc, append-nil,
  length, inl, inr,
}
use streaming.Prelude.Outcome.{Result, ok, err, ◌>>=◌, Ensures, Result-cases}
use streaming.Rtmp.Packet.{Packet}
use streaming.Rtmp.Chunk.{Protocol}
use streaming.Rtmp.Chunk.Round.{Round, wait, chunk, message, round, follow, split_from, split_rtmp}
use streaming.Rtmp.Chunk.Stops.{Shrunk, round-Shrunk, follow-agree, bind-agree, split_from-fuel}
use streaming.Rtmp.Chunk.Growing.{Grown}
use streaming.Rtmp.Chunk.Resume.{round-resumes}

-- All bytes of the segments.
abbrev pub joined : List (List ℕ) → List ℕ
joined [] = []
joined (seg ∷ segs) = seg ++ joined segs

module _ {M : Type 0} (handle : Protocol M → Packet → Result (Protocol M)) where
  abbrev Split : Type 0
  Split = Result (Protocol M × List ℕ)

  -- The loop, one round at a time.
  split_rtmp-round :
      (st : Protocol M) (c : ℕ) (cs : List ℕ)
      → split_rtmp handle st (c ∷ cs)
        ≡ (round st (c ∷ cs) >>= follow handle (split_rtmp handle) (c ∷ cs))
  unfolding split_rtmp split_from
  split_rtmp-round st c cs =
      let k = length (c ∷ cs) in
      bind-agree handle k (round st (c ∷ cs)) (follow handle (split_from handle k) (c ∷ cs))
        (follow handle (split_rtmp handle) (c ∷ cs)) (round-Shrunk st (c ∷ cs))
        (λ r shrunk.
          follow-agree handle (split_from handle k) (split_rtmp handle) k (c ∷ cs) r
            (λ st' left fewer.
              split_from-fuel handle k (suc (length left)) st' left fewer (omega arith))
            shrunk)

  -- What is done with more bytes after some have been taken.
  abbrev then_more : List ℕ → Protocol M × List ℕ → Split
  then_more bs (st, left) = split_rtmp handle st (left ++ bs)

  -- Behind a round that did not wait.
  followed :
      (bs ptr big : List ℕ) (fuel : ℕ) (r : Round M) (after : Result (Round M))
      → ((st : Protocol M) (left : List ℕ)
          → length left < fuel
          → (split_rtmp handle st left >>= then_more bs) ≡ split_rtmp handle st (left ++ bs))
      → Shrunk fuel r
      → Grown bs (ok r) after
      → (follow handle (split_rtmp handle) ptr r >>= then_more bs)
        ≡ (after >>= follow handle (split_rtmp handle) big)
  unfolding follow
  followed bs ptr big fuel (wait st) after again shrunk grown = absurd grown
  followed bs ptr big fuel (chunk st left) after again shrunk grown =
      again st left shrunk ∙ ap (λ r. r >>= follow handle (split_rtmp handle) big) (sym grown)
  followed bs ptr big fuel (message st p left) after again shrunk grown =
      elim (Result-cases (handle st p)) [
        | inl (st', handled) ↦ rw (grown, handled) (again st' left shrunk)
        | inr (e, thrown) ↦ rw (grown, thrown) refl
      ]

  split-nil :
      (st : Protocol M) (bs : List ℕ)
      → (split_rtmp handle st [] >>= then_more bs) ≡ split_rtmp handle st bs
  unfolding split_rtmp split_from
  split-nil st bs = refl

  waiting :
      (st' : Protocol M) (c : ℕ) (cs : List ℕ) (r : Result (Round M))
      → r ≡ ok (wait st')
      → (r >>= follow handle (split_rtmp handle) (c ∷ cs)) ≡ ok (st', c ∷ cs)
  unfolding follow
  waiting st' c cs r waits = rw waits refl

  after_round :
      (fuel : ℕ) (ptr big bs : List ℕ) (r after : Result (Round M))
      → ((st : Protocol M) (left : List ℕ)
          → length left < fuel
          → (split_rtmp handle st left >>= then_more bs) ≡ split_rtmp handle st (left ++ bs))
      → Ensures (Shrunk fuel) r
      → Grown bs r after
      → ((r >>= follow handle (split_rtmp handle) ptr) >>= then_more bs)
        ≡ (after >>= follow handle (split_rtmp handle) big)
  after_round fuel ptr big bs (err e) after again shrunk grown = rw grown refl
  after_round fuel ptr big bs (ok r) after again shrunk grown =
      followed bs ptr big fuel r after again shrunk grown

  shorter :
      (k n : ℕ) (r : Result (Round M)) → Ensures (Shrunk n) r → n < suc k → Ensures (Shrunk k) r
  shorter k n (err e) shrunk room = tt
  shorter k n (ok (wait st)) shrunk room = tt
  shorter k n (ok (chunk st left)) shrunk room = omega (arith, shrunk)
  shorter k n (ok (message st p left)) shrunk room = omega (arith, shrunk)

  split-append :
      (fuel : ℕ) (st : Protocol M) (xs bs : List ℕ)
      → length xs < fuel
      → (split_rtmp handle st xs >>= then_more bs) ≡ split_rtmp handle st (xs ++ bs)
  split-append zero st xs bs room = absurd (omega arith)
  split-append (suc fuel) st [] bs room = split-nil st bs
  split-append (suc fuel) st (c ∷ cs) bs room =
      let next = follow handle (split_rtmp handle) (c ∷ (cs ++ bs)) in
      elim (round-resumes st (c ∷ cs) bs (omega arith)) [
        | inl (st', waits, again) ↦
            ap (λ r. r >>= then_more bs)
              (split_rtmp-round st c cs ∙ waiting st' c cs (round st (c ∷ cs)) waits)
            ∙ split_rtmp-round st' c (cs ++ bs)
            ∙ ap (λ r. r >>= next) again
            ∙ sym (split_rtmp-round st c (cs ++ bs))
        | inr grown ↦
            ap (λ r. r >>= then_more bs) (split_rtmp-round st c cs)
            ∙ after_round fuel (c ∷ cs) (c ∷ (cs ++ bs)) bs (round st (c ∷ cs))
                (round st (c ∷ (cs ++ bs))) (λ st' left fewer. split-append fuel st' left bs fewer)
                (shorter fuel (length (c ∷ cs)) (round st (c ∷ cs)) (round-Shrunk st (c ∷ cs))
                  (omega arith))
                grown
            ∙ sym (split_rtmp-round st c (cs ++ bs))
      ]

  bind-ok : (r : Split) → (r >>= (λ x. ok x)) ≡ r
  bind-ok (ok x) = refl
  bind-ok (err e) = refl

  bind_assoc :
      (r : Split) (f g : Protocol M × List ℕ → Split) → (r >>= (λ x. f x >>= g)) ≡ ((r >>= f) >>= g)
  bind_assoc (ok x) f g = refl
  bind_assoc (err e) f g = refl

  -- One call for each segment, with what the call before left in front of it.
  abbrev pub feed : List (List ℕ) → Protocol M × List ℕ → Split
  feed [] (st, left) = ok (st, left)
  feed (seg ∷ segs) (st, left) = split_rtmp handle st (left ++ seg) >>= feed segs

  split-feed :
      (segs : List (List ℕ)) (st : Protocol M) (xs : List ℕ)
      → (split_rtmp handle st xs >>= feed segs) ≡ split_rtmp handle st (xs ++ joined segs)
  split-feed [] st xs =
      bind-ok (split_rtmp handle st xs) ∙ ap (split_rtmp handle st) (sym (append-nil xs))
  split-feed (seg ∷ segs) st xs =
      bind_assoc (split_rtmp handle st xs) (then_more seg) (feed segs)
      ∙ ap (λ r. r >>= feed segs) (split-append (suc (length xs)) st xs seg (omega arith))
      ∙ split-feed segs st (xs ++ seg)
      ∙ ap (split_rtmp handle st) (append_assoc xs seg (joined segs))

  -- However the network cuts the bytes of a connection into segments, `split_rtmp`, called for each
  -- of them behind what it left before, comes to what one call for all the bytes comes to: the
  -- same messages for the handler in the same order, the same state, the same bytes that wait, or
  -- the same exception.
  pub feed-joined :
      (segs : List (List ℕ)) (st : Protocol M)
      → feed segs (st, []) ≡ split_rtmp handle st (joined segs)
  unfolding split_rtmp split_from
  feed-joined [] st = refl
  feed-joined (seg ∷ segs) st = split-feed segs st seg
