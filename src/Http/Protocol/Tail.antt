-- ===== src/Http/Protocol/Tail.antt =====
-- Where `http_protocol::on_search_packet_tail` finds the end of a head.
use streaming.Prelude.{
  ℕ, suc, ◌+◌, ◌≤◌, ◌<◌, ◌⊎◌, ◌≡◌, refl, sym, ap, ◌∙◌, arith, Bool, true, false, not, ◌||◌, ◌&&◌,
  Option, none, some, List, [], ◌∷◌, ◌++◌, append_assoc, append-nil, length, length-append, ltb,
  ◌==◌, if◌then◌else◌, inl, inr, Option-cases,
}
use streaming.Prelude.Outcome.{ok}
use streaming.Prelude.Texts.{both, if-same}
use streaming.Media.Info.{index_of, starts_with, shifted}
use streaming.Http.Protocol.Texts.{packet_tail}
use streaming.Http.Protocol.Lines.{without, not-true}
use streaming.Http.Protocol.{has_nul, before_nul, found_in, on_search_packet_tail}

-- Whether a text begins so is seen in as many bytes.
starts_with-append_behind :
    (p s t : List ℕ) → length p ≤ length s → starts_with p (s ++ t) ≡ starts_with p s
unfolding starts_with
starts_with-append_behind [] s t room = refl
starts_with-append_behind (a ∷ p) [] t room = absurd (omega arith)
starts_with-append_behind (a ∷ p) (c ∷ s) t room =
    ap (λ b. (a == c) && b) (starts_with-append_behind p s t (omega arith))

starts_with-length : (p s : List ℕ) → starts_with p s ≡ true → length p ≤ length s
unfolding starts_with
starts_with-length [] s h = omega arith
starts_with-length (a ∷ p) [] h = absurd (cc)
starts_with-length (a ∷ p) (c ∷ s) h =
    let (here, later) = both (a == c) (starts_with p s) h in
    omega (arith, starts_with-length p s later)

first_or : Bool → Option ℕ → Option ℕ
first_or b o = if b then some 0 else shifted 1 o

-- Found at the beginning, or later.
first_or-cases :
    (b : Bool) (o : Option ℕ) (k : ℕ)
    → first_or b o ≡ some k
    → ((b ≡ true) × (k ≡ 0)) ⊎ ((b ≡ false) × ((j : ℕ) × (o ≡ some j) × (k ≡ 1 + j)))
unfolding first_or
first_or-cases true o k h = inl (refl, cc)
first_or-cases false none k h = absurd (cc)
first_or-cases false (some j) k h = inr (refl, (j, refl, cc))

pub index_of-length : (p s : List ℕ) (k : ℕ) → index_of p s ≡ some k → k + length p ≤ length s
unfolding index_of first_or
index_of-length p [] k h = absurd (cc)
index_of-length p (c ∷ s) k h = elim (first_or-cases (starts_with p (c ∷ s)) (index_of p s) k h) [
  | inl (here, zero_k) ↦ omega (arith, starts_with-length p (c ∷ s) here, zero_k)
  | inr (other, (j, later, next)) ↦ omega (arith, index_of-length p s j later, next)
]

-- What is found in a text is found at the same place in a longer one.
index_of-extend : (p s t : List ℕ) (k : ℕ) → index_of p s ≡ some k → index_of p (s ++ t) ≡ some k
unfolding index_of first_or
index_of-extend p [] t k h = absurd (cc)
index_of-extend p (c ∷ s) t k h =
    let room : length p ≤ suc (length s) = omega (arith, index_of-length p (c ∷ s) k h) in
    elim (first_or-cases (starts_with p (c ∷ s)) (index_of p s) k h) [
      | inl (here, zero_k) ↦
          rw (starts_with-append_behind p (c ∷ s) t room, here) (ap some (sym zero_k))
      | inr (other, (j, later, next)) ↦
          rw (starts_with-append_behind p (c ∷ s) t room, other, index_of-extend p s t j later)
            (ap some (sym next))
    ]

-- In front of the place where it is found for the first time, it is not there.
pub index_of-prefix :
    (p s t : List ℕ) (k : ℕ)
    → index_of p (s ++ t) ≡ some k
    → length s < k + length p
    → index_of p s ≡ none
index_of-prefix p s t k found short = elim (Option-cases (index_of p s)) [
  | inl nothing ↦ nothing
  | inr (j, there) ↦
      let longer = index_of-extend p s t j there in
      let same : k ≡ j = cc in absurd (omega (arith, index_of-length p s j there, same))
]

-- A text that begins with a NUL, behind one that has none.
unfoldable pub ends_at_nul : List ℕ → Bool
ends_at_nul [] = false
ends_at_nul (c ∷ cs) = c == 0

before_nul-append : (s t : List ℕ) → without 0 s ≡ true → before_nul (s ++ t) ≡ s ++ before_nul t
unfolding before_nul without
before_nul-append [] t plain = refl
before_nul-append (c ∷ s) t plain =
    let (here, later) = both (not (c == 0)) (without 0 s) plain in
    rw (not-true (c == 0) here, before_nul-append s t later) refl

before_nul-ends_at_nul :
    (t : List ℕ) → ends_at_nul t ≡ true → (before_nul t ≡ []) × (has_nul t ≡ true)
unfolding before_nul has_nul ends_at_nul
before_nul-ends_at_nul [] ends = absurd (cc)
before_nul-ends_at_nul (c ∷ t) ends = rw ends (refl, refl)

has_nul-append : (s t : List ℕ) → has_nul t ≡ true → has_nul (s ++ t) ≡ true
unfolding has_nul
has_nul-append [] t h = h
has_nul-append (c ∷ s) t h = rw (has_nul-append s t h) (if-same (c == 0) true)

enough : (s : List ℕ) → 4 ≤ length s → ((length s == 0) || ltb (length s) 4) ≡ false
enough s four = ground arith

-- Bytes without a tail, at least four and in front of a NUL, are waited with.
pub on_search_packet_tail-waits :
    (bytes behind : List ℕ)
    → 4 ≤ length bytes
    → without 0 bytes ≡ true
    → ends_at_nul behind ≡ true
    → index_of packet_tail bytes ≡ none
    → on_search_packet_tail bytes behind ≡ ok none
unfolding on_search_packet_tail found_in
on_search_packet_tail-waits bytes behind four plain ends nothing =
    let (text, nul) = before_nul-ends_at_nul behind ends in
    let all : before_nul (bytes ++ behind) ≡ bytes =
      before_nul-append bytes behind plain ∙ ap (λ b. bytes ++ b) text ∙ append-nil bytes in
    rw (enough bytes four, all, nothing, has_nul-append bytes behind nul) refl

-- A head that ends with its first tail and has no NUL is found, whatever stands behind it.
pub on_search_packet_tail-head :
    (head more behind : List ℕ) (k : ℕ)
    → without 0 head ≡ true
    → index_of packet_tail head ≡ some k
    → k + 4 ≡ length head
    → on_search_packet_tail (head ++ more) behind ≡ ok (some (length head))
unfolding on_search_packet_tail found_in
on_search_packet_tail-head head more behind k plain found long =
    let four : 4 ≤ length (head ++ more) = omega (arith, length-append head more) in
    let text : before_nul ((head ++ more) ++ behind) ≡ head ++ before_nul (more ++ behind) =
      ap before_nul (append_assoc head more behind)
      ∙ before_nul-append head (more ++ behind) plain in
    rw
      (
        enough (head ++ more) four,
        text,
        index_of-extend packet_tail head (before_nul (more ++ behind)) k found,
        long,
      )
      refl
