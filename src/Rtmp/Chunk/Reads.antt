-- ===== src/Rtmp/Chunk/Reads.antt =====
-- Headers of chunks that are read the same way when more bytes stand behind them.
use streaming.Prelude.{
  ℕ, zero, suc, ◌+◌, ◌≤◌, ◌<◌, ◌⊎◌, ◌≡◌, refl, ap, ◌∙◌, ◌*◌, ◌%◌, ◌^◌, arith, Bool, true, false,
  Option, none, some, List, [], ◌∷◌, ◌++◌, length, length-drop, length-append, get_or, take, drop,
  ltb, ◌==◌, ==_iff, if◌then◌else◌, Bool-cases, inl, inr,
}
use streaming.Util.Bytes.{load_be24, load_be32, load_le32}
use streaming.Rtmp.Packet.{Packet}
use streaming.Rtmp.Chunk.Round.{header_length, basic_header, apply_header}

pub get_or-append :
    (xs ys : List ℕ) (i d : ℕ) → i < length xs → get_or (xs ++ ys) i d ≡ get_or xs i d
get_or-append [] ys i d h = absurd (omega arith)
get_or-append (x ∷ xs) ys zero d h = refl
get_or-append (x ∷ xs) ys (suc i) d h = get_or-append xs ys i d (omega arith)

pub drop-append_behind :
    (n : ℕ) (xs ys : List ℕ) → n ≤ length xs → drop n (xs ++ ys) ≡ drop n xs ++ ys
drop-append_behind zero xs ys h = refl
drop-append_behind (suc n) [] ys h = absurd (omega arith)
drop-append_behind (suc n) (x ∷ xs) ys h = drop-append_behind n xs ys (omega arith)

pub take-append_behind : (n : ℕ) (xs ys : List ℕ) → n ≤ length xs → take n (xs ++ ys) ≡ take n xs
take-append_behind zero xs ys h = refl
take-append_behind (suc n) [] ys h = absurd (omega arith)
take-append_behind (suc n) (x ∷ xs) ys h =
    ap (λ l. x ∷ l) (take-append_behind n xs ys (omega arith))

pub load_be24-append : (xs ys : List ℕ) → 3 ≤ length xs → load_be24 (xs ++ ys) ≡ load_be24 xs
unfolding load_be24
load_be24-append xs ys h =
    rw
      (
        get_or-append xs ys 0 0 (omega arith),
        get_or-append xs ys 1 0 (omega arith),
        get_or-append xs ys 2 0 (omega arith),
      )
      refl

module _ (xs ys : List ℕ) (h : 4 ≤ length xs) where
  pub load_be32-append : load_be32 (xs ++ ys) ≡ load_be32 xs
  unfolding load_be32
  load_be32-append =
      rw
        (
          get_or-append xs ys 0 0 (omega arith),
          get_or-append xs ys 1 0 (omega arith),
          get_or-append xs ys 2 0 (omega arith),
          get_or-append xs ys 3 0 (omega arith),
        )
        refl

  load_le32-append : load_le32 (xs ++ ys) ≡ load_le32 xs
  unfolding load_le32
  load_le32-append =
      rw
        (
          get_or-append xs ys 0 0 (omega arith),
          get_or-append xs ys 1 0 (omega arith),
          get_or-append xs ys 2 0 (omega arith),
          get_or-append xs ys 3 0 (omega arith),
        )
        refl

abbrev pick : Bool → Bool → Bool → Bool → ℕ × ℕ → ℕ × ℕ → ℕ × ℕ → Option (ℕ × ℕ)
pick b0 b1 s2 s3 x y z =
    if b0
    then (if s2 then none else some x)
    else if b1
    then (if s3 then none else some y)
    else some z

pick-more :
    (b0 b1 s2 s3 s2' s3' : Bool) (x y z x' y' h : ℕ × ℕ)
    → (s2 ≡ false → (s2' ≡ false) × (x' ≡ x))
    → (s3 ≡ false → (s3' ≡ false) × (y' ≡ y))
    → pick b0 b1 s2 s3 x y z ≡ some h
    → pick b0 b1 s2' s3' x' y' z ≡ some h
pick-more true b1 true s3 s2' s3' x y z x' y' h two three there = absurd (cc)
pick-more true b1 false s3 s2' s3' x y z x' y' h two three there =
    let (enough, same) = two refl in rw (enough, same) there
pick-more false true s2 true s2' s3' x y z x' y' h two three there = absurd (cc)
pick-more false true s2 false s2' s3' x y z x' y' h two three there =
    let (enough, same) = three refl in rw (enough, same) there
pick-more false false s2 s3 s2' s3' x y z x' y' h two three there = there

-- A basic header that is there.
pub basic_header-append :
    (ptr bs : List ℕ) (h : ℕ × ℕ)
    → 0 < length ptr
    → basic_header ptr ≡ some h
    → basic_header (ptr ++ bs) ≡ some h
unfolding basic_header
basic_header-append ptr bs h any there =
    let id = get_or ptr 0 0 % 64 in
    let second : ltb (length ptr) 2 ≡ false → get_or (ptr ++ bs) 1 0 ≡ get_or ptr 1 0 =
      λ few. get_or-append ptr bs 1 0 (ground arith) in
    let third : ltb (length ptr) 3 ≡ false → get_or (ptr ++ bs) 2 0 ≡ get_or ptr 2 0 =
      λ few. get_or-append ptr bs 2 0 (ground arith) in
    let all = length-append ptr bs in
    rw (get_or-append ptr bs 0 0 any) (
      pick-more (id == 0) (id == 1) (ltb (length ptr) 2) (ltb (length ptr) 3)
        (ltb (length (ptr ++ bs)) 2) (ltb (length (ptr ++ bs)) 3) (64 + get_or ptr 1 0, 1)
        (64 + get_or ptr 1 0 + get_or ptr 2 0 * 2 ^ 8, 2) (id, 0) (64 + get_or (ptr ++ bs) 1 0, 1)
        (64 + get_or (ptr ++ bs) 1 0 + get_or (ptr ++ bs) 2 0 * 2 ^ 8, 2) h
        (λ few. (ground (arith, all), rw (second few) refl))
        (λ few. (ground (arith, all), rw (get_or-append ptr bs 1 0 (ground arith), third few) refl))
        there)

-- The lengths that a message header can have.
pub header_length-cases :
    (b : ℕ)
    → (header_length b ≡ 12) ⊎ (header_length b ≡ 8) ⊎ (header_length b ≡ 4) ⊎ (header_length b ≡ 1)
unfolding header_length
header_length-cases b = ground arith

load_at :
    (k : ℕ) (h bs : List ℕ) → k + 3 ≤ length h → load_be24 (drop k (h ++ bs)) ≡ load_be24 (drop k h)
load_at k h bs room =
    ap load_be24 (drop-append_behind k h bs (omega arith))
    ∙ load_be24-append (drop k h) bs (omega (arith, length-drop k h))

-- A message header of `n` bytes that is there.
pub apply_header-append :
    (n : ℕ) (h bs : List ℕ) (p : Packet)
    → n ≤ length h
    → apply_header n (h ++ bs) p ≡ apply_header n h p
unfolding apply_header
apply_header-append n h bs p room = elim (Bool-cases (n == 12)) [
  | inl twelve ↦
      let long = (==_iff n 12).0 twelve in
      rw
        (
          twelve,
          load_at 1 h bs (omega (arith, long)),
          load_at 4 h bs (omega (arith, long)),
          get_or-append h bs 7 0 (omega (arith, long)),
          drop-append_behind 8 h bs (omega (arith, long)),
          load_le32-append (drop 8 h) bs (omega (arith, long, length-drop 8 h)),
        )
        refl
  | inr not_twelve ↦ elim (Bool-cases (n == 8)) [
    | inl eight ↦
        let long = (==_iff n 8).0 eight in
        rw
          (
            not_twelve,
            eight,
            load_at 1 h bs (omega (arith, long)),
            load_at 4 h bs (omega (arith, long)),
            get_or-append h bs 7 0 (omega (arith, long)),
          )
          refl
    | inr not_eight ↦ elim (Bool-cases (n == 4)) [
      | inl four ↦
          let long = (==_iff n 4).0 four in
          rw (not_twelve, not_eight, four, load_at 1 h bs (omega (arith, long))) refl
      | inr not_four ↦ rw (not_twelve, not_eight, not_four) refl
    ]
  ]
]

-- A header that is applied once more changes nothing.
pub apply_header-again :
    (n : ℕ) (h : List ℕ) (p : Packet) → apply_header n h (apply_header n h p) ≡ apply_header n h p
unfolding apply_header
apply_header-again n h p = elim (Bool-cases (n == 12)) [
  | inl twelve ↦ rw twelve refl
  | inr not_twelve ↦ elim (Bool-cases (n == 8)) [
    | inl eight ↦ rw (not_twelve, eight) refl
    | inr not_eight ↦ elim (Bool-cases (n == 4)) [
      | inl four ↦ rw (not_twelve, not_eight, four) refl
      | inr not_four ↦ rw (not_twelve, not_eight, not_four) refl
    ]
  ]
]
