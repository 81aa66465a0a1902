-- ===== src/Media/Dispatcher/Sets.antt =====
-- The sets of readers in media/packet_dispatcher.h, as ascending lists of addresses.
use streaming.Prelude.{
  ℕ, ◌<◌, ◌≡◌, refl, ap, arith, Bool, false, ◌||◌, List, [], ◌∷◌, ltb, ◌==◌, if◌then◌else◌, All,
  Bool-cases, inl, inr,
}
use streaming.Media.Dispatcher.{insert, erase, merge}

abbrev pub mem : ℕ → List ℕ → Bool
mem i [] = false
mem i (j ∷ js) = (i == j) || mem i js

abbrev pub IsAscending : List ℕ → Type 0
IsAscending [] = Unit
IsAscending (i ∷ is) = All (λ j. i < j) is × IsAscending is

pub All-insert : (P : ℕ → Type 0) (i : ℕ) (js : List ℕ) → P i → All P js → All P (insert i js)
unfolding insert
All-insert P i [] p a = (p, tt)
All-insert P i (j ∷ js) p a = elim (Bool-cases (i == j)) [
  | inl e ↦ rw e a
  | inr e ↦ rw e (elim (Bool-cases (ltb i j)) [
    | inl f ↦ rw f (p, a)
    | inr f ↦ rw f (a.0, All-insert P i js p a.1)
  ])
]

All-trans : (i j : ℕ) (ks : List ℕ) → i < j → All (λ k. j < k) ks → All (λ k. i < k) ks
All-trans i j [] h a = tt
All-trans i j (k ∷ ks) h a = (omega (arith, a.0), All-trans i j ks h a.1)

pub insert-IsAscending : (i : ℕ) (js : List ℕ) → IsAscending js → IsAscending (insert i js)
unfolding insert
insert-IsAscending i [] s = (tt, tt)
insert-IsAscending i (j ∷ js) s = elim (Bool-cases (i == j)) [
  | inl e ↦ rw e s
  | inr e ↦ rw e (elim (Bool-cases (ltb i j)) [
    | inl f ↦ let h : i < j = ground arith in rw f ((h, All-trans i j js h s.0), s)
    | inr f ↦
        let h : j < i = ground arith in
        rw f (All-insert (λ k. j < k) i js h s.0, insert-IsAscending i js s.1)
  ])
]

pub merge-IsAscending : (old is : List ℕ) → IsAscending old → IsAscending (merge old is)
unfolding merge
merge-IsAscending old [] s = s
merge-IsAscending old (i ∷ is) s = merge-IsAscending (insert i old) is (insert-IsAscending i old s)

pub mem-insert : (k i : ℕ) (js : List ℕ) → mem k (insert i js) ≡ ((k == i) || mem k js)
unfolding insert
mem-insert k i [] = refl
mem-insert k i (j ∷ js) = ground (arith, mem-insert k i js)

pub mem-merge : (k : ℕ) (old is : List ℕ) → mem k (merge old is) ≡ (mem k is || mem k old)
unfolding merge
mem-merge k old [] = refl
mem-merge k old (i ∷ is) = ground (arith, mem-merge k (insert i old) is, mem-insert k i old)

-- What is below all elements is none of them.
pub mem-below : (i : ℕ) (js : List ℕ) → All (λ j. i < j) js → mem i js ≡ false
mem-below i [] a = refl
mem-below i (j ∷ js) a = let h : i < j = a.0 in ground (arith, mem-below i js a.1)

pub mem-erase :
    (k i : ℕ) (js : List ℕ)
    → IsAscending js
    → mem k (erase i js) ≡ (if k == i then false else mem k js)
unfolding erase
mem-erase k i [] s = ground arith
mem-erase k i (j ∷ js) s = ground (arith, mem-erase k i js s.1, mem-below j js s.0)

pub erase-not_mem : (i : ℕ) (is : List ℕ) → mem i is ≡ false → erase i is ≡ is
unfolding erase
erase-not_mem i [] e = refl
erase-not_mem i (j ∷ js) e =
    let other : (i == j) ≡ false = ground arith in
    let later : mem i js ≡ false = ground arith in
    rw other (ap (λ l. j ∷ l) (erase-not_mem i js later))
