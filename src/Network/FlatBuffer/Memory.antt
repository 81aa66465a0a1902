-- ===== src/Network/FlatBuffer/Memory.antt =====
-- Arrays of bytes: `new char[n]`, `memcpy` into one, and reading a stretch of one.
use streaming.Prelude.{
  ℕ, zero, suc, ◌+◌, ◌≤◌, ◌≡◌, refl, ap, ◌∙◌, arith, List, [], ◌∷◌, ◌++◌, length, take, drop,
  replicate, length-replicate,
}

-- What `new char[n]` holds is indeterminate. The model writes zeros, and no theorem depends on
-- them: each one speaks of bytes that were written.
unfoldable pub fresh : ℕ → List ℕ
fresh n = replicate n 0

pub length-fresh : (n : ℕ) → length (fresh n) ≡ n
unfolding fresh
length-fresh n = length-replicate n 0

abbrev pub slice : List ℕ → ℕ → ℕ → List ℕ
slice mem i n = take n (drop i mem)

-- `memcpy(mem, bytes, n)` and, from index `i` on, `memcpy(mem + i, bytes, n)`. What would fall
-- behind the end is lost; the validity theorems rule that out.
unfoldable pub overlay : List ℕ → List ℕ → List ℕ
overlay [] mem = mem
overlay (x ∷ xs) [] = []
overlay (x ∷ xs) (y ∷ mem) = x ∷ overlay xs mem

unfoldable pub blit : ℕ → List ℕ → List ℕ → List ℕ
unfolding overlay
blit zero bytes mem = overlay bytes mem
blit (suc i) bytes [] = []
blit (suc i) bytes (y ∷ mem) = y ∷ blit i bytes mem

length-overlay : (bytes mem : List ℕ) → length (overlay bytes mem) ≡ length mem
unfolding overlay
length-overlay [] mem = refl
length-overlay (x ∷ xs) [] = refl
length-overlay (x ∷ xs) (y ∷ mem) = ap suc (length-overlay xs mem)

pub length-blit : (i : ℕ) (bytes mem : List ℕ) → length (blit i bytes mem) ≡ length mem
unfolding blit
length-blit zero bytes mem = length-overlay bytes mem
length-blit (suc i) bytes [] = refl
length-blit (suc i) bytes (y ∷ mem) = ap suc (length-blit i bytes mem)

take-overlay :
    (bytes mem : List ℕ)
    → length bytes ≤ length mem
    → take (length bytes) (overlay bytes mem) ≡ bytes
unfolding overlay
take-overlay [] mem h = refl
take-overlay (x ∷ xs) [] h = absurd (omega arith)
take-overlay (x ∷ xs) (y ∷ mem) h = ap (λ l. x ∷ l) (take-overlay xs mem (omega arith))

-- What was copied to the front is read back.
pub slice-blit_front :
    (n : ℕ) (bytes mem : List ℕ)
    → n ≡ length bytes
    → length bytes ≤ length mem
    → slice (blit 0 bytes mem) 0 n ≡ bytes
unfolding blit
slice-blit_front n bytes mem e h =
    ap (λ (k : ℕ). take k (overlay bytes mem)) e ∙ take-overlay bytes mem h

-- A stretch of `k` bytes from `r` on is extended by what is copied in just behind it.
pub slice-blit_behind :
    (r k w n : ℕ) (bytes mem : List ℕ)
    → w ≡ r + k
    → n ≡ k + length bytes
    → w + length bytes ≤ length mem
    → slice (blit w bytes mem) r n ≡ slice mem r k ++ bytes
unfolding blit
slice-blit_behind zero zero zero n bytes mem e f h =
    slice-blit_front n bytes mem (omega arith) (omega arith)
slice-blit_behind zero zero (suc w) n bytes mem e f h = absurd (omega arith)
slice-blit_behind zero (suc k) zero n bytes mem e f h = absurd (omega arith)
slice-blit_behind zero (suc k) (suc w) zero bytes mem e f h = absurd (omega arith)
slice-blit_behind zero (suc k) (suc w) (suc n) bytes [] e f h = absurd (omega arith)
slice-blit_behind zero (suc k) (suc w) (suc n) bytes (y ∷ mem) e f h =
    ap (λ l. y ∷ l)
      (slice-blit_behind zero k w n bytes mem (omega arith) (omega arith) (omega arith))
slice-blit_behind (suc r) k zero n bytes mem e f h = absurd (omega arith)
slice-blit_behind (suc r) k (suc w) n bytes [] e f h = absurd (omega arith)
slice-blit_behind (suc r) k (suc w) n bytes (y ∷ mem) e f h =
    slice-blit_behind r k w n bytes mem (omega arith) f (omega arith)
