-- ===== src/Network/RawBuffer/Contents.antt =====
-- What a `buffer_raw` holds after `assign`.
use streaming.Prelude.{
  ℕ, ◌*◌, ◌≤◌, ◌<◌, ◌≡◌, refl, sym, ap, ◌∙◌, arith, false, ◌||◌, Option, none, some, List, [], ◌∷◌,
  length, take, ltb, ge→ltb, ◌==◌, inl, inr, Bool-cases, Option-cases,
}
use streaming.Prelude.Outcome.{ok}
use streaming.Network.FlatBuffer.{size_t}
use streaming.Network.FlatBuffer.Memory.{blit, fresh, length-fresh, length-blit, slice-blit_front}
use streaming.Network.RawBuffer.{RawBuffer, alloc, set_capacity, set_size, assign}

pub some-injective : {A : Type 0} {a b : A} → some a ≡ some b → a ≡ b
some-injective h = cc

-- The first `size()` bytes from `data()` on.
abbrev pub contents_of : Option (List ℕ) → ℕ → List ℕ
contents_of none n = []
contents_of (some mem) n = take n mem

abbrev pub contents : RawBuffer → List ℕ
contents b = contents_of b.array b.size

-- The array has the size that the buffer believes in.
abbrev pub IsAllocated : RawBuffer → Type 0
IsAllocated b = (mem : List ℕ) → b.array ≡ some mem → length mem ≡ b.capacity

-- There is an array with room for `n` bytes.
abbrev HasRoom : ℕ → RawBuffer → Type 0
HasRoom n b = (mem : List ℕ) × (b.array ≡ some mem) × (length mem ≡ b.capacity) × (n ≤ b.capacity)

set_capacity-HasRoom :
    (n : ℕ) (b : RawBuffer) → 0 < n → IsAllocated b → HasRoom n (set_capacity n b)
unfolding set_capacity alloc
set_capacity-HasRoom n b positive allocated =
    let some_bytes : (n == 0) ≡ false = ground arith in
    let self : n ≤ n = omega arith in
    elim (Option-cases b.array) [
      | inl nothing ↦ rw (nothing, some_bytes) (fresh n, refl, length-fresh n, self)
      | inr (old, there) ↦ elim (Bool-cases (ltb b.capacity n)) [
        | inl small ↦ rw (there, some_bytes, small) (fresh n, refl, length-fresh n, self)
        | inr big ↦ elim (Bool-cases (ltb n (2 * 1024) || ltb b.capacity (size_t (2 * n)))) [
          | inl reuse ↦
              rw (there, some_bytes, big, reuse) (old, refl, allocated old there, fits big)
          | inr shrink ↦ rw (there, some_bytes, big, shrink) (fresh n, refl, length-fresh n, self)
        ]
      ]
    ]
  where
    fits : ltb b.capacity n ≡ false → n ≤ b.capacity
    fits h = ground arith

-- `assign` of at least one byte never throws, and then the buffer holds exactly these bytes,
-- whatever it held and whether its array was kept or replaced.
pub assign-contents :
    (bytes : List ℕ) (b : RawBuffer)
    → 0 < length bytes
    → IsAllocated b
    → (b' : RawBuffer) × (assign bytes b ≡ ok b') × (contents b' ≡ bytes) × IsAllocated b'
unfolding assign set_size
assign-contents [] b positive allocated = absurd (omega arith)
assign-contents (x ∷ xs) b positive allocated =
    let bytes = x ∷ xs in
    let c = set_capacity (length bytes) b in
    let (mem, there, whole, room) = set_capacity-HasRoom (length bytes) b positive allocated in
    let same : ltb c.capacity (length bytes) ≡ false = ge→ltb c.capacity (length bytes) room in
    (
      record c { array = some (blit 0 bytes mem); size = length bytes },
      rw (there, same) refl,
      slice-blit_front (length bytes) bytes mem refl (omega (arith, whole, room)),
      λ m e. ap length (sym (some-injective e)) ∙ length-blit 0 bytes mem ∙ whole,
    )
