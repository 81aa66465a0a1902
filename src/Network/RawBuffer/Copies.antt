-- ===== src/Network/RawBuffer/Copies.antt =====
-- Copies and moves of `buffer_raw` in include/network/buffer.h. Both buffers are given back: the one
-- that is made or assigned to, and the other.
use streaming.Prelude.{
  ℕ, ◌≤◌, ◌<◌, ◌≡◌, refl, sym, ap, ◌∙◌, arith, false, Option, none, some, List, [], length, take,
  length-take, ltb, ge→ltb, subst, inl, inr, Bool-cases, ==_iff, ◌==◌, if◌then◌else◌,
}
use streaming.Prelude.Outcome.{Result, ok, ◌>>=◌}
use streaming.Network.FlatBuffer.Memory.{blit, fresh, length-fresh, length-blit, slice-blit_front}
use streaming.Network.RawBuffer.{RawBuffer, alloc, set_capacity, set_size, create, copied}
use streaming.Network.RawBuffer.Contents.{contents, contents_of, IsAllocated, some-injective}

-- The copy constructor: as much capacity, and the bytes if there are any.
unfoldable pub copy_of : RawBuffer → Option (List ℕ) → Result RawBuffer
unfolding create set_size
copy_of other none = ok (create other.capacity)
copy_of other (some mem) =
    let filled = set_size other.size (copied (take other.size mem) (create other.capacity)) in
    if other.size == 0 then ok (create other.capacity) else filled

unfoldable pub copy : RawBuffer → Result RawBuffer
unfolding copy_of
copy other = copy_of other other.array

-- The move constructor leaves the other its size and capacity.
unfoldable pub move : RawBuffer → RawBuffer × RawBuffer
move other = (record other { lost = 0 }, record other { array = none })

-- The move assignment swaps.
unfoldable pub move_assign : RawBuffer → RawBuffer → RawBuffer × RawBuffer
move_assign b other = (record other { lost = b.lost }, record b { lost = other.lost })

-- The copy assignment moves from a copy, which then goes with the old array.
unfoldable pub copy_assign : RawBuffer → RawBuffer → Result RawBuffer
unfolding copy move_assign
copy_assign b other = do made ← copy other; ok (move_assign b made).0

create-allocated :
    (c : ℕ) → 0 < c → create c ≡ record { size = 0; capacity = c; array = some (fresh c); lost = 0 }
unfolding create set_capacity alloc
create-allocated c positive = let some_bytes : (c == 0) ≡ false = ground arith in rw some_bytes refl

-- What a copy holds.
abbrev IsCopy : RawBuffer → Result RawBuffer → Type 0
IsCopy other made =
    (b : RawBuffer) × (made ≡ ok b) × (contents b ≡ contents other) × IsAllocated b × (b.lost ≡ 0)

empty-IsCopy : (other : RawBuffer) → contents other ≡ [] → IsCopy other (ok (create other.capacity))
unfolding create set_capacity alloc
empty-IsCopy other nothing = elim (Bool-cases (other.capacity == 0)) [
  | inl no_bytes ↦ rw no_bytes (
    record { size = 0; capacity = 0; array = none; lost = 0 },
    refl,
    sym nothing,
    (λ mem e. absurd (none_some e)),
    refl,
  )
  | inr bytes ↦ rw bytes (
    record { size = 0; capacity = other.capacity; array = some (fresh other.capacity); lost = 0 },
    refl,
    sym nothing,
    (λ mem e. ap length (sym (some-injective e)) ∙ length-fresh other.capacity),
    refl,
  )
]
  where
    none_some : {mem : List ℕ} → none ≡ some mem → ⊥
    none_some h = cc

copy_of-IsCopy :
    (other : RawBuffer) (o : Option (List ℕ))
    → other.array ≡ o
    → IsAllocated other
    → other.size ≤ other.capacity
    → IsCopy other (copy_of other o)
unfolding copy_of set_size
copy_of-IsCopy other none there allocated room =
    empty-IsCopy other (ap (λ a. contents_of a other.size) there)
copy_of-IsCopy other (some mem) there allocated room = elim (Bool-cases (other.size == 0)) [
  | inl no_bytes ↦
      let empty = empty-IsCopy other (
        ap (λ a. contents_of a other.size) there
        ∙ ap (λ (n : ℕ). take n mem) ((==_iff other.size 0).0 no_bytes)) in
      subst
        (λ b. IsCopy other (
          if b
          then ok (create other.capacity)
          else set_size other.size (copied (take other.size mem) (create other.capacity))))
        (sym no_bytes) empty
  | inr bytes ↦
      let n = other.size in
      let c = other.capacity in
      let whole = allocated mem there in
      let fits : ltb c n ≡ false = ge→ltb c n room in
      let long : length (take n mem) ≡ n = omega (arith, length-take n mem, whole, room) in
      (
        record { size = n; capacity = c; array = some (blit 0 (take n mem) (fresh c)); lost = 0 },
        rw (bytes, create-allocated c (ground (arith, bytes, room)), fits) refl,
        slice-blit_front n (take n mem) (fresh c) (sym long)
              (omega (arith, long, length-fresh c, room))
            ∙ ap (λ a. contents_of a n) (sym there),
        (λ m e.
            ap length (sym (some-injective e))
            ∙ length-blit 0 (take n mem) (fresh c)
            ∙ length-fresh c),
        refl,
      )
]

-- A buffer that a well-formed buffer is assigned to never throws: it then holds what the other one
-- holds, whatever it held, its array has the capacity that it believes in, and no array is lost.
pub copy_assign-contents :
    (b other : RawBuffer)
    → IsAllocated other
    → other.size ≤ other.capacity
    → (b' : RawBuffer) × (copy_assign b other ≡ ok b')
      × (contents b' ≡ contents other)
      × IsAllocated b'
      × (b'.lost ≡ b.lost)
unfolding copy_assign copy move_assign
copy_assign-contents b other allocated room =
    let (made, done, same, whole, none_lost) =
      copy_of-IsCopy other other.array refl allocated room in
    (record made { lost = b.lost }, rw done refl, same, whole, refl)
