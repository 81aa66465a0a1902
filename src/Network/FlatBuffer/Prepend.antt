-- ===== src/Network/FlatBuffer/Prepend.antt =====
-- `flat_buffer::prepend`: put bytes in front of the unread ones.
use streaming.Prelude.{
  ℕ, zero, suc, ◌+◌, ◌-◌, ◌*◌, ◌^◌, ◌≤◌, ◌<◌, ◌≡◌, refl, ap, ◌∙◌, arith, List, [], ◌∷◌, ◌++◌, ◌||◌,
  length, ltb, leb, ◌==◌, if◌then◌else◌, take, append-nil, inl, inr, ◌≢◌,
}
use streaming.Prelude.Outcome.{Error, Result, Result-cases, ok, err, undefined}
use streaming.Network.FlatBuffer.Memory.{blit, fresh, slice, length-blit}
use streaming.Network.FlatBuffer.{FlatBuffer, size_t, unread_length, writable_bytes, unread}
use streaming.Network.FlatBuffer.Valid.{IsValid}
use streaming.Network.FlatBuffer.Refine.{length-unread}

-- The last branch allocates `capacity_ << 1 + size` bytes, which C++ reads as
-- `capacity_ << (1 + size)`. A shift by 64 or more is undefined, and so is a copy past the end of
-- the new array. `write_index_` is computed after `read_index_ = 0`.
unfoldable pub prepend_realloc : FlatBuffer → List ℕ → Result FlatBuffer
unfolding unread unread_length
prepend_realloc b bytes =
    let size = length bytes in
    let capacity = size_t (b.capacity * 2 ^ (1 + size)) in
    if leb 64 (1 + size) || ltb capacity (size + unread_length b)
    then err undefined
    else ok (record b {
      mem = blit size (unread b) (blit 0 bytes (fresh capacity));
      capacity = capacity;
      read_index = 0;
      write_index = size_t (size + (b.write_index - 0));
    })

-- `data` is a pointer that is not null.
unfoldable pub prepend : FlatBuffer → List ℕ → Result FlatBuffer
unfolding unread writable_bytes prepend_realloc
prepend b bytes =
    let size = length bytes in
    let i = b.read_index in
    let offset = size - i in
    if size == 0
    then ok b
    else if leb size i
    then ok (record b { mem = blit (i - size) bytes b.mem; read_index = i - size })
    else if leb size (writable_bytes b)
    then ok (record b {
      mem = blit i bytes (blit (i + size) (unread b) b.mem);
      write_index = size_t (b.write_index + size);
    })
    else if leb offset (writable_bytes b)
    then ok (record b {
      mem = blit 0 bytes (blit (i + offset) (unread b) b.mem);
      read_index = 0;
      write_index = size_t (b.write_index + offset);
    })
    else prepend_realloc b bytes

nil-of_length : (bytes : List ℕ) → length bytes ≡ 0 → bytes ≡ []
nil-of_length [] e = refl
nil-of_length (x ∷ xs) e = absurd (omega arith)

-- Copied to index `i`, the bytes stand in front of what begins just behind them.
slice-blit_before :
    (i n j k : ℕ) (bytes mem : List ℕ)
    → j ≡ i + length bytes
    → n ≡ length bytes + k
    → j ≤ length mem
    → slice (blit i bytes mem) i n ≡ bytes ++ slice mem j k
unfolding blit
slice-blit_before zero n j k [] mem e f h =
    let n' : n ≡ k = omega arith in
    let j' : 0 ≡ j = omega arith in ap (λ (m : ℕ). take m mem) n' ∙ ap (λ (m : ℕ). slice mem m k) j'
slice-blit_before zero zero j k (x ∷ xs) mem e f h = absurd (omega arith)
slice-blit_before zero (suc n) zero k (x ∷ xs) mem e f h = absurd (omega arith)
slice-blit_before zero (suc n) (suc j) k (x ∷ xs) [] e f h = absurd (omega arith)
slice-blit_before zero (suc n) (suc j) k (x ∷ xs) (y ∷ mem) e f h =
    ap (λ l. x ∷ l) (slice-blit_before zero n j k xs mem (omega arith) (omega arith) (omega arith))
slice-blit_before (suc i) n zero k bytes mem e f h = absurd (omega arith)
slice-blit_before (suc i) n (suc j) k bytes [] e f h = absurd (omega arith)
slice-blit_before (suc i) n (suc j) k bytes (y ∷ mem) e f h =
    slice-blit_before i n j k bytes mem (omega arith) f (omega arith)

slice-blit_exact :
    (i n : ℕ) (bytes mem : List ℕ)
    → n ≡ length bytes
    → i + n ≤ length mem
    → slice (blit i bytes mem) i n ≡ bytes
slice-blit_exact i n bytes mem e h =
    slice-blit_before i n (i + length bytes) 0 bytes mem refl (omega arith) (omega arith)
    ∙ append-nil bytes

-- Shift the unread bytes to `j`, then copy the new ones to `i`, so that they end at `j`.
slice-shifted :
    (i j n : ℕ) (bytes rest mem : List ℕ)
    → j ≡ i + length bytes
    → n ≡ length bytes + length rest
    → j + length rest ≤ length mem
    → slice (blit i bytes (blit j rest mem)) i n ≡ bytes ++ rest
slice-shifted i j n bytes rest mem e f h =
    slice-blit_before i n j (length rest) bytes (blit j rest mem) e f
      (omega (arith, length-blit j rest mem))
    ∙ ap (λ l. bytes ++ l) (slice-blit_exact j (length rest) rest mem refl h)

-- The copy into space that was read already.
unread-reused :
    (b : FlatBuffer) (bytes : List ℕ) (i : ℕ)
    → IsValid b
    → b.read_index ≡ i + length bytes
    → unread (record b { mem = blit i bytes b.mem; read_index = i }) ≡ bytes ++ unread b
unfolding unread
unread-reused b bytes i v e =
    slice-blit_before i (b.write_index - i) b.read_index (b.write_index - b.read_index) bytes b.mem
      e (omega arith) (omega arith)

-- The two moves of the unread bytes to the right.
unread-moved :
    (b : FlatBuffer) (bytes : List ℕ) (i j w : ℕ)
    → IsValid b
    → j ≡ i + length bytes
    → w ≡ j + (b.write_index - b.read_index)
    → w ≤ b.capacity
    → unread
        (record b { mem = blit i bytes (blit j (unread b) b.mem); read_index = i; write_index = w })
      ≡ bytes ++ unread b
unread-moved b bytes i j w v e f h =
    let n : length (unread b) ≡ b.write_index - b.read_index =
      unfold unread_length in length-unread b v in
    unfold unread in
    (slice-shifted i j (w - i) bytes (unread b) b.mem e (omega (arith, n)) (omega (arith, n)))

prepend-throws_not :
    (b : FlatBuffer) (bytes : List ℕ)
    → length bytes ≤ b.read_index + (b.capacity - b.write_index)
    → (x : Error) → prepend b bytes ≢ err x
unfolding prepend
prepend-throws_not b bytes room x e = ground arith

prepend-in_place :
    (b b' : FlatBuffer) (bytes : List ℕ)
    → IsValid b
    → length bytes ≤ b.read_index + (b.capacity - b.write_index)
    → prepend b bytes ≡ ok b'
    → IsValid b' × (unread b' ≡ bytes ++ unread b)
unfolding prepend
prepend-in_place b b' bytes v room e =
    let size = length bytes in
    let i = b.read_index in
    ground (
      arith,
      nil-of_length bytes,
      unread-reused b bytes (i - size) v,
      unread-moved b bytes i (i + size) (size_t (b.write_index + size)) v,
      unread-moved b bytes 0 (i + (size - i)) (size_t (b.write_index + (size - i))) v,
      length-blit (i - size) bytes b.mem,
      length-blit i bytes (blit (i + size) (unread b) b.mem),
      length-blit (i + size) (unread b) b.mem,
      length-blit 0 bytes (blit (i + (size - i)) (unread b) b.mem),
      length-blit (i + (size - i)) (unread b) b.mem,
    )

-- Where the array of a valid buffer has room, before the unread bytes or by moving them, `prepend`
-- succeeds, keeps the buffer valid and puts the bytes in front of the unread ones.
pub prepend_in_place :
    (b : FlatBuffer) (bytes : List ℕ)
    → IsValid b
    → length bytes ≤ b.read_index + (b.capacity - b.write_index)
    → (b' : FlatBuffer) × (prepend b bytes ≡ ok b') × IsValid b' × (unread b' ≡ bytes ++ unread b)
prepend_in_place b bytes v room = elim (Result-cases (prepend b bytes)) [
  | inl (b', r) ↦ let (v', u) = prepend-in_place b b' bytes v room r in (b', r, v', u)
  | inr (x, r) ↦ absurd (prepend-throws_not b bytes room x r)
]

-- On a valid buffer without room, `prepend` of 63 bytes or more shifts the capacity out of its
-- word: the call has no defined result.
pub prepend_overflow :
    (b : FlatBuffer) (bytes : List ℕ)
    → IsValid b
    → b.read_index + (b.capacity - b.write_index) < length bytes
    → 63 ≤ length bytes
    → prepend b bytes ≡ err undefined
unfolding prepend
prepend_overflow b bytes v full h = ground arith

-- On a valid buffer without room, a `prepend` that succeeds leaves as many unread bytes too many
-- as had been read before, if the written and the new bytes together are a `size_t`.
pub prepend_too_long :
    (b b' : FlatBuffer) (bytes : List ℕ)
    → IsValid b
    → b.read_index + (b.capacity - b.write_index) < length bytes
    → b.write_index + length bytes < 2 ^ 64
    → prepend b bytes ≡ ok b'
    → unread_length b' ≡ length bytes + unread_length b + b.read_index
unfolding prepend unread_length
prepend_too_long b b' bytes v full small e = ground arith
