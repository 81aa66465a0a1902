-- ===== src/Network/FlatBuffer/Socket.antt =====
-- The half of network/flat_buffer.h that `session::do_read` uses, and the read cycle of
-- network/session.cpp: reserve room, let the socket write there, take over what it wrote.
use streaming.Prelude.{
  ℕ, ◌+◌, ◌-◌, ◌*◌, ◌/◌, ◌^◌, ◌≤◌, ◌<◌, ◌≡◌, ap, ◌∙◌, arith, List, ◌++◌, length, ltb, leb,
  if◌then◌else◌, inl, inr, ◌↔◌, ◌⊎◌, ◌||◌, refl, true, Bool, Option, none, some, subst,
}
use streaming.Prelude.Outcome.{
  Result, Result-cases, ok, err, ◌>>=◌, Error, undefined, read_buffer_limit,
  write_index_out_of_range,
}
use streaming.Network.FlatBuffer.Memory.{blit, slice-blit_behind, length-blit}
use streaming.Network.FlatBuffer.{
  FlatBuffer, size_t, unread_length, writable_bytes, unread, move_unread_to_begin, grow,
}
use streaming.Network.FlatBuffer.Valid.{IsValid, grow-IsValid, move_unread_to_begin-IsValid}
use streaming.Network.FlatBuffer.Grow.{grow-unread, move_unread_to_begin-unread}

abbrev pub max_cache_size : ℕ
max_cache_size = 4 * 1024 * 1024

-- `session::kSocketReadSize`
abbrev pub socket_read_size : ℕ
socket_read_size = 8 * 1024 / 2

-- The refusal comes only after moving the unread bytes has not made room.
unfoldable pub socket_read_length : FlatBuffer → ℕ → Result FlatBuffer
unfolding writable_bytes move_unread_to_begin grow
socket_read_length b n =
    let moved = move_unread_to_begin b in
    if leb n (writable_bytes b)
    then ok b
    else if leb n (writable_bytes moved)
    then ok moved
    else if ltb max_cache_size moved.capacity
    then err read_buffer_limit
    else ok (grow moved n)

unfoldable pub socket_consume : FlatBuffer → ℕ → Result FlatBuffer
unfolding writable_bytes
socket_consume b n =
    if ltb (writable_bytes b) n
    then err write_index_out_of_range
    else ok (record b { write_index = size_t (b.write_index + n) })

-- `buffer(write_begin(), socket_read_length(n))`: C++ leaves it to the compiler which of the two
-- arguments it computes first.
pub data Order : Type 0 where
  length_first begin_first : Order

-- Whether `socket_read_length` stays in the array at hand.
abbrev stays : FlatBuffer → ℕ → Bool
stays b n = leb n (writable_bytes b) || leb n (writable_bytes (move_unread_to_begin b))

-- The buffer, and where in its array the socket writes: nowhere if the pointer is into an array
-- that is freed by then.
unfoldable pub reserve : Order → FlatBuffer → Result (FlatBuffer × Option ℕ)
unfolding socket_read_length
reserve length_first b = do b' ← socket_read_length b socket_read_size; ok (b', some b'.write_index)
reserve begin_first b = do
  b' ← socket_read_length b socket_read_size
  ok (b', if stays b socket_read_size then some b.write_index else none)

-- The socket writes `bytes`, and `socket_consume` takes them over. A write behind the end of the
-- array or into one that is freed is undefined.
unfoldable pub take_over : FlatBuffer × Option ℕ → List ℕ → Result FlatBuffer
unfolding socket_consume
take_over (b, none) bytes = err undefined
take_over (b, some at) bytes =
    if leb (at + length bytes) b.capacity
    then socket_consume (record b { mem = blit at bytes b.mem }) (length bytes)
    else err undefined

-- One round of `do_read` whose socket delivers `bytes`, no more than were asked for.
unfoldable pub receive : Order → FlatBuffer → List ℕ → Result FlatBuffer
unfolding reserve take_over
receive order b bytes = reserve order b >>= (λ r. take_over r bytes)

-- Making room keeps the buffer valid and the unread bytes, and leaves room for `n` bytes.
pub socket_read_length_lem :
    (b b' : FlatBuffer) (n : ℕ)
    → n < 2 ^ 32
    → socket_read_length b n ≡ ok b'
    → IsValid b
    → IsValid b' × (unread b' ≡ unread b) × (b'.write_index + n ≤ b'.capacity)
unfolding socket_read_length
socket_read_length_lem b b' n h e v =
    let moved = move_unread_to_begin b in
    let v' = move_unread_to_begin-IsValid b v in
    ground (arith, v', move_unread_to_begin-unread b v, grow-IsValid moved n, grow-unread moved n)

-- The largest array that the read cycle allocates.
abbrev pub max_capacity : ℕ
max_capacity = max_cache_size * 2 + socket_read_size

socket_read_length-bounded :
    (b b' : FlatBuffer)
    → socket_read_length b socket_read_size ≡ ok b'
    → b.capacity ≤ max_capacity
    → b'.capacity ≤ max_capacity
unfolding socket_read_length
socket_read_length-bounded b b' e h = ground arith

-- Bytes written from `write_begin()` on and then taken over are unread bytes.
filled :
    (b b' : FlatBuffer) (bytes : List ℕ)
    → IsValid b
    → b.write_index + length bytes ≤ b.capacity
    → socket_consume (record b { mem = blit b.write_index bytes b.mem }) (length bytes) ≡ ok b'
    → IsValid b' × (unread b' ≡ unread b ++ bytes) × (b'.capacity ≡ b.capacity)
unfolding socket_consume unread unread_length
filled b b' bytes v room e =
    let k : ℕ = b.write_index - b.read_index in
    ground (
      arith,
      length-blit b.write_index bytes b.mem,
      slice-blit_behind b.read_index k b.write_index (k + length bytes) bytes b.mem,
      slice-blit_behind b.read_index k b.write_index (b'.write_index - b'.read_index) bytes b.mem,
    )

socket_read_length-limit :
    (b : FlatBuffer) (x : Error)
    → socket_read_length b socket_read_size ≡ err x
    → unread_length b + socket_read_size ≤ max_cache_size
    → ⊥
unfolding socket_read_length unread_length
socket_read_length-limit b x r small = ground arith

socket_consume-room :
    (b : FlatBuffer) (n : ℕ) (x : Error)
    → socket_consume b n ≡ err x
    → b.write_index + n ≤ b.capacity
    → ⊥
unfolding socket_consume
socket_consume-room b n x r room = ground arith

-- A valid buffer of at most so many bytes has room for a read or for its growth.
pub reserve_lem :
    (b : FlatBuffer)
    → IsValid b
    → b.capacity ≤ max_capacity
    → unread_length b + socket_read_size ≤ max_cache_size
    → (b' : FlatBuffer) × (reserve length_first b ≡ ok (b', some b'.write_index))
      × IsValid b'
      × (unread b' ≡ unread b)
      × (b'.write_index + socket_read_size ≤ b'.capacity)
      × (b'.capacity ≤ max_capacity)
unfolding reserve
reserve_lem b v c small = elim (Result-cases (socket_read_length b socket_read_size)) [
  | inl (m, r) ↦
      let (vm, same, room) = socket_read_length_lem b m socket_read_size (omega arith) r v in
      (m, rw r refl, vm, same, room, socket_read_length-bounded b m r c)
  | inr (x, r) ↦ absurd (socket_read_length-limit b x r small)
]

-- And then the socket's bytes are taken over.
pub take_over_lem :
    (b : FlatBuffer) (bytes : List ℕ)
    → IsValid b
    → b.write_index + length bytes ≤ b.capacity
    → (b' : FlatBuffer) × (take_over (b, some b.write_index) bytes ≡ ok b')
      × IsValid b'
      × (unread b' ≡ unread b ++ bytes)
      × (b'.capacity ≡ b.capacity)
unfolding take_over
take_over_lem b bytes v room =
    let fits : leb (b.write_index + length bytes) b.capacity ≡ true = ground arith in
    let at_end = record b { mem = blit b.write_index bytes b.mem } in
    elim (Result-cases (socket_consume at_end (length bytes))) [
      | inl (b', r) ↦
          let (v', grown, cap) = filled b b' bytes v room r in
          (b', rw (fits, r) refl, v', grown, cap)
      | inr (x, r) ↦ absurd (socket_consume-room at_end (length bytes) x r room)
    ]

-- With room for a whole read, both orders do the same.
reserve-room :
    (order : Order) (b : FlatBuffer)
    → (order ≡ length_first) ⊎ (socket_read_size ≤ writable_bytes b)
    → reserve order b ≡ reserve length_first b
unfolding reserve socket_read_length
reserve-room length_first b h = refl
reserve-room begin_first b (inl e) = cc
reserve-room begin_first b (inr room) = ground arith

receive-limit :
    (b b' : FlatBuffer) (bytes : List ℕ) (x : Error)
    → socket_read_length b socket_read_size ≡ err x
    → receive length_first b bytes ≡ ok b'
    → ⊥
unfolding receive reserve
receive-limit b b' bytes x r e = let bad = rw r at e in cc

receive-ok :
    (b b' m m' : FlatBuffer) (bytes : List ℕ)
    → socket_read_length b socket_read_size ≡ ok m
    → take_over (m, some m.write_index) bytes ≡ ok m'
    → receive length_first b bytes ≡ ok b'
    → m' ≡ b'
unfolding receive reserve
receive-ok b b' m m' bytes r taken e = let same = rw (r, taken) at e in cc

-- If `receive` succeeds with at most 4096 bytes, on a valid buffer whose array is not larger than
-- twice 4 MiB and one read, then the bytes are appended to the unread ones, the buffer is valid,
-- and its array is still not larger than that: provided that the compiler computes the length
-- before the pointer, or that the buffer has room for 4096 bytes as it is.
pub receive_lem :
    (order : Order) (b b' : FlatBuffer) (bytes : List ℕ)
    → (order ≡ length_first) ⊎ (socket_read_size ≤ writable_bytes b)
    → length bytes ≤ socket_read_size
    → receive order b bytes ≡ ok b'
    → IsValid b
    → b.capacity ≤ max_capacity
    → IsValid b' × (unread b' ≡ unread b ++ bytes) × (b'.capacity ≤ max_capacity)
unfolding receive
receive_lem order b b' bytes ordered h e v c =
    let first : receive length_first b bytes ≡ ok b' = rw (reserve-room order b ordered) at e in
    elim (Result-cases (socket_read_length b socket_read_size)) [
      | inl (m, r) ↦
          let (vm, same, room) = socket_read_length_lem b m socket_read_size (omega arith) r v in
          let cap = socket_read_length-bounded b m r c in
          let (m', taken, v', grown, cap') = take_over_lem m bytes vm (omega arith) in
          let is_m' : m' ≡ b' = receive-ok b b' m m' bytes r taken first in
          subst (λ x. IsValid x × (unread x ≡ unread b ++ bytes) × (x.capacity ≤ max_capacity))
            is_m' (v', grown ∙ ap (λ l. l ++ bytes) same, omega arith)
      | inr (x, r) ↦ absurd (receive-limit b b' bytes x r first)
    ]

-- On a valid buffer and at most 4096 bytes, and in either order, `receive` throws the limit's
-- exception exactly if the array has more than 4 MiB and no room for 4096 bytes beside the unread
-- ones.
pub receive_fails :
    (order : Order) (b : FlatBuffer) (bytes : List ℕ)
    → length bytes ≤ socket_read_size
    → IsValid b
    → (max_cache_size < b.capacity) × (b.capacity < unread_length b + socket_read_size)
      ↔ (receive order b bytes ≡ err read_buffer_limit)
unfolding receive reserve take_over socket_read_length socket_consume unread_length
receive_fails length_first b bytes h v = (λ p. ground arith, λ e. ground arith)
receive_fails begin_first b bytes h v = (λ p. ground arith, λ e. ground arith)

-- And so does the reservation alone, which throws nothing else.
pub reserve_fails :
    (order : Order) (b : FlatBuffer)
    → IsValid b
    → (max_cache_size < b.capacity) × (b.capacity < unread_length b + socket_read_size)
      ↔ (reserve order b ≡ err read_buffer_limit)
unfolding reserve socket_read_length unread_length
reserve_fails length_first b v = (λ p. ground arith, λ e. ground arith)
reserve_fails begin_first b v = (λ p. ground arith, λ e. ground arith)
