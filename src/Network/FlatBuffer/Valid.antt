-- ===== src/Network/FlatBuffer/Valid.antt =====
-- The representation invariant of network/flat_buffer.h, and that its operations keep it.
use streaming.Prelude.{ℕ, ◌+◌, ◌*◌, ◌^◌, ◌≤◌, ◌<◌, ◌≡◌, arith, List, length}
use streaming.Prelude.Outcome.{ok}
use streaming.Network.FlatBuffer.Memory.{fresh, length-fresh, length-blit}
use streaming.Network.FlatBuffer.{
  FlatBuffer, size_t, create, unread, consume_or_fail, safe_consume, unread_bytes,
  move_unread_to_begin, grow, ensure_writable_bytes, write,
}

-- The asserts of `unread_length` and `writable_bytes`, and that the array has its capacity.
pub record IsValid (b : FlatBuffer) : Type 0 where
  pub storage : length b.mem ≡ b.capacity
  pub ordered : b.read_index ≤ b.write_index
  pub within : b.write_index ≤ b.capacity
  pub representable : b.capacity < 2 ^ 64

pub create-IsValid : (n : ℕ) → n < 2 ^ 64 → IsValid (create n)
unfolding create
create-IsValid n h = omega (arith, length-fresh n)

pub consume_or_fail-IsValid :
    (b b' : FlatBuffer) (len : ℕ) → consume_or_fail b len ≡ ok b' → IsValid b → IsValid b'
unfolding consume_or_fail
consume_or_fail-IsValid b b' len e v = ground arith

pub safe_consume-IsValid : (b : FlatBuffer) (len : ℕ) → IsValid b → IsValid (safe_consume b len)
unfolding safe_consume
safe_consume-IsValid b len v = ground arith

pub unread_bytes-IsValid : (b : FlatBuffer) (len : ℕ) → IsValid b → IsValid (unread_bytes b len)
unfolding unread_bytes
unread_bytes-IsValid b len v = ground arith

pub move_unread_to_begin-IsValid : (b : FlatBuffer) → IsValid b → IsValid (move_unread_to_begin b)
unfolding move_unread_to_begin
move_unread_to_begin-IsValid b v = omega (arith, length-blit 0 (unread b) b.mem)

-- The growth does not wrap.
abbrev pub Fits : FlatBuffer → ℕ → Type 0
Fits b len = b.capacity * 2 + len < 2 ^ 64

pub grow-IsValid : (b : FlatBuffer) (len : ℕ) → Fits b len → IsValid b → IsValid (grow b len)
unfolding grow
grow-IsValid b len f v =
    let room : ℕ = size_t (size_t (b.capacity * 2) + len) in
    ground (
      arith,
      length-blit 0 (unread b) (fresh room),
      length-fresh room,
      move_unread_to_begin-IsValid b v,
    )

pub ensure_writable_bytes-IsValid :
    (b : FlatBuffer) (n : ℕ) → Fits b n → IsValid b → IsValid (ensure_writable_bytes b n)
unfolding ensure_writable_bytes
ensure_writable_bytes-IsValid b n f v = ground (arith, grow-IsValid b n f v)

-- After `ensure_writable_bytes` there is room.
pub ensure_writable_bytes-room :
    (b : FlatBuffer) (n : ℕ)
    → Fits b n
    → IsValid b
    → (ensure_writable_bytes b n).write_index + n ≤ (ensure_writable_bytes b n).capacity
unfolding ensure_writable_bytes
ensure_writable_bytes-room b n f v = ground arith

-- A write into a valid buffer leaves it valid, as long as twice the capacity and the bytes are a
-- `size_t`.
pub write-IsValid :
    (b : FlatBuffer) (bytes : List ℕ) → Fits b (length bytes) → IsValid b → IsValid (write b bytes)
unfolding write
write-IsValid b bytes f v =
    let b' = ensure_writable_bytes b (length bytes) in
    ground (
      arith,
      ensure_writable_bytes-IsValid b (length bytes) f v,
      ensure_writable_bytes-room b (length bytes) f v,
      length-blit b'.write_index bytes b'.mem,
    )
