-- ===== src/Network/FlatBuffer.antt =====
-- include/network/flat_buffer.h: a growing array with a read and a write index.
-- An exception ends the call, so an operation that throws gives no buffer back.
pub mod Memory
pub mod Valid
pub mod Refine
pub mod Grow
pub mod Snapshot
pub mod Socket
pub mod Prepend
pub mod Copies
pub mod Dump
use Prim.Native.Nat.{bit_or}
use streaming.Prelude.{ℕ, ◌+◌, ◌-◌, ◌*◌, ◌%◌, ◌^◌, List, ltb, leb, if◌then◌else◌, length}
use streaming.Prelude.Outcome.{
  Result, ok, err, ◌>>=◌, ◌>>◌, throw_if, not_enough_data, cannot_consume, lacks_required_length,
}
use streaming.Network.Unread.{big_endian}
use streaming.Network.FlatBuffer.Memory.{blit, fresh, slice}

-- `mem` is the array at `data_`. The last three fields are the snapshot.
pub record FlatBuffer : Type 0 where
  pub mem : List ℕ
  pub capacity : ℕ
  pub read_index : ℕ
  pub write_index : ℕ
  pub capacity_temp : ℕ
  pub read_index_temp : ℕ
  pub write_index_temp : ℕ

-- A sum of `size_t`.
abbrev pub size_t : ℕ → ℕ
size_t n = n % 2 ^ 64

unfoldable pub create : ℕ → FlatBuffer
create initial_size = record {
  mem = fresh initial_size;
  capacity = initial_size;
  read_index = 0;
  write_index = 0;
  capacity_temp = 0;
  read_index_temp = 0;
  write_index_temp = 0;
}

-- The differences are taken where the asserts of the source hold: `IsValid` below.
unfoldable pub unread_length : FlatBuffer → ℕ
unread_length b = b.write_index - b.read_index

unfoldable pub writable_bytes : FlatBuffer → ℕ
writable_bytes b = b.capacity - b.write_index

-- The unread bytes: `unread_length()` bytes from `data()` on.
unfoldable pub unread : FlatBuffer → List ℕ
unfolding unread_length
unread b = slice b.mem b.read_index (unread_length b)

unfoldable pub require_length_or_fail : FlatBuffer → ℕ → Result (Unit {0})
unfolding unread_length
require_length_or_fail b len = throw_if (ltb (unread_length b) len) lacks_required_length

unfoldable pub consume_or_fail : FlatBuffer → ℕ → Result FlatBuffer
unfolding unread_length
consume_or_fail b len =
    if leb len (unread_length b)
    then ok (record b { read_index = size_t (b.read_index + len) })
    else err cannot_consume

unfoldable pub reset : FlatBuffer → FlatBuffer
reset b = record b { read_index = 0; write_index = 0 }

unfoldable pub safe_consume : FlatBuffer → ℕ → FlatBuffer
unfolding unread_length reset
safe_consume b len =
    if leb len (unread_length b)
    then record b { read_index = size_t (b.read_index + len) }
    else reset b

unfoldable pub unread_bytes : FlatBuffer → ℕ → FlatBuffer
unread_bytes b len =
    if ltb b.read_index len
    then record b { read_index = 0 }
    else record b { read_index = b.read_index - len }

-- `peek_uint8`, `peek_uint16` and `peek_uint32` differ in the width `n` alone: 1, 2 and 4.
unfoldable pub peek_uint : ℕ → FlatBuffer → Result ℕ
unfolding unread_length
peek_uint n b = do
  throw_if (ltb (unread_length b) n) not_enough_data
  ok (big_endian 0 (slice b.mem b.read_index n))

unfoldable pub read_uint : ℕ → FlatBuffer → Result (ℕ × FlatBuffer)
unfolding peek_uint consume_or_fail
read_uint n b = do x ← peek_uint n b; b' ← consume_or_fail b n; ok (x, b')

-- `peek_uint64` reads one word, steps over it, reads the other and steps back.
unfoldable pub peek_uint64 : FlatBuffer → Result (ℕ × FlatBuffer)
unfolding unread_length peek_uint consume_or_fail unread_bytes
peek_uint64 b = do
  throw_if (ltb (unread_length b) 8) not_enough_data
  first ← peek_uint 4 b
  b' ← consume_or_fail b 4
  second ← peek_uint 4 b'
  ok (bit_or (first * 2 ^ 32) second, unread_bytes b' 4)

unfoldable pub read_uint64 : FlatBuffer → Result (ℕ × FlatBuffer)
unfolding peek_uint64 consume_or_fail
read_uint64 b = do (x, b') ← peek_uint64 b; b'' ← consume_or_fail b' 8; ok (x, b'')

unfoldable pub to_string : FlatBuffer → ℕ → Result (List ℕ × FlatBuffer)
unfolding unread_length consume_or_fail
to_string b len = do
  throw_if (ltb (unread_length b) len) not_enough_data
  b' ← consume_or_fail b len
  ok (slice b.mem b.read_index len, b')

unfoldable pub capture_snapshot : FlatBuffer → FlatBuffer
capture_snapshot b = record b {
  capacity_temp = b.capacity;
  read_index_temp = b.read_index;
  write_index_temp = b.write_index;
}

unfoldable pub restore_snapshot : FlatBuffer → FlatBuffer
restore_snapshot b = record b {
  capacity = b.capacity_temp;
  read_index = b.read_index_temp;
  write_index = b.write_index_temp;
}

unfoldable pub move_unread_to_begin : FlatBuffer → FlatBuffer
unfolding unread_length unread
move_unread_to_begin b = record b {
  mem = blit 0 (unread b) b.mem;
  read_index = 0;
  write_index = unread_length b;
}

unfoldable pub grow : FlatBuffer → ℕ → FlatBuffer
unfolding writable_bytes unread_length unread move_unread_to_begin
grow b len =
    if ltb (writable_bytes b) len
    then record b {
      mem = blit 0 (unread b) (fresh (size_t (size_t (b.capacity * 2) + len)));
      capacity = size_t (size_t (b.capacity * 2) + len);
      read_index = 0;
      write_index = unread_length b;
    }
    else move_unread_to_begin b

unfoldable pub ensure_writable_bytes : FlatBuffer → ℕ → FlatBuffer
unfolding writable_bytes grow
ensure_writable_bytes b n = if ltb (writable_bytes b) n then grow b n else b

unfoldable pub write : FlatBuffer → List ℕ → FlatBuffer
unfolding ensure_writable_bytes
write b bytes =
    let b' = ensure_writable_bytes b (length bytes) in
    record b' {
      mem = blit b'.write_index bytes b'.mem;
      write_index = size_t (b'.write_index + length bytes);
    }
