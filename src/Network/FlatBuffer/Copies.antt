-- ===== src/Network/FlatBuffer/Copies.antt =====
-- Copies and moves of `flat_buffer`. A move gives both buffers back, the one that is made or assigned
-- to and the other; an array behind a null pointer is empty.
use streaming.Prelude.{ℕ, []}
use streaming.Network.FlatBuffer.{FlatBuffer}

-- The copy constructor does not copy the snapshot.
unfoldable pub copy : FlatBuffer → FlatBuffer
copy other = record other { capacity_temp = 0; read_index_temp = 0; write_index_temp = 0 }

-- The copy assignment keeps the snapshot of the buffer that is assigned to.
unfoldable pub copy_assign : FlatBuffer → FlatBuffer → FlatBuffer
copy_assign b other = record b {
  mem = other.mem;
  capacity = other.capacity;
  read_index = other.read_index;
  write_index = other.write_index;
}

-- The move constructor swaps with members that it has not set: `capacity`, `read_index` and
-- `write_index` are what happens to be there.
unfoldable pub move : ℕ → ℕ → ℕ → FlatBuffer → FlatBuffer × FlatBuffer
move capacity read_index write_index other = (
  record other { capacity_temp = 0; read_index_temp = 0; write_index_temp = 0 },
  record other {
    mem = [];
    capacity = capacity;
    read_index = read_index;
    write_index = write_index;
  },
)

-- The move assignment deletes the array that is assigned to and swaps the rest.
unfoldable pub move_assign : FlatBuffer → FlatBuffer → FlatBuffer × FlatBuffer
unfolding copy_assign
move_assign b other = (copy_assign b other, copy_assign other (record b { mem = [] }))
