-- ===== src/Network/RawBuffer.antt =====
-- `buffer_raw` of include/network/buffer.h. A null pointer is `none`, and an array is the list of
-- its bytes.
pub mod Contents
pub mod Copies
use streaming.Prelude.{
  ℕ, ◌+◌, ◌*◌, ◌%◌, ◌^◌, Bool, true, false, ◌||◌, Option, none, some, List, [], ◌∷◌, length, take,
  ltb, ◌==◌, if◌then◌else◌,
}
use streaming.Prelude.Outcome.{Result, ok, err, size_beyond_capacity}
use streaming.Network.FlatBuffer.{size_t}
use streaming.Network.FlatBuffer.Memory.{blit, fresh}

-- `lost` counts the arrays that no pointer leads to and that were not deleted.
pub record RawBuffer : Type 0 where
  pub size : ℕ
  pub capacity : ℕ
  pub array : Option (List ℕ)
  pub lost : ℕ

unfoldable pub clean : RawBuffer → RawBuffer
clean b = record b { size = 0; capacity = 0; array = none }

unfoldable pub set_size : ℕ → RawBuffer → Result RawBuffer
set_size n b = if ltb b.capacity n then err size_beyond_capacity else ok (record b { size = n })

-- `alloc:`
unfoldable pub alloc : ℕ → RawBuffer → RawBuffer
alloc capacity b = record b { array = some (fresh capacity); capacity = capacity }

-- A size of 0 never exceeds the capacity. The last case reaches `alloc` with an array in `data_`.
unfoldable pub set_capacity : ℕ → RawBuffer → RawBuffer
unfolding clean alloc
set_capacity capacity b = by_array b.array
  where
    by_array : Option (List ℕ) → RawBuffer
    by_array none = if capacity == 0 then b else alloc capacity (record b { size = 0 })
    by_array (some old) =
        if capacity == 0
        then clean b
        else if ltb b.capacity capacity
        then alloc capacity (record b { size = 0 })
        else if ltb capacity (2 * 1024) || ltb b.capacity (size_t (2 * capacity))
        then b
        else alloc capacity (record b { lost = b.lost + 1 })

-- `new buffer_raw`, and with a capacity.
unfoldable pub create : ℕ → RawBuffer
unfolding set_capacity
create capacity = set_capacity capacity (record { size = 0; capacity = 0; array = none; lost = 0 })

-- `memcpy` to the array.
abbrev pub copied : List ℕ → RawBuffer → RawBuffer
copied bytes b = filled b.array
  where
    filled : Option (List ℕ) → RawBuffer
    filled none = b
    filled (some mem) = record b { array = some (blit 0 bytes mem) }

unfoldable pub assign : List ℕ → RawBuffer → Result RawBuffer
unfolding clean set_capacity set_size
assign [] b = ok (clean b)
assign (x ∷ xs) b =
    let bytes = x ∷ xs in set_size (length bytes) (copied bytes (set_capacity (length bytes) b))
