-- ===== src/Util/Bytes.antt =====
-- The byte loads and stores of src/util/util.cpp. A `void *` that is read is the list of the bytes
-- from there on; a store gives the bytes that it writes.
pub mod Laws
use Prim.Native.Nat.{bit_or}
use streaming.Prelude.{ℕ, ◌*◌, ◌/◌, ◌%◌, ◌^◌, List, [], ◌∷◌, get_or}

abbrev at : List ℕ → ℕ → ℕ
at p i = get_or p i 0

unfoldable pub load_le32 : List ℕ → ℕ
load_le32 p = bit_or (at p 3 * 2 ^ 24) (bit_or (at p 2 * 2 ^ 16) (bit_or (at p 1 * 2 ^ 8) (at p 0)))

unfoldable pub load_be24 : List ℕ → ℕ
load_be24 p = bit_or (at p 0 * 2 ^ 16) (bit_or (at p 1 * 2 ^ 8) (at p 2))

unfoldable pub load_be32 : List ℕ → ℕ
load_be32 p = bit_or (at p 0 * 2 ^ 24) (bit_or (at p 1 * 2 ^ 16) (bit_or (at p 2 * 2 ^ 8) (at p 3)))

-- `data[i] = val >> k` keeps the low eight bits.
unfoldable pub set_be24 : ℕ → List ℕ
set_be24 val = (val / 2 ^ 16 % 256) ∷ (val / 2 ^ 8 % 256) ∷ (val % 256) ∷ []

unfoldable pub set_be32 : ℕ → List ℕ
set_be32 val = (val / 2 ^ 24 % 256) ∷ (val / 2 ^ 16 % 256) ∷ (val / 2 ^ 8 % 256) ∷ (val % 256) ∷ []

unfoldable pub set_le32 : ℕ → List ℕ
set_le32 val = (val % 256) ∷ (val / 2 ^ 8 % 256) ∷ (val / 2 ^ 16 % 256) ∷ (val / 2 ^ 24 % 256) ∷ []
