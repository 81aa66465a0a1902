-- ===== src/Network/Unread.antt =====
-- The abstract view of network/flat_buffer.h: the bytes written and not yet read, oldest first.
-- The parsers are modelled over it; Network/FlatBuffer/Refine.antt relates it to the real buffer.
pub mod Laws
use streaming.Prelude.{ℕ, ◌+◌, ◌*◌, List, [], ◌∷◌, ltb, length, take, drop}
use streaming.Prelude.Outcome.{
  Result, ok, ◌>>=◌, ◌>>◌, throw_if, not_enough_data, cannot_consume, lacks_required_length,
}

-- The number that `k` bytes stand for, first byte highest, as `ntohs` and `ntohl` give it.
unfoldable pub big_endian : ℕ → List ℕ → ℕ
big_endian acc [] = acc
big_endian acc (b ∷ bs) = big_endian (acc * 256 + b) bs

unfoldable pub require : ℕ → List ℕ → Result (Unit {0})
require n u = throw_if (ltb (length u) n) lacks_required_length

unfoldable pub consume : ℕ → List ℕ → Result (List ℕ)
consume n u = do throw_if (ltb (length u) n) cannot_consume; ok (drop n u)

-- `safe_consume` drops everything if there is too little.
unfoldable pub safe_consume : ℕ → List ℕ → List ℕ
safe_consume n u = drop n u

unfoldable pub peek : ℕ → List ℕ → Result ℕ
unfolding big_endian
peek n u = do throw_if (ltb (length u) n) not_enough_data; ok (big_endian 0 (take n u))

unfoldable pub read : ℕ → List ℕ → Result (ℕ × List ℕ)
unfolding peek
read n u = do x ← peek n u; ok (x, drop n u)

unfoldable pub read_string : ℕ → List ℕ → Result (List ℕ × List ℕ)
read_string n u = do throw_if (ltb (length u) n) not_enough_data; ok (take n u, drop n u)
