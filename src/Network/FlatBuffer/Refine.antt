-- ===== src/Network/FlatBuffer/Refine.antt =====
-- The reads of a valid buffer are the reads of its unread bytes.
use streaming.Prelude.{
  ℕ, ◌+◌, ◌-◌, ◌≤◌, ◌≡◌, refl, sym, ap, ◌∙◌, arith, length, take, drop, length-take, length-drop,
  take-take, drop-all, [], drop-take, drop-drop,
}
use streaming.Prelude.Outcome.{map_ok}
use streaming.Network.Unread
use streaming.Network.FlatBuffer.Memory.{slice}
use streaming.Network.FlatBuffer.{
  FlatBuffer, size_t, unread_length, unread, consume_or_fail, safe_consume, reset, peek_uint,
  read_uint, to_string,
}
use streaming.Network.FlatBuffer.Valid.{IsValid}

pub length-unread : (b : FlatBuffer) → IsValid b → length (unread b) ≡ unread_length b
unfolding unread unread_length
length-unread b v = omega (
  arith,
  length-take (b.write_index - b.read_index) (drop b.read_index b.mem),
  length-drop b.read_index b.mem,
)

-- Stepping over `len` unread bytes drops them.
unread-step :
    (b : FlatBuffer) (len i : ℕ)
    → len ≤ b.write_index - b.read_index
    → i ≡ b.read_index + len
    → unread (record b { read_index = i }) ≡ drop len (unread b)
unfolding unread
unread-step b len i h e =
    let left : ℕ = b.write_index - b.read_index - len in
    ap (λ (k : ℕ). slice b.mem i k) (let q : b.write_index - i ≡ left = omega arith in q)
    ∙ sym (
        drop-take len (b.write_index - b.read_index) left (drop b.read_index b.mem) (omega arith)
        ∙ ap (take left) (drop-drop b.read_index len i b.mem e))

unread-reset : (b : FlatBuffer) → unread (reset b) ≡ []
unfolding unread reset
unread-reset b = refl

unread-prefix :
    (n : ℕ) (b : FlatBuffer)
    → n ≤ b.write_index - b.read_index
    → slice b.mem b.read_index n ≡ take n (unread b)
unfolding unread
unread-prefix n b h = sym (take-take n (b.write_index - b.read_index) (drop b.read_index b.mem) h)

-- On a valid buffer `consume_or_fail` drops as many unread bytes as it is told, or throws if there
-- are fewer.
pub consume_or_fail_refines :
    (b : FlatBuffer) (len : ℕ)
    → IsValid b
    → map_ok unread (consume_or_fail b len) ≡ Unread.consume len (unread b)
unfolding consume_or_fail Unread.consume
consume_or_fail_refines b len v =
    ground (arith, length-unread b v, unread-step b len (size_t (b.read_index + len)))

-- On a valid buffer `safe_consume` drops as many unread bytes as it is told, or all there are.
pub safe_consume_refines :
    (b : FlatBuffer) (len : ℕ)
    → IsValid b
    → unread (safe_consume b len) ≡ Unread.safe_consume len (unread b)
unfolding safe_consume Unread.safe_consume
safe_consume_refines b len v = ground (
  arith,
  length-unread b v,
  unread-step b len (size_t (b.read_index + len)),
  unread-reset b,
  drop-all len (unread b),
)

pub peek_uint_refines :
    (n : ℕ) (b : FlatBuffer) → IsValid b → peek_uint n b ≡ Unread.peek n (unread b)
unfolding peek_uint Unread.peek
peek_uint_refines n b v = ground (arith, length-unread b v, unread-prefix n b)

-- On a valid buffer `read_uint8`, `read_uint16` and `read_uint32` give the big-endian number at
-- the front of the unread bytes and drop it, or throw if there are too few.
pub read_uint_refines :
    (n : ℕ) (b : FlatBuffer)
    → IsValid b
    → map_ok (λ p. (p.0, unread p.1)) (read_uint n b) ≡ Unread.read n (unread b)
unfolding read_uint Unread.read
read_uint_refines n b v =
    ground
      (arith, length-unread b v, unread-prefix n b, unread-step b n (size_t (b.read_index + n)))

-- On a valid buffer `to_string` gives that many bytes from the front of the unread ones and drops
-- them, or throws if there are fewer.
pub to_string_refines :
    (n : ℕ) (b : FlatBuffer)
    → IsValid b
    → map_ok (λ p. (p.0, unread p.1)) (to_string b n) ≡ Unread.read_string n (unread b)
unfolding to_string Unread.read_string
to_string_refines n b v =
    ground
      (arith, length-unread b v, unread-prefix n b, unread-step b n (size_t (b.read_index + n)))
