-- ===== src/Rtmp/Amf/Integer.antt =====
-- `load<unsigned int>`, the variable-length integer of AMF3.
use Prim.Native.Nat.{bit_and, bit_or}
use streaming.Prelude.{
  ℕ, suc, ◌+◌, ◌*◌, ◌/◌, ◌%◌, ◌^◌, ◌<◌, ◌≡◌, arith, List, [], ◌∷◌, ◌++◌, true, false, ap, ◌∙◌, ◌==◌,
  ltb, if◌then◌else◌, lt→ltb, ge→ltb,
}
use native.Mathlib.Decide.{dec_lt}
use streaming.Prelude.Outcome.{Result, ok}
use streaming.Prelude.Bits.{bit_or-shifted, bit_and-0x7f, bit_and-0x80}
use streaming.Rtmp.Amf.{Decoder, load_unsigned, load_unsigned_from, pop_front}
use streaming.Network.Unread.Laws.{read_byte}

-- The AMF3 encoding of a number below 2 ^ 29: groups of seven bits, highest first, each but the
-- last with its top bit set; a fourth byte carries eight bits.
unfoldable pub encode_u29 : ℕ → List ℕ
encode_u29 n =
    if ltb n 128
    then n ∷ []
    else if ltb n 16384
    then (n / 128 + 128) ∷ (n % 128) ∷ []
    else if ltb n 2097152
    then (n / 16384 + 128) ∷ (n / 128 % 128 + 128) ∷ (n % 128) ∷ []
    else (n / 4194304 + 128) ∷ (n / 32768 % 128 + 128) ∷ (n / 256 % 128 + 128) ∷ (n % 256) ∷ []

pop3 :
    (x : ℕ) (u : List ℕ)
    → pop_front (record { version = 3; buf = x ∷ u }) ≡ ok (x, record { version = 3; buf = u })
unfolding pop_front
pop3 x u = rw (read_byte x u) (ground arith)

-- One round on a byte whose top bit is set, and on one whose top bit is clear.
module _ (g value left : ℕ) (u : List ℕ) (hg : g < 128) (hv : value < 2 ^ 22) where
  more_bits : bit_or (value * 2 ^ 7 % 2 ^ 32) (bit_and (g + 128) 0x7f) ≡ value * 128 + g
  more_bits = ground (arith, bit_and-0x7f (g + 128), bit_or-shifted 7 value g)

  last_bits : bit_or (value * 2 ^ 7 % 2 ^ 32) (bit_and g 0x7f) ≡ value * 128 + g
  last_bits = ground (arith, bit_and-0x7f g, bit_or-shifted 7 value g)

  marked : (bit_and (g + 128) 0x80 == 0) ≡ false
  marked = ground (arith, bit_and-0x80 (g + 128))

  unmarked : (bit_and g 0x80 == 0) ≡ true
  unmarked = ground (arith, bit_and-0x80 g)

  group :
      load_unsigned_from (suc left) value (record { version = 3; buf = (g + 128) ∷ u })
      ≡ load_unsigned_from left (value * 128 + g) (record { version = 3; buf = u })
  unfolding load_unsigned_from
  group = rw (pop3 (g + 128) u, marked, more_bits)

  last :
      load_unsigned_from (suc left) value (record { version = 3; buf = g ∷ u })
      ≡ ok (value * 128 + g, record { version = 3; buf = u })
  unfolding load_unsigned_from
  last = rw (pop3 g u, unmarked, last_bits)

whole :
    (g value : ℕ) (u : List ℕ)
    → g < 256
    → value < 2 ^ 22
    → load_unsigned_from 0 value (record { version = 3; buf = g ∷ u })
      ≡ ok (value * 256 + g, record { version = 3; buf = u })
unfolding load_unsigned_from
whole g value u hg hv = rw (pop3 g u) (ground (arith, bit_or-shifted 8 value g))

-- For an AMF3 decoder, every number below 2 ^ 29 is read back from its encoding, and what follows
-- is left.
pub load_unsigned-encode_u29 :
    (n : ℕ) (u : List ℕ)
    → n < 2 ^ 29
    → load_unsigned (record { version = 3; buf = encode_u29 n ++ u })
      ≡ ok (n, record { version = 3; buf = u })
unfolding load_unsigned encode_u29
load_unsigned-encode_u29 n u h = elim (dec_lt n 128) [
  | yes p ↦ rw (lt→ltb n 128 p) (last n 0 2 u p (omega arith) ∙ answer (omega arith))
  | no p ↦ rw (ge→ltb n 128 (omega arith)) (elim (dec_lt n 16384) [
    | yes q ↦ rw (lt→ltb n 16384 q) (
        group (n / 128) 0 2 (n % 128 ∷ u) (omega arith) (omega arith)
        ∙ last (n % 128) (0 * 128 + n / 128) 1 u (omega arith) (omega arith)
        ∙ answer (omega arith))
    | no q ↦ rw (ge→ltb n 16384 (omega arith)) (elim (dec_lt n 2097152) [
      | yes r ↦ rw (lt→ltb n 2097152 r) (
          group (n / 16384) 0 2 ((n / 128 % 128 + 128) ∷ n % 128 ∷ u) (omega arith) (omega arith)
          ∙ group (n / 128 % 128) (0 * 128 + n / 16384) 1 (n % 128 ∷ u) (omega arith) (omega arith)
          ∙ last (n % 128) ((0 * 128 + n / 16384) * 128 + n / 128 % 128) 0 u (omega arith)
              (omega arith)
          ∙ answer (omega arith))
      | no r ↦ rw (ge→ltb n 2097152 (omega arith)) (
          group (n / 4194304) 0 2 ((n / 32768 % 128 + 128) ∷ (n / 256 % 128 + 128) ∷ n % 256 ∷ u)
            (omega arith) (omega arith)
          ∙ group (n / 32768 % 128) (0 * 128 + n / 4194304) 1 ((n / 256 % 128 + 128) ∷ n % 256 ∷ u)
              (omega arith) (omega arith)
          ∙ group (n / 256 % 128) ((0 * 128 + n / 4194304) * 128 + n / 32768 % 128) 0 (n % 256 ∷ u)
              (omega arith) (omega arith)
          ∙ whole (n % 256)
              (((0 * 128 + n / 4194304) * 128 + n / 32768 % 128) * 128 + n / 256 % 128) u
              (omega arith) (omega arith)
          ∙ answer (omega arith))
    ])
  ])
]
  where
    answer :
        {m : ℕ}
        → m ≡ n
        → ◌≡◌ {A = Result (ℕ × Decoder)}
            (ok (m, record { version = 3; buf = u }))
            (ok (n, record { version = 3; buf = u }))
    answer e = ap (λ (k : ℕ). ok (k, record { version = 3; buf = u })) e
