-- ===== src/Util/Bytes/Laws.antt =====
-- What is stored is loaded back, and every load is a number of its width.
use Prim.Native.Nat.{bit_or}
use streaming.Prelude.{ℕ, ◌+◌, ◌*◌, ◌/◌, ◌%◌, ◌^◌, ◌<◌, ◌≡◌, List, ◌∷◌, ◌++◌, arith}
use streaming.Prelude.Words.{IsByte, be32}
use streaming.Prelude.Bits.{bit_or-shifted}
use streaming.Util.Bytes.{load_le32, load_be24, load_be32, set_be24, set_be32, set_le32}

pub load_be24_lem :
    (a b c : ℕ) (rest : List ℕ)
    → IsByte b
    → IsByte c
    → load_be24 (a ∷ b ∷ c ∷ rest) ≡ (a * 256 + b) * 256 + c
unfolding load_be24
load_be24_lem a b c rest hb hc = omega (
  arith,
  bit_or-shifted 8 b c hc,
  bit_or-shifted 16 a (bit_or (b * 2 ^ 8) c) (omega (arith, bit_or-shifted 8 b c hc)),
)

or4 :
    (a b c d : ℕ)
    → IsByte b
    → IsByte c
    → IsByte d
    → bit_or (a * 2 ^ 24) (bit_or (b * 2 ^ 16) (bit_or (c * 2 ^ 8) d)) ≡ be32 a b c d
or4 a b c d hb hc hd =
    let low : bit_or (c * 2 ^ 8) d ≡ c * 256 + d = omega (arith, bit_or-shifted 8 c d hd) in
    let mid : bit_or (b * 2 ^ 16) (bit_or (c * 2 ^ 8) d) ≡ b * 65536 + c * 256 + d =
      omega (arith, low, bit_or-shifted 16 b (bit_or (c * 2 ^ 8) d) (omega (arith, low))) in
    omega (
      arith,
      mid,
      bit_or-shifted 24 a (bit_or (b * 2 ^ 16) (bit_or (c * 2 ^ 8) d)) (omega (arith, mid)),
    )

pub load_be32_lem :
    (a b c d : ℕ) (rest : List ℕ)
    → IsByte b
    → IsByte c
    → IsByte d
    → load_be32 (a ∷ b ∷ c ∷ d ∷ rest) ≡ be32 a b c d
unfolding load_be32
load_be32_lem a b c d rest hb hc hd = or4 a b c d hb hc hd

pub load_le32_lem :
    (a b c d : ℕ) (rest : List ℕ)
    → IsByte a
    → IsByte b
    → IsByte c
    → load_le32 (a ∷ b ∷ c ∷ d ∷ rest) ≡ be32 d c b a
unfolding load_le32
load_le32_lem a b c d rest ha hb hc = or4 d c b a hc hb ha

pub load_be24-set_be24 : (n : ℕ) (rest : List ℕ) → n < 2 ^ 24 → load_be24 (set_be24 n ++ rest) ≡ n
unfolding set_be24
load_be24-set_be24 n rest h =
    omega (arith, load_be24_lem (n / 2 ^ 16 % 256) (n / 2 ^ 8 % 256) (n % 256) rest)

pub load_be32-set_be32 : (n : ℕ) (rest : List ℕ) → n < 2 ^ 32 → load_be32 (set_be32 n ++ rest) ≡ n
unfolding set_be32
load_be32-set_be32 n rest h =
    omega
      (arith, load_be32_lem (n / 2 ^ 24 % 256) (n / 2 ^ 16 % 256) (n / 2 ^ 8 % 256) (n % 256) rest)

pub load_le32-set_le32 : (n : ℕ) (rest : List ℕ) → n < 2 ^ 32 → load_le32 (set_le32 n ++ rest) ≡ n
unfolding set_le32
load_le32-set_le32 n rest h =
    omega
      (arith, load_le32_lem (n % 256) (n / 2 ^ 8 % 256) (n / 2 ^ 16 % 256) (n / 2 ^ 24 % 256) rest)

-- The three stores are read back by their loads, whatever follows in memory, from every number
-- that fits the field's width.
pub load-set :
    (n m : ℕ) (rest : List ℕ)
    → n < 2 ^ 24
    → m < 2 ^ 32
    → (load_be24 (set_be24 n ++ rest) ≡ n)
      × (load_be32 (set_be32 m ++ rest) ≡ m)
      × (load_le32 (set_le32 m ++ rest) ≡ m)
load-set n m rest hn hm =
    (load_be24-set_be24 n rest hn, load_be32-set_be32 m rest hm, load_le32-set_le32 m rest hm)
