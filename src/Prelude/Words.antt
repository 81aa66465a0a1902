-- ===== src/Prelude/Words.antt =====
-- Big-endian words: the byte orders of src/util/util.cpp and of htonl/ntohl on a little-endian
-- host, which is what the program's struct layouts assume.
use Prim.Native.Nat.{ℕ, ◌+◌, ◌*◌, ◌/◌, ◌%◌, ◌<◌}
use mathlib.Core.Path.{◌≡◌}
use native.Mathlib.Omega.{arith}
use mathlib.Core.List.{List, [], ◌∷◌}

abbrev pub IsByte : ℕ → Type 0
IsByte b = b < 256

-- `ntohs`, `ntohl` of the bytes in memory, and `htons`, `htonl` back.
abbrev pub be16 : ℕ → ℕ → ℕ
be16 a b = a * 256 + b

abbrev pub be32 : ℕ → ℕ → ℕ → ℕ → ℕ
be32 a b c d = ((a * 256 + b) * 256 + c) * 256 + d

abbrev pub put16 : ℕ → List ℕ
put16 n = (n / 256 % 256) ∷ (n % 256) ∷ []

abbrev pub put32 : ℕ → List ℕ
put32 n = (n / 16777216 % 256) ∷ (n / 65536 % 256) ∷ (n / 256 % 256) ∷ (n % 256) ∷ []

pub put32-be32 :
    (a b c d : ℕ)
    → IsByte a
    → IsByte b
    → IsByte c
    → IsByte d
    → put32 (be32 a b c d) ≡ (a ∷ b ∷ c ∷ d ∷ [])
put32-be32 a b c d ha hb hc hd =
    let pa : be32 a b c d / 16777216 % 256 ≡ a = omega (arith, ha, hb, hc, hd) in
    let pb : be32 a b c d / 65536 % 256 ≡ b = omega (arith, ha, hb, hc, hd) in
    let pc : be32 a b c d / 256 % 256 ≡ c = omega (arith, ha, hb, hc, hd) in
    let pd : be32 a b c d % 256 ≡ d = omega (arith, ha, hb, hc, hd) in
    λ i. pa i ∷ pb i ∷ pc i ∷ pd i ∷ []
