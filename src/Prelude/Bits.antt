-- ===== src/Prelude/Bits.antt =====
-- `|` of disjoint bit fields and `&` with a mask, as plain arithmetic.
use Prim.Native.Nat.{
  ℕ, zero, suc, ◌+◌, ◌*◌, ◌/◌, ◌%◌, ◌^◌, ◌≤◌, ◌<◌, max, digits, bit_or, bit_or-bitwise, bit_and,
  bit_xor, bit_xor-bitwise, differ,
}
use mathlib.Core.Path.{◌≡◌, refl, ap, ◌∙◌}
use mathlib.Core.Bool.{Bool, true, ◌&&◌}
use native.Mathlib.Nat.{pow-suc}
use native.Mathlib.Omega.{arith}
use streaming.Prelude.Tests.{◌==◌, ==_iff}

-- `|` and `^` digit by digit; the count of digits does not matter once it covers the first number.
abbrev digits_of : (ℕ → ℕ → ℕ) → ℕ → ℕ → ℕ → ℕ
digits_of op = digits (λ b. b) op

digits_enough :
    (op : ℕ → ℕ → ℕ) (n m a b : ℕ) → a ≤ n → a ≤ m → digits_of op n a b ≡ digits_of op m a b
digits_enough op zero zero a b p q = refl
digits_enough op zero (suc m) zero b p q = refl
digits_enough op (suc n) zero zero b p q = refl
digits_enough op (suc n) (suc m) zero b p q = refl
digits_enough op zero (suc m) (suc a) b p q = absurd (omega arith)
digits_enough op (suc n) zero (suc a) b p q = absurd (omega arith)
digits_enough op (suc n) (suc m) (suc a) b p q =
    let half = suc a / 2 in
    omega (arith, digits_enough op n m half (b / 2) (omega arith) (omega arith))

zero-bit_or : (b : ℕ) → bit_or 0 b ≡ b
zero-bit_or b = bit_or-bitwise 0 b

-- The lowest binary digit of `a | b`.
bit_or-halves : (a b : ℕ) → bit_or a b ≡ bit_or (a / 2) (b / 2) * 2 + max (a % 2) (b % 2)
bit_or-halves zero b = omega (arith, zero-bit_or b, zero-bit_or (b / 2))
bit_or-halves (suc a) b =
    let half = suc a / 2 in
    omega (
      arith,
      bit_or-bitwise (suc a) b,
      bit_or-bitwise half (b / 2),
      digits_enough max a half half (b / 2) (omega arith) (omega arith),
    )

bit_or-zero_upto : (n a : ℕ) → a ≤ n → bit_or a 0 ≡ a
bit_or-zero_upto n zero h = refl
bit_or-zero_upto zero (suc a) h = absurd (omega arith)
bit_or-zero_upto (suc n) (suc a) h =
    omega (arith, bit_or-halves (suc a) 0, bit_or-zero_upto n (suc a / 2) (omega arith))

-- `(q << k) | r` is a sum where `r` fits in `k` bits.
pub bit_or-shifted : (k q r : ℕ) → r < 2 ^ k → bit_or (q * 2 ^ k) r ≡ q * 2 ^ k + r
bit_or-shifted zero q r h =
    let e : r ≡ 0 = omega arith in
    rw e (omega (arith, bit_or-zero_upto (q * 2 ^ 0) (q * 2 ^ 0) (omega arith)))
bit_or-shifted (suc k) q r h =
    let double = ap (λ (t : ℕ). q * t) (pow-suc 2 k) in
    let halved : q * 2 ^ suc k / 2 ≡ q * 2 ^ k = omega (arith, double) in
    omega (
      arith,
      double,
      pow-suc 2 k,
      bit_or-halves (q * 2 ^ suc k) r,
      ap (λ (t : ℕ). bit_or t (r / 2)) halved,
      bit_or-shifted k q (r / 2) (omega (arith, pow-suc 2 k)),
    )

zero-bit_xor : (b : ℕ) → bit_xor 0 b ≡ b
zero-bit_xor b = bit_xor-bitwise 0 b

bit_xor-halves : (a b : ℕ) → bit_xor a b ≡ bit_xor (a / 2) (b / 2) * 2 + differ (a % 2) (b % 2)
bit_xor-halves zero b = omega (arith, zero-bit_xor b, zero-bit_xor (b / 2))
bit_xor-halves (suc a) b =
    let half = suc a / 2 in
    omega (
      arith,
      bit_xor-bitwise (suc a) b,
      bit_xor-bitwise half (b / 2),
      digits_enough differ a half half (b / 2) (omega arith) (omega arith),
    )

differ-zero : (n : ℕ) → differ n 0 ≡ n
differ-zero zero = refl
differ-zero (suc n) = refl

-- `^` with a number that has no digits below the `k`-th leaves those of the other.
pub bit_xor-shifted :
    (k q p r : ℕ) → r < 2 ^ k → bit_xor (q * 2 ^ k + r) (p * 2 ^ k) ≡ bit_xor q p * 2 ^ k + r
bit_xor-shifted zero q p r h =
    let e : r ≡ 0 = omega arith in
    let a : q * 2 ^ 0 + r ≡ q = omega arith in
    let b : p * 2 ^ 0 ≡ p = omega arith in rw (a, b) (omega arith)
bit_xor-shifted (suc k) q p r h =
    let two = pow-suc 2 k in
    let double = ap (λ (t : ℕ). q * t) two in
    let double' = ap (λ (t : ℕ). p * t) two in
    let half : (q * 2 ^ suc k + r) / 2 ≡ q * 2 ^ k + r / 2 = omega (arith, double) in
    let half' : p * 2 ^ suc k / 2 ≡ p * 2 ^ k = omega (arith, double') in
    let lowest : differ ((q * 2 ^ suc k + r) % 2) (p * 2 ^ suc k % 2) ≡ r % 2 =
      let x : (q * 2 ^ suc k + r) % 2 ≡ r % 2 = omega (arith, double) in
      let y : p * 2 ^ suc k % 2 ≡ 0 = omega (arith, double') in rw (x, y) (differ-zero (r % 2)) in
    bit_xor-halves (q * 2 ^ suc k + r) (p * 2 ^ suc k)
    ∙ rw (half, half', lowest)
        (rw (bit_xor-shifted k q p (r / 2) (omega (arith, two)))
          (omega (arith, ap (λ (t : ℕ). bit_xor q p * t) two)))

-- A test of all numbers below a bound, to be run.
unfoldable pub all_below : ℕ → (ℕ → Bool) → Bool
all_below zero test = true
all_below (suc k) test = all_below k test && test k

all_below-passes : (test : ℕ → Bool) (k x : ℕ) → x < k → all_below k test ≡ true → test x ≡ true
unfolding all_below
all_below-passes test zero x small passed = absurd (omega arith)
all_below-passes test (suc k) x small passed = ground (arith, all_below-passes test k x)

-- Two functions that agree on each number below a bound.
pub table :
    (f g : ℕ → ℕ) (k : ℕ) → all_below k (λ x. f x == g x) ≡ true → (b : ℕ) → b < k → f b ≡ g b
table f g k passed b small =
    (==_iff (f b) (g b)).0 (all_below-passes (λ x. f x == g x) k b small passed)

-- `n | r` is a sum where `n` is a multiple of a power of two and `r` is below it.
pub bit_or-add : (k q n r : ℕ) → n ≡ q * 2 ^ k → r < 2 ^ k → bit_or n r ≡ n + r
bit_or-add k q n r e h = rw e (bit_or-shifted k q r h)

-- Two functions of a byte that agree on each of the 256.
pub byte_table :
    (f g : ℕ → ℕ) → all_below 256 (λ x. f x == g x) ≡ true → (b : ℕ) → b < 256 → f b ≡ g b
byte_table f g passed b small =
    (==_iff (f b) (g b)).0 (all_below-passes (λ x. f x == g x) 256 b small passed)

pub bit_and-0x7f : (b : ℕ) → b < 256 → bit_and b 0x7f ≡ b % 128
unfolding all_below
bit_and-0x7f = byte_table (λ b. bit_and b 0x7f) (λ b. b % 128) refl

pub bit_and-0x3f : (b : ℕ) → b < 256 → bit_and b 0x3f ≡ b % 64
unfolding all_below
bit_and-0x3f = byte_table (λ b. bit_and b 0x3f) (λ b. b % 64) refl

pub bit_and-0x0f : (b : ℕ) → b < 256 → bit_and b 0x0f ≡ b % 16
unfolding all_below
bit_and-0x0f = byte_table (λ b. bit_and b 0x0f) (λ b. b % 16) refl

pub bit_and-0x80 : (b : ℕ) → b < 256 → bit_and b 0x80 ≡ b / 128 * 128
unfolding all_below
bit_and-0x80 = byte_table (λ b. bit_and b 0x80) (λ b. b / 128 * 128) refl
