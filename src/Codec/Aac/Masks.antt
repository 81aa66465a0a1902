-- ===== src/Codec/Aac/Masks.antt =====
-- The shifted and masked fields of the ADTS header, as plain arithmetic.
use streaming.Prelude.{ℕ, ◌*◌, ◌%◌, ◌<◌, ◌≡◌, refl}
use Prim.Native.Nat.{bit_and}
use streaming.Prelude.Bits.{all_below, table}
use streaming.Codec.Aac.{shl}

-- A field of `w` bits that is moved up into its place.
pub mask_low1 : (x : ℕ) → x < 2 → bit_and x 0b0001 ≡ x
unfolding all_below
mask_low1 = table (λ x. bit_and x 0b0001) (λ x. x) 2 refl

pub mask_low2 : (x : ℕ) → x < 4 → bit_and x 0b00000011 ≡ x
unfolding all_below
mask_low2 = table (λ x. bit_and x 0b00000011) (λ x. x) 4 refl

pub mask_low5 : (x : ℕ) → x < 32 → bit_and x 0b00011111 ≡ x
unfolding all_below
mask_low5 = table (λ x. bit_and x 0b00011111) (λ x. x) 32 refl

pub mask_carry : (x : ℕ) → x < 4 → bit_and x 0b0001 ≡ x % 2
unfolding all_below
mask_carry = table (λ x. bit_and x 0b0001) (λ x. x % 2) 4 refl

pub mask_low8 : (x : ℕ) → x < 1024 → bit_and x 0xFF ≡ x % 256
unfolding all_below
mask_low8 = table (λ x. bit_and x 0xFF) (λ x. x % 256) 1024 refl

pub mask_1_2 : (x : ℕ) → x < 2 → bit_and (shl x 1) 0b0010 ≡ x * 2
unfolding all_below
mask_1_2 = table (λ x. bit_and (shl x 1) 0b0010) (λ x. x * 2) 2 refl

pub mask_2_1 : (x : ℕ) → x < 4 → bit_and (shl x 1) 0b0110 ≡ x * 2
unfolding all_below
mask_2_1 = table (λ x. bit_and (shl x 1) 0b0110) (λ x. x * 2) 4 refl

pub mask_1_3 : (x : ℕ) → x < 2 → bit_and (shl x 3) 0b1000 ≡ x * 8
unfolding all_below
mask_1_3 = table (λ x. bit_and (shl x 3) 0b1000) (λ x. x * 8) 2 refl

pub mask_1_bit2 : (x : ℕ) → x < 2 → bit_and (shl x 2) 0b00000100 ≡ x * 4
unfolding all_below
mask_1_bit2 = table (λ x. bit_and (shl x 2) 0b00000100) (λ x. x * 4) 2 refl

pub mask_1_4 : (x : ℕ) → x < 2 → bit_and (shl x 4) 0b00010000 ≡ x * 16
unfolding all_below
mask_1_4 = table (λ x. bit_and (shl x 4) 0b00010000) (λ x. x * 16) 2 refl

pub mask_1_5 : (x : ℕ) → x < 2 → bit_and (shl x 5) 0b00100000 ≡ x * 32
unfolding all_below
mask_1_5 = table (λ x. bit_and (shl x 5) 0b00100000) (λ x. x * 32) 2 refl

pub mask_4_2 : (x : ℕ) → x < 16 → bit_and (shl x 2) 0b00111100 ≡ x * 4
unfolding all_below
mask_4_2 = table (λ x. bit_and (shl x 2) 0b00111100) (λ x. x * 4) 16 refl

pub mask_top2 : (x : ℕ) → x < 16 → bit_and (shl x 6) 0b11000000 ≡ x % 4 * 64
unfolding all_below
mask_top2 = table (λ x. bit_and (shl x 6) 0b11000000) (λ x. x % 4 * 64) 16 refl

pub mask_top3 : (x : ℕ) → x < 8192 → bit_and (shl x 5) 0b11100000 ≡ x % 8 * 32
unfolding all_below
mask_top3 = table (λ x. bit_and (shl x 5) 0b11100000) (λ x. x % 8 * 32) 8192 refl

pub mask_top4 : (x : ℕ) → x < 4096 → bit_and (shl x 4) 0xF0 ≡ x % 16 * 16
unfolding all_below
mask_top4 = table (λ x. bit_and (shl x 4) 0xF0) (λ x. x % 16 * 16) 4096 refl

pub mask_top6 : (x : ℕ) → x < 2048 → bit_and (shl x 2) 0b11111100 ≡ x % 64 * 4
unfolding all_below
mask_top6 = table (λ x. bit_and (shl x 2) 0b11111100) (λ x. x % 64 * 4) 2048 refl
