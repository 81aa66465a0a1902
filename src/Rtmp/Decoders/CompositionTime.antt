-- ===== src/Rtmp/Decoders/CompositionTime.antt =====
-- The composition time of a video message is the two's complement reading of its three bytes.
use Prim.Native.Nat.{bit_or, bit_xor}
use streaming.Prelude.{
  ℕ, ◌+◌, ◌-◌, ◌*◌, ◌%◌, ◌^◌, ◌<◌, ◌≤◌, ◌≡◌, refl, ◌∙◌, ◌⊎◌, inl, inr, arith, ltb, if◌then◌else◌,
  ge→ltb, lt→ltb,
}
use streaming.Prelude.Words.{IsByte}
use streaming.Prelude.Bits.{bit_or-add, bit_xor-shifted}
use streaming.Rtmp.Decoders.{composition_time}

-- Three bytes as a number.
abbrev pub be24 : ℕ → ℕ → ℕ → ℕ
be24 a b c = (a * 256 + b) * 256 + c

joined : (a b c : ℕ) → IsByte b → IsByte c → bit_or (bit_or (a * 2 ^ 16) (b * 2 ^ 8)) c ≡ be24 a b c
joined a b c hb hc =
    rw (bit_or-add 16 a (a * 2 ^ 16) (b * 2 ^ 8) refl (omega (arith, hb)))
      (bit_or-add 8 (a * 256 + b) _ c (omega arith) (omega (arith, hc)) ∙ omega arith)

extended_low : (n : ℕ) → n < 2 ^ 23 → bit_xor ((n + 0xff800000) % 2 ^ 32) 0xff800000 ≡ n
extended_low n low =
    let e : (n + 0xff800000) % 2 ^ 32 ≡ 511 * 2 ^ 23 + n = omega arith in
    rw e (bit_xor-shifted 23 511 511 n low ∙ omega arith)

extended_high :
    (n : ℕ)
    → 2 ^ 23 ≤ n
    → n < 2 ^ 24
    → bit_xor ((n + 0xff800000) % 2 ^ 32) 0xff800000 ≡ n + 2 ^ 32 - 2 ^ 24
extended_high n high small =
    let e : (n + 0xff800000) % 2 ^ 32 ≡ 0 * 2 ^ 23 + (n - 2 ^ 23) = omega arith in
    rw e (bit_xor-shifted 23 0 511 (n - 2 ^ 23) (omega arith) ∙ omega arith)

extended :
    (n : ℕ)
    → n < 2 ^ 24
    → bit_xor ((n + 0xff800000) % 2 ^ 32) 0xff800000
      ≡ (if ltb n (2 ^ 23) then n else n + 2 ^ 32 - 2 ^ 24)
extended n small = elim decide_lt [
  | inl low ↦ rw (lt→ltb n (2 ^ 23) low) (extended_low n low)
  | inr high ↦ rw (ge→ltb n (2 ^ 23) high) (extended_high n high small)
]
  where
    decide_lt : (n < 2 ^ 23) ⊎ (2 ^ 23 ≤ n)
    decide_lt = omega arith

-- The 32 bits that the decoder adds to a time stamp are, for any three bytes, the number itself
-- below 2^23, and from there on the number less 2^24, modulo 2^32.
pub composition_time-sign :
    (a b c : ℕ)
    → IsByte a
    → IsByte b
    → IsByte c
    → composition_time a b c
      ≡ (if ltb (be24 a b c) (2 ^ 23) then be24 a b c else be24 a b c + 2 ^ 32 - 2 ^ 24)
unfolding composition_time
composition_time-sign a b c ha hb hc =
    rw (joined a b c hb hc) (extended (be24 a b c) (omega (arith, ha, hb, hc)))
