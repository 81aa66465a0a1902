-- ===== src/Network/FlatBuffer/Dump.antt =====
-- `flat_buffer::dump`: the unread bytes as text, and a reader of such texts.
use streaming.Prelude.{
  ℕ, suc, ◌+◌, ◌-◌, ◌*◌, ◌/◌, ◌%◌, ◌<◌, ◌≡◌, refl, ap, ◌∙◌, arith, Bool, true, false, ◌||◌, Option,
  none, some, List, [], ◌∷◌, ◌++◌, All, Bool-cases, inl, inr, ltb, lt→ltb, ◌==◌, if◌then◌else◌,
  length, ◌^◌,
}
use streaming.Prelude.Outcome.{Result, ok, err, ◌>>=◌, undefined}
use streaming.Prelude.Words.{IsByte}
use streaming.Network.FlatBuffer.{FlatBuffer, unread}

abbrev int_max : ℕ
int_max = 2 ^ 31 - 1

-- A hexadecimal digit, in upper case.
unfoldable pub hex_digit : ℕ → ℕ
hex_digit d = if ltb d 10 then 48 + d else 55 + d

-- A byte on the stream `ss`, which prints no digit in front of a number that has one only.
unfoldable pub hex_number : ℕ → List ℕ
unfolding hex_digit
hex_number c = if ltb c 16 then hex_digit c ∷ [] else hex_digit (c / 16) ∷ hex_digit (c % 16) ∷ []

-- The loop from index `i` on, an `int`, which must not be counted beyond the largest: a zero in front of one digit, a blank behind a byte and a line break
-- behind every eighth.
unfoldable pub dump_from : ℕ → List ℕ → Result (List ℕ)
unfolding hex_number
dump_from i [] = ok []
dump_from i (c ∷ cs) =
    let zero_digit = if ltb c 16 then 48 ∷ [] else [] in
    let line_end = if (i + 1) % 8 == 0 then 10 ∷ [] else [] in
    let more =
      dump_from (suc i) cs
      >>= (λ text. ok (zero_digit ++ (hex_number c ++ (32 ∷ (line_end ++ text))))) in
    if ltb i int_max then more else err undefined

-- A null pointer has no unread bytes.
unfoldable pub dump : FlatBuffer → Result (List ℕ)
unfolding dump_from unread
dump b = dump_from 0 (unread b)

-- Reading digits two by two, between blanks and line breaks. The first argument is a digit that
-- waits for its second one.
unfoldable pub digit_value : ℕ → ℕ
digit_value c = if ltb c 58 then c - 48 else c - 55

unfoldable pub read_hex : Option ℕ → List ℕ → List ℕ
unfolding digit_value
read_hex first [] = []
read_hex first (c ∷ cs) =
    let blank = read_hex first cs in
    let second = read_hex none cs in
    let waiting = read_hex (some (digit_value c)) cs in
    if c == 32 || c == 10 then blank else with_digit first second waiting
  where
    with_digit : Option ℕ → List ℕ → List ℕ → List ℕ
    with_digit none second waiting = waiting
    with_digit (some d) second waiting = (d * 16 + digit_value c) ∷ second

digit_value-hex_digit : (d : ℕ) → d < 16 → digit_value (hex_digit d) ≡ d
unfolding digit_value hex_digit
digit_value-hex_digit d h = ground arith

hex_digit_black : (d : ℕ) → d < 16 → (hex_digit d == 32 || hex_digit d == 10) ≡ false
unfolding hex_digit
hex_digit_black d h = ground arith

-- The two digits of a byte.
abbrev two_digits : ℕ → List ℕ
two_digits c = hex_digit (c / 16) ∷ hex_digit (c % 16) ∷ []

read_hex-two_digits :
    (c : ℕ) (rest : List ℕ)
    → IsByte c
    → read_hex none (two_digits c ++ rest) ≡ c ∷ read_hex none rest
unfolding read_hex
read_hex-two_digits c rest byte =
    let high : c / 16 < 16 = omega arith in
    let low : c % 16 < 16 = omega arith in
    rw
      (
        hex_digit_black (c / 16) high,
        hex_digit_black (c % 16) low,
        digit_value-hex_digit (c / 16) high,
        digit_value-hex_digit (c % 16) low,
      )
      (ap (λ (x : ℕ). x ∷ read_hex none rest) (omega arith))

number_digits :
    (c : ℕ) (rest : List ℕ)
    → IsByte c
    → (if ltb c 16 then 48 ∷ [] else []) ++ (hex_number c ++ rest) ≡ two_digits c ++ rest
unfolding hex_number hex_digit
number_digits c rest byte = elim (Bool-cases (ltb c 16)) [
  | inl small ↦
      let below : c < 16 = ground (arith, small) in
      let high : c / 16 ≡ 0 = omega arith in
      let low : c % 16 ≡ c = omega arith in rw (small, high, low) refl
  | inr large ↦ rw large refl
]

read_hex_end : read_hex none [] ≡ []
unfolding read_hex
read_hex_end = refl

read_hex_blank : (l : List ℕ) → read_hex none (32 ∷ l) ≡ read_hex none l
unfolding read_hex
read_hex_blank l = refl

read_hex_line_end :
    (b : Bool) (rest : List ℕ)
    → read_hex none ((if b then 10 ∷ [] else []) ++ rest) ≡ read_hex none rest
unfolding read_hex
read_hex_line_end true rest = refl
read_hex_line_end false rest = refl

read_hex-dump_from :
    (i : ℕ) (bytes : List ℕ)
    → All IsByte bytes
    → i + length bytes < 2 ^ 31
    → (text : List ℕ) × (dump_from i bytes ≡ ok text) × (read_hex none text ≡ bytes)
unfolding dump_from
read_hex-dump_from i [] small short = ([], refl, read_hex_end)
read_hex-dump_from i (c ∷ cs) (byte, small) short =
    let (text, printed, back) = read_hex-dump_from (suc i) cs small (omega arith) in
    let b = (i + 1) % 8 == 0 in
    let more = (if b then 10 ∷ [] else []) ++ text in
    let below : ltb i int_max ≡ true = lt→ltb i int_max (omega arith) in
    (
      (if ltb c 16 then 48 ∷ [] else []) ++ (hex_number c ++ (32 ∷ more)),
      rw (below, printed) refl,
      ap (read_hex none) (number_digits c (32 ∷ more) byte)
          ∙ read_hex-two_digits c (32 ∷ more) byte
          ∙ ap (λ l. c ∷ l) (read_hex_blank more)
          ∙ ap (λ l. c ∷ l) (read_hex_line_end b text)
          ∙ ap (λ l. c ∷ l) back,
    )

-- On a buffer of fewer than 2^31 unread bytes, `dump` prints a text, and that names the bytes:
-- reading its digits two by two gives exactly them back, if the buffer holds bytes.
pub read_hex-dump :
    (b : FlatBuffer)
    → All IsByte (unread b)
    → length (unread b) < 2 ^ 31
    → (text : List ℕ) × (dump b ≡ ok text) × (read_hex none text ≡ unread b)
unfolding dump
read_hex-dump b small short = read_hex-dump_from 0 (unread b) small (omega arith)
