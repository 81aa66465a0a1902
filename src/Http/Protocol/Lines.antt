-- ===== src/Http/Protocol/Lines.antt =====
-- A client that reads a head of lines: the fields up to the empty line, and what stands behind them.
use streaming.Prelude.{
  ℕ, zero, suc, ◌+◌, ◌<◌, ◌≡◌, refl, sym, ap, ◌∙◌, arith, Bool, true, false, not, ◌&&◌, Option,
  none, some, List, [], ◌∷◌, ◌++◌, append_assoc, length, length-append, All, take, drop,
  take-append, drop-append, ◌==◌, if◌then◌else◌,
}
use streaming.Prelude.Texts.{both}
use streaming.Media.Info.{starts_with, index_of}
use streaming.Media.Info.RoundTrip.{Without}
use streaming.Http.Header.Request.{==-flip, index_of-append}
use streaming.Http.Protocol.Texts.{line_break, separator}
use streaming.Http.Protocol.Response.{Fields, field_lines}

-- A line and what stands behind its end.
abbrev put_first : ℕ → Option (List ℕ × List ℕ) → Option (List ℕ × List ℕ)
put_first c none = none
put_first c (some (line, rest)) = some (c ∷ line, rest)

unfoldable pub read_line : List ℕ → Option (List ℕ × List ℕ)
unfolding starts_with
read_line [] = none
read_line (c ∷ cs) =
    let later = put_first c (read_line cs) in
    if starts_with line_break (c ∷ cs) then some ([], drop 1 cs) else later

pub read_line-line_break :
    (line rest : List ℕ)
    → Without 13 line
    → read_line (line ++ (line_break ++ rest)) ≡ some (line, rest)
unfolding read_line starts_with
read_line-line_break [] rest plain = refl
read_line-line_break (c ∷ cs) rest plain =
    rw (==-flip c 13 plain.0, read_line-line_break cs rest plain.1) refl

-- A field's key and value.
abbrev split_at : List ℕ → Option ℕ → Option (List ℕ × List ℕ)
split_at line none = none
split_at line (some pos) = some (take pos line, drop (pos + 2) line)

unfoldable pub read_field : List ℕ → Option (List ℕ × List ℕ)
unfolding index_of
read_field line = split_at line (index_of separator line)

read_field-separator :
    (key value : List ℕ)
    → Without 58 key
    → read_field (key ++ (separator ++ value)) ≡ some (key, value)
unfolding read_field
read_field-separator key value plain =
    let at = index_of-append 58 (32 ∷ []) key value plain in
    let behind : drop (length key + 2) (key ++ (separator ++ value)) ≡ value =
      ap (drop (length key + 2)) (sym (append_assoc key separator value))
      ∙ drop-append (length key + 2) (key ++ separator) value long in
    rw (at, take-append (length key) key (separator ++ value) refl, behind) refl
  where
    long : length key + 2 ≡ length (key ++ separator)
    long = omega (arith, length-append key separator)

-- The same as a test.
unfoldable pub without : ℕ → List ℕ → Bool
without c [] = true
without c (x ∷ s) = not (x == c) && without c s

pub not-true : (b : Bool) → not b ≡ true → b ≡ false
not-true true h = absurd (cc)
not-true false h = refl

pub without-Without : (c : ℕ) (s : List ℕ) → without c s ≡ true → Without c s
unfolding without
without-Without c [] h = tt
without-Without c (x ∷ s) h =
    let (here, later) = both (not (x == c)) (without c s) h in
    (not-true (x == c) here, without-Without c s later)

-- The fields up to the empty line, and what stands behind it, with fuel above the number of fields.
abbrev pub Read : Type 0
Read = Option (Fields × List ℕ)

abbrev put_field : Option (List ℕ × List ℕ) → Read → Read
put_field none more = none
put_field (some field) none = none
put_field (some field) (some (fields, rest)) = some (field ∷ fields, rest)

abbrev next_field : (List ℕ → Read) → Option (List ℕ × List ℕ) → Read
next_field more none = none
next_field more (some ([], rest)) = some ([], rest)
next_field more (some (c ∷ cs, rest)) = put_field (read_field (c ∷ cs)) (more rest)

unfoldable pub read_fields : ℕ → List ℕ → Read
unfolding read_line read_field
read_fields zero bytes = none
read_fields (suc fuel) bytes = next_field (read_fields fuel) (read_line bytes)

-- A key has no `:` and is not empty, and no line has a carriage return in it.
pub record IsField (field : List ℕ × List ℕ) : Type 0 where
  pub some_key : (length field.0 == 0) ≡ false
  pub key_line : Without 13 field.0
  pub no_colon : Without 58 field.0
  pub value_line : Without 13 field.1

Without-append : (c : ℕ) (s t : List ℕ) → Without c s → Without c t → Without c (s ++ t)
Without-append c [] t left right = right
Without-append c (x ∷ s) t left right = (left.0, Without-append c s t left.1 right)

nonempty-next :
    (more : List ℕ → Read) (key value rest : List ℕ)
    → (length key == 0) ≡ false
    → next_field more (some (key ++ (separator ++ value), rest))
      ≡ put_field (read_field (key ++ (separator ++ value))) (more rest)
nonempty-next more [] value rest some_key = absurd (cc)
nonempty-next more (c ∷ cs) value rest some_key = refl

regroup :
    (key value rest : List ℕ)
    → key ++ (separator ++ (value ++ (line_break ++ rest)))
      ≡ (key ++ (separator ++ value)) ++ (line_break ++ rest)
regroup key value rest = sym (append_assoc key (separator ++ value) (line_break ++ rest))

-- The bytes behind the last field begin with the empty line.
pub read_fields-field_lines :
    (fields : Fields) (body : List ℕ) (fuel : ℕ)
    → All IsField fields
    → length fields < fuel
    → read_fields fuel (field_lines fields ++ (line_break ++ body)) ≡ some (fields, body)
unfolding read_fields field_lines
read_fields-field_lines fields body zero ok room = absurd (omega arith)
read_fields-field_lines [] body (suc fuel) ok room =
    ap (next_field (read_fields fuel)) (read_line-line_break [] body tt)
read_fields-field_lines ((key, value) ∷ fields) body (suc fuel) ok room =
    let rest = field_lines fields ++ (line_break ++ body) in
    let bytes : field_lines ((key, value) ∷ fields) ++ (line_break ++ body)
        ≡ (key ++ (separator ++ value)) ++ (line_break ++ rest) =
      ap (λ b. b ++ (line_break ++ body)) (regroup key value (field_lines fields))
      ∙ append_assoc (key ++ (separator ++ value)) (line_break ++ field_lines fields)
          (line_break ++ body) in
    let line : Without 13 (key ++ (separator ++ value)) =
      Without-append 13 key (separator ++ value) ok.0.key_line (refl, (refl, ok.0.value_line)) in
    ap (λ b. next_field (read_fields fuel) (read_line b)) bytes
    ∙ ap (next_field (read_fields fuel))
        (read_line-line_break (key ++ (separator ++ value)) rest line)
    ∙ nonempty-next (read_fields fuel) key value rest ok.0.some_key
    ∙ (rw
        (
          read_field-separator key value ok.0.no_colon,
          read_fields-field_lines fields body fuel ok.1 (omega arith),
        )
        refl)

-- `IsField` as a test of all fields.
unfoldable pub are_fields : Fields → Bool
unfolding without
are_fields [] = true
are_fields ((key, value) ∷ fields) =
    not (length key == 0)
    && (without 13 key && (without 58 key && (without 13 value && are_fields fields)))

pub are_fields-IsField : (fields : Fields) → are_fields fields ≡ true → All IsField fields
unfolding are_fields
are_fields-IsField [] h = tt
are_fields-IsField ((key, value) ∷ fields) h =
    let (some_key, h1) = both (not (length key == 0)) _ h in
    let (key_line, h2) = both (without 13 key) _ h1 in
    let (no_colon, h3) = both (without 58 key) _ h2 in
    let (value_line, h4) = both (without 13 value) (are_fields fields) h3 in
    (
      record {
        some_key = not-true (length key == 0) some_key;
        key_line = without-Without 13 key key_line;
        no_colon = without-Without 58 key no_colon;
        value_line = without-Without 13 value value_line;
      },
      are_fields-IsField fields h4,
    )
