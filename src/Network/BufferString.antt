-- ===== src/Network/BufferString.antt =====
-- `buffer_string` of include/network/buffer.h, a view of a part of a string that it owns, and the
-- virtual functions of the base class `buffer`.
use streaming.Prelude.{
  ℕ, zero, suc, ◌+◌, ◌-◌, ◌^◌, ◌≤◌, ◌<◌, ◌≡◌, refl, ap, ◌∙◌, arith, false, Option, none, some, List,
  [], ◌∷◌, ◌++◌, length, take, drop, ltb, ge→ltb, ◌==◌, if◌then◌else◌, Bool-cases, inl, inr, ==_iff,
  take-all, length-append, length-drop,
}
use streaming.Prelude.Outcome.{Result, ok, err, ◌>>=◌, undefined}
use streaming.Network.FlatBuffer.{size_t}
use streaming.Network.FlatBuffer.Memory.{slice}
use streaming.Network.RawBuffer.{RawBuffer, assign}

pub record BufferString : Type 0 where
  pub text : List ℕ
  pub offset : ℕ
  pub len : ℕ

-- The assertion adds as a `size_t`. A call that fails it has no defined end.
unfoldable pub setup : ℕ → ℕ → BufferString → Result BufferString
setup offset len b =
    let str_size = length b.text in
    let rest = size_t (2 ^ 64 + str_size - offset) in
    if ltb str_size (size_t (offset + len))
    then err undefined
    else ok (record b { offset = offset; len = if len == 0 then rest else len })

unfoldable pub buffer_string : List ℕ → ℕ → ℕ → Result BufferString
unfolding setup
buffer_string text offset len = setup offset len (record { text = text; offset = 0; len = 0 })

-- What `data()` points to: the text from the offset on, and the NUL that `c_str()` puts behind it.
unfoldable pub data_from : BufferString → List ℕ
data_from b = drop b.offset (b.text ++ (0 ∷ []))

unfoldable pub size : BufferString → ℕ
size b = b.len

-- `std::string(text(), size())`: a size beyond the bytes there is undefined, as is a null pointer
-- with a size.
unfoldable pub string_of : List ℕ → ℕ → Result (List ℕ)
string_of mem n = if ltb (length mem) n then err undefined else ok (take n mem)

-- `buffer::to_string`, for both kinds of buffers.
unfoldable pub to_string : BufferString → Result (List ℕ)
unfolding string_of data_from size
to_string b = string_of (data_from b) (size b)

-- The constructor of `buffer_raw` from bytes.
unfoldable pub raw_of : List ℕ → Result RawBuffer
unfolding assign
raw_of bytes = assign bytes (record { size = 0; capacity = 0; array = none; lost = 0 })

unfoldable pub raw_to_string : RawBuffer → Result (List ℕ)
unfolding string_of
raw_to_string b = by_array b.array
  where
    by_array : Option (List ℕ) → Result (List ℕ)
    by_array none = string_of [] b.size
    by_array (some mem) = string_of mem b.size

take-append_front : (n : ℕ) (xs ys : List ℕ) → n ≤ length xs → take n (xs ++ ys) ≡ take n xs
take-append_front zero xs ys h = refl
take-append_front (suc n) [] ys h = absurd (omega arith)
take-append_front (suc n) (x ∷ xs) ys h = ap (λ l. x ∷ l) (take-append_front n xs ys (omega arith))

drop-append_front : (n : ℕ) (xs ys : List ℕ) → n ≤ length xs → drop n (xs ++ ys) ≡ drop n xs ++ ys
drop-append_front zero xs ys h = refl
drop-append_front (suc n) [] ys h = absurd (omega arith)
drop-append_front (suc n) (x ∷ xs) ys h = drop-append_front n xs ys (omega arith)

-- The part of a text that a view with an offset and a length names.
abbrev pub part : List ℕ → ℕ → ℕ → List ℕ
part text offset len = if len == 0 then drop offset text else slice text offset len

string_of_view :
    (text : List ℕ) (offset n : ℕ)
    → offset + n ≤ length text
    → string_of (drop offset (text ++ (0 ∷ []))) n ≡ ok (take n (drop offset text))
unfolding string_of
string_of_view text offset n fits =
    let rest = drop offset text in
    let long = length-append rest (0 ∷ []) in
    let enough : ltb (length (rest ++ (0 ∷ []))) n ≡ false =
      ge→ltb _ n (omega (arith, long, length-drop offset text, fits)) in
    rw (drop-append_front offset text (0 ∷ []) (omega arith), enough)
      (ap ok (take-append_front n rest (0 ∷ []) (omega (arith, length-drop offset text, fits))))

-- A view and its text: `to_string` of a view of `len` bytes from `offset` on is exactly these bytes
-- of the string, or everything behind `offset` if `len` is 0, and a view that ends behind the string
-- has no defined behaviour, if the string's length and the view's end are a `size_t`.
pub to_string-buffer_string :
    (text : List ℕ) (offset len : ℕ)
    → length text < 2 ^ 64
    → offset + len < 2 ^ 64
    → (buffer_string text offset len >>= to_string)
      ≡ (if ltb (length text) (offset + len) then err undefined else ok (part text offset len))
unfolding buffer_string setup to_string data_from size
to_string-buffer_string text offset len small near =
    let same : size_t (offset + len) ≡ offset + len = omega arith in
    elim (Bool-cases (ltb (length text) (offset + len))) [
      | inl beyond ↦ rw (same, beyond) refl
      | inr within ↦
          let fits : offset + len ≤ length text = ground (arith, within) in
          elim (Bool-cases (len == 0)) [
            | inl open_end ↦
                let none_given = (==_iff len 0).0 open_end in
                let rest : size_t (2 ^ 64 + length text - offset) ≡ length text - offset =
                  omega arith in
                let everything =
                  take-all (length text - offset) (drop offset text)
                    (omega (arith, length-drop offset text)) in
                rw (same, within, open_end, rest)
                  (string_of_view text offset (length text - offset) (omega arith)
                    ∙ ap ok everything)
            | inr given ↦ rw (same, within, given) (string_of_view text offset len fits)
          ]
    ]
