-- ===== src/Rtmp/Amf/Typed.antt =====
-- `AMFValue` of protocol/rtmp/amf.cpp as it is stored: a type and, beside it, a variant that need not
-- fit the type. `std::get_if` of another alternative is a null pointer, which the code follows.
pub mod Sound
pub mod Agrees
use streaming.Prelude.{
  ℕ, ◌%◌, ◌^◌, Bool, true, false, not, List, [], ◌∷◌, ◌++◌, ◌==◌, if◌then◌else◌,
}
use streaming.Prelude.Outcome.{
  Result, ok, err, ◌>>=◌, not_a_string, not_a_number, not_an_object, undefined, not_a_bool,
}
use streaming.Rtmp.Amf.Map.{key_lt, key_eq}
use streaming.Rtmp.Amf.{
  amf_number, amf_boolean, amf_string, amf_object, amf_null, amf_object_end, c_string,
  encode_string, encode_number, write_key,
}

abbrev pub amf_ecma_array : ℕ
amf_ecma_array = 0x08

-- `type_` and `value_`; `Entries` is the `std::map`, in the order of its keys.
mutual
  pub data Value : Type 0 where
    value : ℕ → Variant → Value

  pub data Variant : Type 0 where
    double : ℕ → Variant
    bool : Bool → Variant
    text : List ℕ → Variant
    map : Entries → Variant
    array : Values → Variant

  pub data Entries : Type 0 where
    no_entry : Entries
    entry : List ℕ → Value → Entries → Entries

  pub data Values : Type 0 where
    no_value : Values
    one_value : Value → Values → Values

-- The constructors. A variant that is not set holds its first alternative, the double 0.
unfoldable pub from_type : ℕ → Value
from_type t =
    if t == amf_object
    then value t (map no_entry)
    else if t == amf_ecma_array
    then value t (array no_value)
    else value t (double 0)

-- From a `const char *`, and so from a `std::string`.
unfoldable pub from_text : List ℕ → Value
unfolding c_string
from_text s = value amf_string (text (c_string s))

unfoldable pub from_double : ℕ → Value
from_double n = value amf_number (double n)

unfoldable pub from_bool : Bool → Value
from_bool b = value amf_boolean (bool b)

unfoldable pub type_of : Value → ℕ
type_of (value t v) = t

-- `operator bool`
unfoldable pub is_set : Value → Bool
unfolding type_of
is_set v = not (type_of v == amf_null)

-- `*std::get_if<…>(&value_)`
unfoldable pub get_text : Variant → Result (List ℕ)
get_text (text s) = ok s
get_text _ = err undefined

unfoldable pub get_double : Variant → Result ℕ
get_double (double n) = ok n
get_double _ = err undefined

unfoldable pub get_entries : Variant → Result Entries
get_entries (map m) = ok m
get_entries _ = err undefined

unfoldable pub text_of : Value → Result (List ℕ)
unfolding get_text
text_of (value t v) = if t == amf_string then get_text v else err not_a_string

unfoldable pub number_of : Value → Result ℕ
unfolding get_double
number_of (value t v) = if t == amf_number then get_double v else err not_a_number

-- `to_int` is the conversion of a double to an `int`.
unfoldable pub integer_of : (ℕ → Result ℕ) → Value → Result ℕ
unfolding number_of
integer_of to_int v = number_of v >>= to_int

-- The double is converted to a `bool`: all but the two zeros are true.
unfoldable pub truth_of : Value → Result Bool
unfolding get_double
truth_of (value t v) =
    if t == amf_boolean then (do n ← get_double v; ok (not (n % 2 ^ 63 == 0))) else err not_a_bool

unfoldable pub map_of : Value → Result Entries
unfolding get_entries
map_of (value t v) = if t == amf_object then get_entries v else err not_an_object

unfoldable pub lookup : List ℕ → Entries → Value
unfolding from_type
lookup key no_entry = from_type amf_null
lookup key (entry k v m) = let rest = lookup key m in if key_eq k key then v else rest

-- `operator[]`
unfoldable pub member_of : Value → List ℕ → Result Value
unfolding map_of lookup
member_of v key = do m ← map_of v; ok (lookup key m)

unfoldable pub emplace_entry : List ℕ → Value → Entries → Entries
emplace_entry key v no_entry = entry key v no_entry
emplace_entry key v (entry k w m) =
    let later = entry k w (emplace_entry key v m) in
    if key_lt k key then later else if key_lt key k then entry key v (entry k w m) else entry k w m

unfoldable pub set : Value → List ℕ → Value → Result Value
unfolding map_of emplace_entry type_of
set v key w = do m ← map_of v; ok (value (type_of v) (map (emplace_entry key w m)))

-- `AMFEncoder::operator<<(const AMFValue &)` of a value that holds no map.
unfoldable pub encode_plain : List ℕ → ℕ → Variant → Result (List ℕ)
unfolding get_text get_double encode_string encode_number
encode_plain buf t v =
    if t == amf_string
    then (do s ← get_text v; ok (encode_string buf s))
    else if t == amf_number
    then (do n ← get_double v; ok (encode_number buf n))
    else if t == amf_object
    then err undefined
    else ok buf

unfoldable mutual
  unfolding encode_plain write_key

  pub encode : List ℕ → Value → Result (List ℕ)
  encode buf (value t (map m)) =
      let entries = encode_entries (buf ++ (amf_object ∷ [])) m in
      if t == amf_object
      then (do out ← entries; ok (write_key out [] ++ (amf_object_end ∷ [])))
      else encode_plain buf t (map m)
  encode buf (value t (double n)) = encode_plain buf t (double n)
  encode buf (value t (bool b)) = encode_plain buf t (bool b)
  encode buf (value t (text s)) = encode_plain buf t (text s)
  encode buf (value t (array a)) = encode_plain buf t (array a)

  pub encode_entries : List ℕ → Entries → Result (List ℕ)
  encode_entries buf no_entry = ok buf
  encode_entries buf (entry k v m) = do out ← encode (write_key buf k) v; encode_entries out m
