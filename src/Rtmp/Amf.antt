-- ===== src/Rtmp/Amf.antt =====
-- protocol/rtmp/amf.cpp: AMF0 values, the encoder and the decoder.
-- A `double` is its 64-bit pattern, a `std::string` the list of its bytes, and the decoder's
-- `flat_buffer` the list of its unread bytes.
pub mod Map
pub mod RoundTrip
pub mod Objects
pub mod Integer
pub mod Ends
pub mod Typed
use Prim.Native.Nat.{bit_and, bit_or}
use streaming.Prelude.{
  ℕ, zero, suc, ◌+◌, ◌*◌, ◌/◌, ◌%◌, ◌^◌, Bool, true, false, not, ◌&&◌, List, [], ◌∷◌, ◌++◌, ◌==◌,
  if◌then◌else◌, length,
}
use streaming.Prelude.Outcome.{
  Error, Result, ok, err, ◌>>=◌, ◌>>◌, throw_if, expected_string, expected_number, expected_bool,
  expected_object, expected_object_end, not_a_string, not_a_number, not_an_object, undefined,
  not_a_bool, out_of_fuel,
}
use streaming.Prelude.Words.{put16, put32}
use streaming.Network.Unread
use streaming.Rtmp.Amf.Map.{key_lt, key_eq}

-- `enum class AMF0Type`
abbrev pub amf_number : ℕ
amf_number = 0x00

abbrev pub amf_boolean : ℕ
amf_boolean = 0x01

abbrev pub amf_string : ℕ
amf_string = 0x02

abbrev pub amf_object : ℕ
amf_object = 0x03

abbrev pub amf_null : ℕ
amf_null = 0x05

abbrev pub amf_object_end : ℕ
amf_object_end = 0x09

abbrev pub amf_switch_3 : ℕ
amf_switch_3 = 0x11

-- `AMFValue`, its type and variant in one. `Members` is its `std::map`, in the order of the keys;
-- `other` is a value of one of the types that carry nothing here (arrays, object end, switch).
mutual
  pub data AmfValue : Type 0 where
    number : ℕ → AmfValue
    boolean : Bool → AmfValue
    string : List ℕ → AmfValue
    object : Members → AmfValue
    null : AmfValue
    other : ℕ → AmfValue

  pub data Members : Type 0 where
    none_left : Members
    member : List ℕ → AmfValue → Members → Members

unfoldable pub as_string : AmfValue → Result (List ℕ)
as_string (string s) = ok s
as_string _ = err not_a_string

unfoldable pub as_number : AmfValue → Result ℕ
as_number (number n) = ok n
as_number _ = err not_a_number

-- A boolean is kept as a `bool`, and this asks the variant for a `double`: a null pointer.
unfoldable pub as_boolean : AmfValue → Result Bool
as_boolean (boolean b) = err undefined
as_boolean _ = err not_a_bool

unfoldable pub find : List ℕ → Members → AmfValue
find key none_left = null
find key (member k v m) = if key_eq k key then v else find key m

-- `operator[]`: a missing key gives the null value.
unfoldable pub get_member : AmfValue → List ℕ → Result AmfValue
get_member (object m) key = ok (find key m)
get_member _ key = err not_an_object

-- `emplace`: a key that is there already keeps its value.
unfoldable pub emplace : List ℕ → AmfValue → Members → Members
emplace key v none_left = member key v none_left
emplace key v (member k w m) =
    let later = member k w (emplace key v m) in
    if key_lt k key
    then later
    else if key_lt key k
    then member key v (member k w m)
    else member k w m

unfoldable pub set_member : AmfValue → List ℕ → AmfValue → Result AmfValue
set_member (object m) key v = ok (object (emplace key v m))
set_member _ key v = err not_an_object

-- AMFEncoder, whose operators append to `buf`.

-- What `std::strlen` and `buf += s` see of a C string: the bytes before the first NUL.
unfoldable pub c_string : List ℕ → List ℕ
c_string [] = []
c_string (zero ∷ s) = []
c_string (suc c ∷ s) = suc c ∷ c_string s

unfoldable pub encode_string : List ℕ → List ℕ → List ℕ
encode_string buf s = buf ++ (amf_string ∷ (put16 (length (c_string s) % 2 ^ 16) ++ c_string s))

unfoldable pub encode_null : List ℕ → List ℕ
encode_null buf = buf ++ (amf_null ∷ [])

unfoldable pub encode_number : List ℕ → ℕ → List ℕ
encode_number buf n = buf ++ (amf_number ∷ (put32 (n / 2 ^ 32 % 2 ^ 32) ++ put32 (n % 2 ^ 32)))

unfoldable pub encode_boolean : List ℕ → Bool → List ℕ
encode_boolean buf b = buf ++ (amf_boolean ∷ (if b then 1 else 0) ∷ [])

unfoldable pub write_key : List ℕ → List ℕ → List ℕ
write_key buf key = buf ++ (put16 (length key % 2 ^ 16) ++ key)

-- A value of a type that the switch does not name is logged, and nothing is written for it.
unfoldable mutual
  pub encode_value : List ℕ → AmfValue → List ℕ
  encode_value buf (string s) = encode_string buf s
  encode_value buf (number n) = encode_number buf n
  encode_value buf (object m) =
      write_key (encode_members (buf ++ (amf_object ∷ [])) m) [] ++ (amf_object_end ∷ [])
  encode_value buf (boolean b) = buf
  encode_value buf null = buf
  encode_value buf (other t) = buf

  pub encode_members : List ℕ → Members → List ℕ
  encode_members buf none_left = buf
  encode_members buf (member k v m) = encode_members (encode_value (write_key buf k) v) m

-- AMFDecoder: `version_` and the unread bytes of its buffer.
pub record Decoder : Type 0 where
  pub version : ℕ
  pub buf : List ℕ

abbrev pub Decoding : Type 0 → Type 0
Decoding A = Decoder → Result (A × Decoder)

infixl 5 ◌>>>=◌
abbrev pub ◌>>>=◌ : {A B : Type 0} → Decoding A → (A → Decoding B) → Decoding B
◌>>>=◌ m f d = m d >>= λ p. f p.0 p.1

-- A read of the buffer by the decoder.
abbrev pub lift : {A : Type 0} → (List ℕ → Result (A × List ℕ)) → Decoding A
lift m d = m d.buf >>= λ p. ok (p.0, record d { buf = p.1 })

-- A marker for AMF3 switches the version.
unfoldable pub pop_front : Decoding ℕ
pop_front d = do
  (x, u) ← Unread.read 1 d.buf
  ok (x, record { version = if d.version == 0 && x == amf_switch_3 then 3 else d.version; buf = u })

unfoldable pub peek_front : Decoder → Result ℕ
peek_front d = Unread.peek 1 d.buf

-- `if (t != pop_front()) throw e;`
unfoldable pub expect : ℕ → Error → Decoding (Unit {0})
expect t e d = do (x, d') ← pop_front d; throw_if (not (x == t)) e; ok (tt, d')

unfoldable pub load_string : Decoding (List ℕ)
load_string d = do
  (_, d') ← expect amf_string expected_string d
  (n, d'') ← lift (Unread.read 2) d'
  lift (Unread.read_string n) d''

unfoldable pub load_number : Decoding ℕ
load_number d = do (_, d') ← expect amf_number expected_number d; lift (Unread.read 8) d'

unfoldable pub load_boolean : Decoding Bool
load_boolean d = do
  (_, d') ← expect amf_boolean expected_bool d
  (x, d'') ← pop_front d'
  ok (not (x == 0), d'')

unfoldable pub load_key : Decoding (List ℕ)
load_key d = do (n, d') ← lift (Unread.read 2) d; lift (Unread.read_string n) d'

-- One round of the loop of `load_object`, after the key: the empty key ends the loop, which is
-- `rest`; any other is followed by a string.
unfoldable pub load_value : (Members → Decoding Members) → Members → List ℕ → Decoding Members
load_value rest m [] d = ok (m, d)
load_value rest m (c ∷ cs) d = do
  (s, d') ← load_string d
  rest (emplace (c ∷ cs) (string (c_string s)) m) d'

-- Each round takes bytes, so a fuel above the number of unread bytes is enough.
unfoldable pub load_members : ℕ → Members → Decoding Members
load_members zero m d = err out_of_fuel
load_members (suc fuel) m d = do (key, d') ← load_key d; load_value (load_members fuel) m key d'

unfoldable pub load_object : Decoding AmfValue
load_object d = do
  (_, d') ← expect amf_object expected_object d
  (m, d'') ← load_members (suc (length d'.buf)) none_left d'
  (_, end) ← expect amf_object_end expected_object_end d''
  ok (object m, end)

-- `load<unsigned int>`: up to three groups of seven bits, then a whole byte. `i` counts up to 3.
unfoldable pub load_unsigned_from : ℕ → ℕ → Decoding ℕ
load_unsigned_from zero value d = do
  (b, d') ← pop_front d
  ok (bit_or (value * 2 ^ 8 % 2 ^ 32) b, d')
load_unsigned_from (suc left) value d = do
  (b, d') ← pop_front d
  let value' = bit_or (value * 2 ^ 7 % 2 ^ 32) (bit_and b 0x7f)
  let rest = load_unsigned_from left value' d'
  if bit_and b 0x80 == 0 then ok (value', d') else rest

unfoldable pub load_unsigned : Decoding ℕ
load_unsigned d = load_unsigned_from 3 0 d
