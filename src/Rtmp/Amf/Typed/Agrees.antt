-- ===== src/Rtmp/Amf/Typed/Agrees.antt =====
-- The values of Rtmp.Amf, whose type and variant are one, against the ones that are stored.
use streaming.Prelude.{
  ℕ, ◌≡◌, refl, ap, ◌∙◌, false, List, [], ◌∷◌, ◌++◌, ◌==◌, inl, inr, Bool-cases,
}
use streaming.Prelude.Outcome.{
  ok, err, ◌>>=◌, map_ok, not_a_string, not_a_number, not_a_bool, not_an_object,
}
use streaming.Rtmp.Amf.Map.{key_lt, key_eq}
use streaming.Rtmp.Amf.{
  AmfValue, number, boolean, string, object, null, other, Members, none_left, member, as_string,
  as_number, as_boolean, find, get_member, emplace, set_member, encode_value, encode_members,
  write_key, amf_number, amf_boolean, amf_string, amf_object, amf_null, amf_object_end,
}
use streaming.Rtmp.Amf.Typed.{
  Value, value, double, text, map, array, no_value, amf_ecma_array, Entries, no_entry, entry,
  from_type, from_double, from_bool, text_of, number_of, truth_of, map_of, member_of, lookup, set,
  emplace_entry, encode, encode_entries, encode_plain, type_of,
}

unfoldable mutual
  unfolding from_type from_double from_bool

  pub stored : AmfValue → Value
  stored (number n) = from_double n
  stored (boolean b) = from_bool b
  stored (string s) = value amf_string (text s)
  stored (object m) = value amf_object (map (stored_members m))
  stored null = from_type amf_null
  stored (other t) = from_type t

  pub stored_members : Members → Entries
  stored_members none_left = no_entry
  stored_members (member k v m) = entry k (stored v) (stored_members m)

-- The types that `other` stands for: those that no accessor asks for and no encoder writes.
abbrev pub CarriesNothing : ℕ → Type 0
CarriesNothing t =
    ((t == amf_number) ≡ false)
    × ((t == amf_boolean) ≡ false)
    × ((t == amf_string) ≡ false)
    × ((t == amf_object) ≡ false)

unfoldable mutual
  pub IsPlain : AmfValue → Type 0
  IsPlain (other t) = CarriesNothing t
  IsPlain (object m) = ArePlain m
  IsPlain (number n) = Unit {0}
  IsPlain (boolean b) = Unit {0}
  IsPlain (string s) = Unit {0}
  IsPlain null = Unit {0}

  pub ArePlain : Members → Type 0
  ArePlain none_left = Unit {0}
  ArePlain (member k v m) = IsPlain v × ArePlain m

-- What is made from such a type, for a claim that holds of any variant but a map.
from_type-plain :
    (P : Value → Type 0) (t : ℕ)
    → CarriesNothing t
    → ((n : ℕ) → P (value t (double n)))
    → P (value t (array no_value))
    → P (from_type t)
unfolding from_type
from_type-plain P t (_, _, _, h) doubles arrays = elim (Bool-cases (t == amf_ecma_array)) [
  | inl is_array ↦ rw (h, is_array) arrays
  | inr no_array ↦ rw (h, no_array) (doubles 0)
]

as_string-stored : (v : AmfValue) → IsPlain v → as_string v ≡ text_of (stored v)
unfolding as_string text_of stored IsPlain
as_string-stored (number n) h = refl
as_string-stored (boolean b) h = refl
as_string-stored (string s) h = refl
as_string-stored (object m) h = refl
as_string-stored null h = refl
as_string-stored (other t) h =
    from_type-plain (λ v. err not_a_string ≡ text_of v) t h (λ n. rw (h.2) refl) (rw (h.2) refl)

as_number-stored : (v : AmfValue) → IsPlain v → as_number v ≡ number_of (stored v)
unfolding as_number number_of stored IsPlain
as_number-stored (number n) h = refl
as_number-stored (boolean b) h = refl
as_number-stored (string s) h = refl
as_number-stored (object m) h = refl
as_number-stored null h = refl
as_number-stored (other t) h =
    from_type-plain (λ v. err not_a_number ≡ number_of v) t h (λ n. rw (h.0) refl) (rw (h.0) refl)

as_boolean-stored : (v : AmfValue) → IsPlain v → as_boolean v ≡ truth_of (stored v)
unfolding as_boolean truth_of stored IsPlain
as_boolean-stored (number n) h = refl
as_boolean-stored (boolean b) h = refl
as_boolean-stored (string s) h = refl
as_boolean-stored (object m) h = refl
as_boolean-stored null h = refl
as_boolean-stored (other t) h =
    from_type-plain (λ v. err not_a_bool ≡ truth_of v) t h (λ n. rw (h.1) refl) (rw (h.1) refl)

stored-find : (key : List ℕ) (m : Members) → stored (find key m) ≡ lookup key (stored_members m)
unfolding find lookup stored
stored-find key none_left = refl
stored-find key (member k v m) = elim (Bool-cases (key_eq k key)) [
  | inl found ↦ rw found refl
  | inr missing ↦ rw missing (stored-find key m)
]

get_member-stored :
    (v : AmfValue) (key : List ℕ)
    → IsPlain v
    → map_ok stored (get_member v key) ≡ member_of (stored v) key
unfolding get_member member_of map_of stored IsPlain
get_member-stored (number n) key h = refl
get_member-stored (boolean b) key h = refl
get_member-stored (string s) key h = refl
get_member-stored (object m) key h = ap ok (stored-find key m)
get_member-stored null key h = refl
get_member-stored (other t) key h =
    from_type-plain (λ v. err not_an_object ≡ member_of v key) t h (λ n. rw (h.3) refl)
      (rw (h.3) refl)

stored_members-emplace :
    (key : List ℕ) (v : AmfValue) (m : Members)
    → stored_members (emplace key v m) ≡ emplace_entry key (stored v) (stored_members m)
unfolding emplace emplace_entry stored
stored_members-emplace key v none_left = refl
stored_members-emplace key v (member k w m) = elim (Bool-cases (key_lt k key)) [
  | inl later ↦ rw later (ap (λ l. entry k (stored w) l) (stored_members-emplace key v m))
  | inr here ↦ elim (Bool-cases (key_lt key k)) [
    | inl before ↦ rw (here, before) refl
    | inr same ↦ rw (here, same) refl
  ]
]

set_member-stored :
    (v : AmfValue) (key : List ℕ) (w : AmfValue)
    → IsPlain v
    → map_ok stored (set_member v key w) ≡ set (stored v) key (stored w)
unfolding set_member set map_of type_of stored IsPlain
set_member-stored (number n) key w h = refl
set_member-stored (boolean b) key w h = refl
set_member-stored (string s) key w h = refl
set_member-stored (object m) key w h =
    ap (λ l. ok (value amf_object (map l))) (stored_members-emplace key w m)
set_member-stored null key w h = refl
set_member-stored (other t) key w h =
    from_type-plain (λ v. err not_an_object ≡ set v key (stored w)) t h (λ n. rw (h.3) refl)
      (rw (h.3) refl)

mutual
  unfolding encode_value encode encode_plain stored IsPlain

  encode_value-stored :
      (buf : List ℕ) (v : AmfValue) → IsPlain v → ok (encode_value buf v) ≡ encode buf (stored v)
  encode_value-stored buf (number n) h = refl
  encode_value-stored buf (boolean b) h = refl
  encode_value-stored buf (string s) h = refl
  encode_value-stored buf (object m) h =
      ap (λ r. r >>= λ out. ok (write_key out [] ++ (amf_object_end ∷ [])))
        (encode_members-stored (buf ++ (amf_object ∷ [])) m h)
  encode_value-stored buf null h = refl
  encode_value-stored buf (other t) h =
      from_type-plain (λ v. ok buf ≡ encode buf v) t h (λ n. rw (h.0, h.2, h.3) refl)
        (rw (h.0, h.2, h.3) refl)

  encode_members-stored :
      (buf : List ℕ) (m : Members)
      → ArePlain m
      → ok (encode_members buf m) ≡ encode_entries buf (stored_members m)
  encode_members-stored buf none_left h = refl
  encode_members-stored buf (member k v m) (h, hs) =
      encode_members-stored (encode_value (write_key buf k) v) m hs
      ∙ ap (λ r. r >>= λ out. encode_entries out (stored_members m))
          (encode_value-stored (write_key buf k) v h)

-- A value whose type and variant are one behaves as the pair of a type and a variant that is stored
-- for it: each accessor gives or throws the same, a member that is read or set leads to the pair that
-- is stored for it, and the encoder writes the same and follows no null pointer.
stored-agrees :
    (v w : AmfValue) (key buf : List ℕ)
    → IsPlain v
    → (as_string v ≡ text_of (stored v))
      × (as_number v ≡ number_of (stored v))
      × (as_boolean v ≡ truth_of (stored v))
      × (map_ok stored (get_member v key) ≡ member_of (stored v) key)
      × (map_ok stored (set_member v key w) ≡ set (stored v) key (stored w))
      × (ok (encode_value buf v) ≡ encode buf (stored v))
stored-agrees v w key buf plain = (
  as_string-stored v plain,
  as_number-stored v plain,
  as_boolean-stored v plain,
  get_member-stored v key plain,
  set_member-stored v key w plain,
  encode_value-stored buf v plain,
)
