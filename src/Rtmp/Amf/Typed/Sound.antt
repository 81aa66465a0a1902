-- ===== src/Rtmp/Amf/Typed/Sound.antt =====
-- The values that the constructors and `set` of `AMFValue` make: their variants fit their types.
use streaming.Prelude.{
  ℕ, ◌≡◌, ◌≢◌, ◌↔◌, refl, subst, arith, Bool, false, List, ◌==◌, inl, inr, Bool-cases, ==_iff,
}
use streaming.Prelude.Outcome.{ok, err, undefined, >>=-eq-ok, ok-injective}
use streaming.Rtmp.Amf.Map.{key_lt, key_eq}
use streaming.Rtmp.Amf.{amf_boolean, amf_string, amf_object, amf_null}
use streaming.Rtmp.Amf.Typed.{
  Value, value, Variant, double, bool, text, map, array, Entries, no_entry, entry, amf_ecma_array,
  from_type, from_text, from_double, from_bool, text_of, number_of, truth_of, map_of, member_of,
  lookup, set, emplace_entry, get_text, get_double, get_entries, type_of,
}

-- A double fits every type that needs no other alternative.
unfoldable mutual
  pub HasType : Value → Type 0
  HasType (value t (double n)) = ((t == amf_string) ≡ false) × ((t == amf_object) ≡ false)
  HasType (value t (bool b)) = t ≡ amf_boolean
  HasType (value t (text s)) = t ≡ amf_string
  HasType (value t (map m)) = (t ≡ amf_object) × AllTyped m
  HasType (value t (array a)) = t ≡ amf_ecma_array

  pub AllTyped : Entries → Type 0
  AllTyped no_entry = Unit {0}
  AllTyped (entry k v m) = HasType v × AllTyped m

-- How values are made: by a constructor, except from the type of strings alone, which no code does,
-- by `set`, and as a member of another.
pub data Made : Value → Type 0 where
  of_type : (t : ℕ) → (t == amf_string) ≡ false → Made (from_type t)
  of_text : (s : List ℕ) → Made (from_text s)
  of_double : (n : ℕ) → Made (from_double n)
  of_bool : (b : Bool) → Made (from_bool b)
  of_set : {v w v' : Value} (key : List ℕ) → Made v → Made w → set v key w ≡ ok v' → Made v'
  of_member : {v w : Value} (key : List ℕ) → Made v → member_of v key ≡ ok w → Made w

from_type-HasType : (t : ℕ) → (t == amf_string) ≡ false → HasType (from_type t)
unfolding from_type HasType
from_type-HasType t h = elim (Bool-cases (t == amf_object)) [
  | inl is_object ↦ rw is_object ((==_iff t amf_object).0 is_object, tt)
  | inr no_object ↦ elim (Bool-cases (t == amf_ecma_array)) [
    | inl is_array ↦ rw (no_object, is_array) ((==_iff t amf_ecma_array).0 is_array)
    | inr no_array ↦ rw (no_object, no_array) (h, no_object)
  ]
]

map_of-AllTyped :
    (v : Value) (m : Entries) → HasType v → map_of v ≡ ok m → AllTyped m × (type_of v ≡ amf_object)
unfolding map_of HasType get_entries type_of
map_of-AllTyped (value t (map m')) m (e, all) done =
    let same : m' ≡ m = ground (arith, e, done) in (subst AllTyped same all, e)
map_of-AllTyped (value t (double n)) m h done = absurd (ground (arith, done))
map_of-AllTyped (value t (bool b)) m h done = absurd (ground (arith, done))
map_of-AllTyped (value t (text s)) m h done = absurd (ground (arith, done))
map_of-AllTyped (value t (array a)) m h done = absurd (ground (arith, done))

lookup-HasType : (key : List ℕ) (m : Entries) → AllTyped m → HasType (lookup key m)
unfolding lookup HasType
lookup-HasType key no_entry all = from_type-HasType amf_null refl
lookup-HasType key (entry k v m) (h, all) = elim (Bool-cases (key_eq k key)) [
  | inl found ↦ rw found h
  | inr other ↦ rw other (lookup-HasType key m all)
]

emplace_entry-AllTyped :
    (key : List ℕ) (w : Value) (m : Entries)
    → HasType w
    → AllTyped m
    → AllTyped (emplace_entry key w m)
unfolding emplace_entry HasType
emplace_entry-AllTyped key w no_entry h all = (h, tt)
emplace_entry-AllTyped key w (entry k v m) h (hv, all) = elim (Bool-cases (key_lt k key)) [
  | inl later ↦ rw later (hv, emplace_entry-AllTyped key w m h all)
  | inr here ↦ elim (Bool-cases (key_lt key k)) [
    | inl before ↦ rw (here, before) (h, (hv, all))
    | inr same ↦ rw (here, same) (hv, all)
  ]
]

pub Made-HasType : {v : Value} → Made v → HasType v
unfolding HasType from_text from_double from_bool set member_of
Made-HasType (of_type t h) = from_type-HasType t h
Made-HasType (of_text s) = refl
Made-HasType (of_double n) = (refl, refl)
Made-HasType (of_bool b) = refl
Made-HasType (of_set {v} {w} {v'} key made_v made_w done) =
    let (m, there, last) = >>=-eq-ok (map_of v) _ done in
    let (all, e) = map_of-AllTyped v m (Made-HasType made_v) there in
    subst HasType (ok-injective last) (e, emplace_entry-AllTyped key w m (Made-HasType made_w) all)
Made-HasType (of_member {v} {w} key made done) =
    let (m, there, last) = >>=-eq-ok (map_of v) _ done in
    let (all, _) = map_of-AllTyped v m (Made-HasType made) there in
    subst HasType (ok-injective last) (lookup-HasType key m all)

-- No access follows a null pointer, but that of a truth value.
abbrev pub IsSafe : Value → Type 0
IsSafe v =
    (text_of v ≢ err undefined)
    × (number_of v ≢ err undefined)
    × (map_of v ≢ err undefined)
    × ((truth_of v ≡ err undefined) ↔ ((b : Bool) × (v ≡ from_bool b)))

same_variant : {t : ℕ} {x : Variant} {b : Bool} → value t x ≡ from_bool b → x ≡ bool b
unfolding from_bool
same_variant h = cc

HasType-IsSafe : (v : Value) → HasType v → IsSafe v
unfolding HasType text_of number_of map_of truth_of get_text get_double get_entries from_bool
HasType-IsSafe (value t (double n)) (a, b) = (
  (λ e. ground (arith, a, e)),
  (λ e. ground (arith, a, e)),
  (λ e. ground (arith, b, e)),
  ((λ e. absurd (ground (arith, e))), λ p. let h = same_variant (p.1) in cc),
)
HasType-IsSafe (value t (bool b)) e =
    rw e ((λ h. cc), (λ h. cc), (λ h. cc), ((λ h. (b, refl)), λ p. refl))
HasType-IsSafe (value t (text s)) e =
    rw e
      ((λ h. cc), (λ h. cc), (λ h. cc), ((λ h. absurd (cc)), λ p. let h = same_variant (p.1) in cc))
HasType-IsSafe (value t (map m)) (e, all) =
    rw e
      ((λ h. cc), (λ h. cc), (λ h. cc), ((λ h. absurd (cc)), λ p. let h = same_variant (p.1) in cc))
HasType-IsSafe (value t (array a)) e =
    rw e
      ((λ h. cc), (λ h. cc), (λ h. cc), ((λ h. absurd (cc)), λ p. let h = same_variant (p.1) in cc))

-- Type safety of `AMFValue`: whatever values the constructors, `set` and the operator `[]` make, if no
-- string is made from its type alone, `as_string`, `as_number` and `get_map` never follow a null
-- pointer, in no matter what order they were built; `as_boolean` does, exactly for the values that
-- were made from a `bool`.
pub Made-IsSafe : (v : Value) → Made v → IsSafe v
Made-IsSafe v made = HasType-IsSafe v (Made-HasType made)
