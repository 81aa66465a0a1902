-- ===== src/Rtmp/Commands/Publisher.antt =====
-- The metadata that a publisher sends, and what `on_process_metadata` reads of it.
use streaming.Prelude.{
  ℕ, zero, suc, ◌^◌, ◌≤◌, ◌<◌, ◌≢◌, ◌≡◌, refl, sym, ap, ◌∙◌, arith, Bool, true, false, Option, none,
  some, List, [], ◌∷◌, ◌++◌, length, append_assoc, All, ◌==◌, if◌then◌else◌, Bool-cases, inl, inr,
  length-append, drop-append, ltb, ge→ltb,
}
use streaming.Prelude.Texts.{TextMap, lookup, put, same_text, same_text-eq, lookup-put}
use streaming.Prelude.Outcome.{ok}
use streaming.Network.Unread.{consume}
use streaming.Network.Unread.Laws.{peek_byte}
use streaming.Rtmp.Amf.{
  encode_string, encode_number, encode_boolean, write_key, peek_front, amf_number, amf_boolean,
  amf_string, amf_object_end,
}
use streaming.Rtmp.Amf.RoundTrip.{
  IsText, load_string-encode_string, load_number-encode_number, load_boolean-encode_boolean,
  load_key-write_key, pop_front_lem,
}
use streaming.Rtmp.Demuxer.{Any, number, boolean, other}
use streaming.Rtmp.Commands.Metadata.{
  load_any, emplace_any, load_entries, load_metadata, read_metadata,
}
use streaming.Rtmp.Commands.Texts

-- A value, its bytes, and what is kept of it: of a text only that there was one.
pub data Given : Type 0 where
  num : ℕ → Given
  flag : Bool → Given
  text : List ℕ → Given

abbrev pub any_of : Given → Any
any_of (num n) = number n
any_of (flag b) = boolean b
any_of (text s) = other

abbrev pub given_bytes : Given → List ℕ
given_bytes (num n) = encode_number [] n
given_bytes (flag b) = encode_boolean [] b
given_bytes (text s) = encode_string [] s

abbrev pub Fits : Given → Type 0
Fits (num n) = n < 2 ^ 64
Fits (flag b) = Unit {0}
Fits (text s) = IsText s

-- Entries with keys that are not empty and fit their length fields.
abbrev pub Entries : Type 0
Entries = List (List ℕ × Given)

abbrev pub IsEntry : List ℕ × Given → Type 0
IsEntry (key, v) = (0 < length key) × (length key < 2 ^ 16) × Fits v

abbrev pub entries_bytes : Entries → List ℕ
entries_bytes [] = []
entries_bytes ((key, v) ∷ es) = write_key [] key ++ (given_bytes v ++ entries_bytes es)

-- The maps that are told apart by what they give for a key: the first entry counts.
abbrev pub given_for : List ℕ → Entries → Option Any
given_for key [] = none
given_for key ((k, v) ∷ es) =
    let rest = given_for key es in if same_text k key then some (any_of v) else rest

abbrev pub first : Option Any → Option Any → Option Any
first none later = later
first (some v) later = some v

abbrev pub merged : TextMap Any → Entries → TextMap Any
merged m [] = m
merged m ((key, v) ∷ es) = merged (emplace_any key (any_of v) m) es

first-none : (a : Option Any) → first a none ≡ a
first-none none = refl
first-none (some v) = refl

first_assoc : (a b c : Option Any) → first (first a b) c ≡ first a (first b c)
first_assoc none b c = refl
first_assoc (some v) b c = refl

lookup-emplace_any :
    (k k' : List ℕ) (v : Any) (m : TextMap Any)
    → lookup k' (emplace_any k v m) ≡ first (lookup k' m) (if same_text k k' then some v else none)
lookup-emplace_any k k' v m = by_old (lookup k m) refl
  where
    by_old :
        (o : Option Any)
        → lookup k m ≡ o
        → lookup k' (elim o [ none ↦ put k v m | some old ↦ m ])
          ≡ first (lookup k' m) (if same_text k k' then some v else none)
    by_old none e = elim (Bool-cases (same_text k k')) [
      | inl same ↦
          let is_new : lookup k' m ≡ none =
            ap (λ j. lookup j m) (sym (same_text-eq k k' same)) ∙ e in
          rw (lookup-put k k' v m, same, is_new) refl
      | inr different ↦ rw (lookup-put k k' v m, different) (sym (first-none (lookup k' m)))
    ]
    by_old (some old) e = elim (Bool-cases (same_text k k')) [
      | inl same ↦
          let is_old : lookup k' m ≡ some old =
            ap (λ j. lookup j m) (sym (same_text-eq k k' same)) ∙ e in
          rw (same, is_old) refl
      | inr different ↦ rw different (sym (first-none (lookup k' m)))
    ]

pub lookup-merged :
    (key : List ℕ) (m : TextMap Any) (es : Entries)
    → lookup key (merged m es) ≡ first (lookup key m) (given_for key es)
lookup-merged key m [] = sym (first-none (lookup key m))
lookup-merged key m ((k, v) ∷ es) =
    lookup-merged key (emplace_any k (any_of v) m) es
    ∙ ap (λ o. first o (given_for key es)) (lookup-emplace_any k key (any_of v) m)
    ∙ first_assoc (lookup key m) (if same_text k key then some (any_of v) else none)
        (given_for key es)
    ∙ ap (first (lookup key m)) (chosen (same_text k key))
  where
    chosen :
        (b : Bool)
        → first (if b then some (any_of v) else none) (given_for key es)
          ≡ (if b then some (any_of v) else given_for key es)
    chosen true = refl
    chosen false = refl

abbrev marker : Given → ℕ
marker (num n) = amf_number
marker (flag b) = amf_boolean
marker (text s) = amf_string

peek_front-given :
    (v : Given) (version : ℕ) (u : List ℕ)
    → peek_front (record { version = version; buf = given_bytes v ++ u }) ≡ ok (marker v)
unfolding peek_front encode_number encode_boolean encode_string
peek_front-given (num n) version u = peek_byte amf_number _
peek_front-given (flag b) version u = peek_byte amf_boolean _
peek_front-given (text s) version u = peek_byte amf_string _

load_any-given :
    (v : Given) (value : Any) (version : ℕ) (u : List ℕ)
    → Fits v
    → load_any value (record { version = version; buf = given_bytes v ++ u })
      ≡ ok (any_of v, record { version = version; buf = u })
unfolding load_any
load_any-given (num n) value version u fits =
    rw (peek_front-given (num n) version u, load_number-encode_number n version u fits) refl
load_any-given (flag b) value version u fits =
    rw (peek_front-given (flag b) version u, load_boolean-encode_boolean b version u) refl
load_any-given (text s) value version u fits =
    rw (peek_front-given (text s) version u, load_string-encode_string s u version fits) refl

-- The entries and what ends them, with the empty key.
pub load_entries-entries :
    (fuel : ℕ) (es : Entries) (value : Any) (m : TextMap Any) (version : ℕ) (u : List ℕ)
    → length es < fuel
    → All IsEntry es
    → load_entries fuel value m
        (record { version = version; buf = entries_bytes es ++ (write_key [] [] ++ u) })
      ≡ ok (merged m es, record { version = version; buf = u })
unfolding load_entries
load_entries-entries zero es value m version u enough fit = absurd (omega arith)
load_entries-entries (suc fuel) [] value m version u enough fit =
    rw (load_key-write_key [] u version (omega arith)) refl
load_entries-entries (suc fuel) ((key, v) ∷ es) value m version u enough
      ((named, short, fits), fit) =
    let after = entries_bytes es ++ (write_key [] [] ++ u) in
    let apart : entries_bytes ((key, v) ∷ es) ++ (write_key [] [] ++ u)
        ≡ write_key [] key ++ (given_bytes v ++ after) =
      append_assoc (write_key [] key) (given_bytes v ++ entries_bytes es) (write_key [] [] ++ u)
      ∙ ap (λ l. write_key [] key ++ l)
          (append_assoc (given_bytes v) (entries_bytes es) (write_key [] [] ++ u)) in
    let some_key : (length key == 0) ≡ false = ground arith in
    rw
      (
        apart,
        load_key-write_key key (given_bytes v ++ after) version short,
        some_key,
        load_any-given v value version after fits,
      )
      (load_entries-entries fuel es (any_of v) (emplace_any key (any_of v) m) version u
        (omega arith) fit)

-- A message of metadata: two texts, the marker of an array with its count, which are five bytes that
-- are skipped, the entries, the empty key and the marker of the end.
abbrev pub metadata_message : List ℕ → Entries → List ℕ → List ℕ
metadata_message skipped es rest =
    encode_string [] Texts.set_data_frame_text
    ++ (encode_string [] Texts.on_meta_data_text
        ++ (skipped ++ (entries_bytes es ++ (write_key [] [] ++ (amf_object_end ∷ rest)))))

pub length-entries_bytes : (es : Entries) → length es ≤ length (entries_bytes es)
unfolding write_key
length-entries_bytes [] = omega arith
length-entries_bytes ((key, v) ∷ es) = omega (
  arith,
  length-append key (given_bytes v ++ entries_bytes es),
  length-append (given_bytes v) (entries_bytes es),
  length-entries_bytes es,
)

-- Texts that are written out have no NUL.
abbrev pub plain : List ℕ → Bool
plain [] = true
plain (zero ∷ s) = false
plain (suc c ∷ s) = plain s

pub plain-All : (s : List ℕ) → plain s ≡ true → All (λ c. c ≢ 0) s
plain-All [] h = tt
plain-All (zero ∷ s) h = absurd (cc)
plain-All (suc c ∷ s) h = ((λ e. absurd (omega (arith, e))), plain-All s h)

pub written : (s : List ℕ) → plain s ≡ true → length s < 2 ^ 16 → IsText s
written s h short = record { no_nul = plain-All s h; short = short }

consume-skipped : (skipped u : List ℕ) → length skipped ≡ 5 → consume 5 (skipped ++ u) ≡ ok u
unfolding consume
consume-skipped skipped u e =
    let enough : ltb (length (skipped ++ u)) 5 ≡ false =
      ge→ltb _ 5 (omega (arith, length-append skipped u, e)) in
    rw (enough, drop-append 5 skipped u (sym e)) refl

load_metadata-entries :
    (skipped : List ℕ) (es : Entries) (rest : List ℕ) (m : TextMap Any) (version : ℕ)
    → length skipped ≡ 5
    → All IsEntry es
    → load_metadata m (record {
      version = version;
      buf = skipped ++ (entries_bytes es ++ (write_key [] [] ++ (amf_object_end ∷ rest)));
    })
      ≡ ok (merged m es)
unfolding load_metadata
load_metadata-entries skipped es rest m version five fit =
    let u = amf_object_end ∷ rest in
    let all = entries_bytes es ++ (write_key [] [] ++ u) in
    let enough : length es < suc (length all) =
      omega
        (arith, length-append (entries_bytes es) (write_key [] [] ++ u), length-entries_bytes es) in
    rw
      (
        consume-skipped skipped all five,
        load_entries-entries (suc (length all)) es other m version u enough fit,
        pop_front_lem amf_object_end version rest (λ e. absurd (omega (arith, e))),
      )
      refl

-- The metadata that a publisher sends, `@setDataFrame` and `onMetaData` with any number of entries, is
-- read without an exception, whatever bytes stand for the array's head and behind the end. What is
-- kept gives for every key what was kept for it before, or else the first value that was sent for it,
-- if no key is empty, keys and texts are shorter than 2 ^ 16 bytes, texts without NUL, and a number
-- has 64 bits.
pub read_metadata-message :
    (skipped : List ℕ) (es : Entries) (rest : List ℕ) (m : TextMap Any) (version : ℕ)
    → length skipped ≡ 5
    → All IsEntry es
    → (m' : TextMap Any) × (read_metadata m
          (record { version = version; buf = metadata_message skipped es rest })
        ≡ ok m')
      × ((key : List ℕ) → lookup key m' ≡ first (lookup key m) (given_for key es))
unfolding read_metadata
read_metadata-message skipped es rest m version five fit =
    let set_text = written Texts.set_data_frame_text refl (omega arith) in
    let meta_text = written Texts.on_meta_data_text refl (omega arith) in
    (
      merged m es,
      rw
          (
            load_string-encode_string Texts.set_data_frame_text _ version set_text,
            load_string-encode_string Texts.on_meta_data_text _ version meta_text,
          )
          (load_metadata-entries skipped es rest m version five fit),
      (λ key. lookup-merged key m es),
    )
