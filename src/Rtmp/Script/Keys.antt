-- ===== src/Rtmp/Script/Keys.antt =====
-- The metadata that the FLV muxer writes in the program, where the name of a type never is the
-- literal that it is compared with, and a reader of it.
use streaming.Prelude.{
  ℕ, zero, suc, ◌^◌, ◌<◌, ◌≤◌, ◌≡◌, refl, sym, ap, ◌∙◌, arith, Bool, false, List, [], ◌∷◌, ◌++◌,
  length, ◌==◌, if◌then◌else◌, append_assoc, append-nil, length-append, All, map,
}
use streaming.Prelude.Outcome.{Result, ok, err, ◌>>=◌, out_of_fuel}
use streaming.Prelude.Texts.{TextMap}
use streaming.Network.Unread.{consume}
use streaming.Rtmp.Amf.RoundTrip.{load_string-encode_string, load_key-write_key}
use streaming.Rtmp.Amf.{
  Decoder, encode_string, write_key, amf_object, amf_object_end, load_string, load_key,
}
use streaming.Rtmp.Demuxer.{Any}
use streaming.Rtmp.Script.{on_meta_data, write_any, write_entries, encode_metadata, script}
use streaming.Rtmp.Commands.Publisher.{written}

-- No name of a type is the literal: they are pointers to different arrays.
abbrev pub Never : (Any → List ℕ → Bool) → Type 0
Never is_name = (v : Any) (literal : List ℕ) → is_name v literal ≡ false

abbrev pub keys : TextMap Any → List (List ℕ)
keys m = map (λ e. e.0) m

abbrev keys_bytes : List (List ℕ) → List ℕ
keys_bytes [] = []
keys_bytes (key ∷ ks) = write_key [] key ++ keys_bytes ks

-- The bytes of the script data.
abbrev pub script_bytes : List (List ℕ) → List ℕ
script_bytes ks =
    encode_string [] on_meta_data
    ++ (amf_object ∷ (keys_bytes ks ++ (write_key [] [] ++ (amf_object_end ∷ []))))

-- Keys, up to the empty one, and what stands behind it.
abbrev read_keys : ℕ → Decoder → Result (List (List ℕ) × List ℕ)
read_keys zero dec = err out_of_fuel
read_keys (suc fuel) dec = do
  (key, dec1) ← load_key dec
  let more = read_keys fuel dec1 >>= (λ (ks, rest). ok (key ∷ ks, rest))
  if length key == 0 then ok ([], dec1.buf) else more

-- A name, the marker of an object, and keys.
abbrev pub read_script : List ℕ → Result (List (List ℕ) × List ℕ)
read_script bytes = do
  (name, dec) ← load_string (record { version = 0; buf = bytes })
  rest ← consume 1 dec.buf
  read_keys (suc (length rest)) (record dec { buf = rest })

abbrev pub IsKey : List ℕ → Type 0
IsKey key = (0 < length key) × (length key < 2 ^ 16)

write_key-append : (buf key : List ℕ) → write_key buf key ≡ buf ++ write_key [] key
unfolding write_key
write_key-append buf key = refl

length-keys_bytes : (ks : List (List ℕ)) → length ks ≤ length (keys_bytes ks)
unfolding write_key
length-keys_bytes [] = omega arith
length-keys_bytes (key ∷ ks) =
    omega (arith, length-append key (keys_bytes ks), length-keys_bytes ks)

read_keys-keys_bytes :
    (fuel : ℕ) (ks : List (List ℕ)) (version : ℕ) (u : List ℕ)
    → length ks < fuel
    → All IsKey ks
    → read_keys fuel (record { version = version; buf = keys_bytes ks ++ (write_key [] [] ++ u) })
      ≡ ok (ks, u)
read_keys-keys_bytes zero ks version u enough fit = absurd (omega arith)
read_keys-keys_bytes (suc fuel) [] version u enough fit =
    rw (load_key-write_key [] u version (omega arith)) refl
read_keys-keys_bytes (suc fuel) (key ∷ ks) version u enough ((named, short), fit) =
    let after = keys_bytes ks ++ (write_key [] [] ++ u) in
    let some_key : (length key == 0) ≡ false = ground arith in
    rw
      (
        append_assoc (write_key [] key) (keys_bytes ks) (write_key [] [] ++ u),
        load_key-write_key key after version short,
        some_key,
        read_keys-keys_bytes fuel ks version u (omega arith) fit,
      )
      refl

read_script-script_bytes :
    (ks : List (List ℕ))
    → All IsKey ks
    → read_script (script_bytes ks) ≡ ok (ks, amf_object_end ∷ [])
unfolding consume
read_script-script_bytes ks fit =
    let u = amf_object_end ∷ [] in
    let all = keys_bytes ks ++ (write_key [] [] ++ u) in
    let enough : length ks < suc (length all) =
      omega (arith, length-append (keys_bytes ks) (write_key [] [] ++ u), length-keys_bytes ks) in
    rw
      (
        load_string-encode_string on_meta_data (amf_object ∷ all) 0
            (written on_meta_data refl (omega arith)),
        consume_one amf_object all,
      )
      (read_keys-keys_bytes (suc (length all)) ks 0 u enough fit)
  where
    consume_one : (x : ℕ) (l : List ℕ) → consume 1 (x ∷ l) ≡ ok l
    consume_one x l = ground arith

module _ (is_name : Any → List ℕ → Bool) (never : Never is_name) where
  write_any-never : (buf : List ℕ) (v : Any) → write_any is_name buf v ≡ ok buf
  unfolding write_any
  write_any-never buf v = rw (never v, never v) refl

  write_entries-never :
      (buf : List ℕ) (m : TextMap Any)
      → write_entries is_name buf m ≡ ok (buf ++ keys_bytes (keys m))
  unfolding write_entries
  write_entries-never buf [] = ap ok (sym (append-nil buf))
  write_entries-never buf ((key, v) ∷ m) = rw (write_any-never (write_key buf key) v) (
      write_entries-never (write_key buf key) m
      ∙ ap (λ l. ok (l ++ keys_bytes (keys m))) (write_key-append buf key)
      ∙ ap ok (append_assoc buf (write_key [] key) (keys_bytes (keys m))))

  script-never : (m : TextMap Any) → script is_name m ≡ ok (script_bytes (keys m))
  unfolding script encode_metadata
  script-never m =
      let head = encode_string [] on_meta_data in
      let more = keys_bytes (keys m) in
      rw (write_entries-never (head ++ (amf_object ∷ [])) m) (
        ap (λ l. ok (l ++ (amf_object_end ∷ [])))
          (write_key-append ((head ++ (amf_object ∷ [])) ++ more) [])
        ∙ ap ok (
            append_assoc ((head ++ (amf_object ∷ [])) ++ more) (write_key [] [])
              (amf_object_end ∷ [])
            ∙ append_assoc (head ++ (amf_object ∷ [])) more
                (write_key [] [] ++ (amf_object_end ∷ []))
            ∙ append_assoc head (amf_object ∷ [])
                (more ++ (write_key [] [] ++ (amf_object_end ∷ [])))))

-- The script data that the FLV muxer sends holds the keys of the metadata and none of its values: where
-- no name of a type is the literal that it is compared with, the bytes depend on the keys only, and
-- a client that reads keys without values gets exactly them, with the end marker behind them, if no
-- key is empty and keys are shorter than 2 ^ 16 bytes.
pub read_script-script :
    (is_name : Any → List ℕ → Bool) (m : TextMap Any)
    → Never is_name
    → All IsKey (keys m)
    → (script is_name m ≡ ok (script_bytes (keys m)))
      × (read_script (script_bytes (keys m)) ≡ ok (keys m, amf_object_end ∷ []))
read_script-script is_name m never fit =
    (script-never is_name never m, read_script-script_bytes (keys m) fit)
