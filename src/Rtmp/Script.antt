-- ===== src/Rtmp/Script.antt =====
-- The encoder of protocol/rtmp/amf.cpp for the metadata of a stream.
pub mod Keys
use streaming.Prelude.{ℕ, Bool, List, [], ◌∷◌, ◌++◌, if◌then◌else◌}
use streaming.Prelude.Outcome.{Result, ok, err, ◌>>=◌, bad_any_cast}
use streaming.Prelude.Texts.{TextMap}
use streaming.Rtmp.Amf.{
  amf_object, amf_object_end, encode_string, encode_number, encode_boolean, write_key,
}
use streaming.Rtmp.Demuxer.{Any, number, boolean, other}

-- "double", "bool" and "onMetaData".
abbrev pub double_name : List ℕ
double_name = 100 ∷ 111 ∷ 117 ∷ 98 ∷ 108 ∷ 101 ∷ []

abbrev pub bool_name : List ℕ
bool_name = 98 ∷ 111 ∷ 111 ∷ 108 ∷ []

abbrev pub on_meta_data : List ℕ
on_meta_data = 111 ∷ 110 ∷ 77 ∷ 101 ∷ 116 ∷ 97 ∷ 68 ∷ 97 ∷ 116 ∷ 97 ∷ []

-- `std::any_cast<double>` and `std::any_cast<bool>`, and what is written of them.
unfoldable pub write_double : List ℕ → Any → Result (List ℕ)
write_double buf (number n) = ok (encode_number buf n)
write_double buf (boolean b) = err bad_any_cast
write_double buf other = err bad_any_cast

unfoldable pub write_bool : List ℕ → Any → Result (List ℕ)
write_bool buf (boolean b) = ok (encode_boolean buf b)
write_bool buf (number n) = err bad_any_cast
write_bool buf other = err bad_any_cast

-- The test compares two pointers, the name of the value's type and a literal. `is_name` says which
-- of them are equal: in a program none, see Keys.
module _ (is_name : Any → List ℕ → Bool) where
  unfoldable pub write_any : List ℕ → Any → Result (List ℕ)
  unfolding write_double write_bool
  write_any buf v =
      if is_name v double_name
      then write_double buf v
      else if is_name v bool_name
      then write_bool buf v
      else ok buf

  -- The loop over the map.
  unfoldable pub write_entries : List ℕ → TextMap Any → Result (List ℕ)
  unfolding write_any
  write_entries buf [] = ok buf
  write_entries buf ((key, v) ∷ m) =
      write_any (write_key buf key) v >>= (λ buf'. write_entries buf' m)

  unfoldable pub encode_metadata : List ℕ → TextMap Any → Result (List ℕ)
  unfolding write_entries
  encode_metadata buf metadata = do
    buf' ← write_entries (buf ++ (amf_object ∷ [])) metadata
    ok (write_key buf' [] ++ (amf_object_end ∷ []))

  -- `encoder << "onMetaData" << metadata`
  unfoldable pub script : TextMap Any → Result (List ℕ)
  unfolding encode_metadata
  script metadata = encode_metadata (encode_string [] on_meta_data) metadata
