-- ===== src/Rtmp/AmfExamples.antt =====
-- Runs of the values of protocol/rtmp/amf.cpp as they are stored, at one input for each theorem.
use streaming.Prelude.{◌≡◌, refl, true, [], ◌∷◌}
use streaming.Prelude.Outcome.{ok}
use streaming.Rtmp.Amf.{amf_object}
use streaming.Rtmp.Amf.Typed.{
  Value, value, map, entry, no_entry, from_type, from_bool, set, map_of, get_entries, type_of,
  emplace_entry,
}
use streaming.Rtmp.Amf.Typed.Sound.{IsSafe, of_set, of_type, of_bool, Made-IsSafe}

-- An object with a truth value, made by `set`.
abbrev with_flag : Value
with_flag = value amf_object (map (entry (97 ∷ []) (from_bool true) no_entry))

with_flag-made : set (from_type amf_object) (97 ∷ []) (from_bool true) ≡ ok with_flag
unfolding set map_of get_entries from_type type_of emplace_entry from_bool
with_flag-made = refl

Made-IsSafe_example : IsSafe with_flag
Made-IsSafe_example =
    Made-IsSafe with_flag (of_set (97 ∷ []) (of_type amf_object refl) (of_bool true) with_flag-made)
