-- ===== src/Media/Info.antt =====
-- include/media/media_info.h: what names a stream, as bytes.
pub mod RoundTrip
pub mod Name
use streaming.Prelude.{
  ℕ, zero, suc, ◌+◌, ◌-◌, Bool, true, false, ◌&&◌, ◌||◌, Option, none, some, List, [], ◌∷◌, length,
  ltb, leb, ◌==◌, if◌then◌else◌, take, drop,
}
use streaming.Prelude.Outcome.{Result, ok, err, empty_field}

-- `info_` is the text that `info()` keeps, and is left out: it is made of the other fields.
pub record Info : Type 0 where
  pub schema : List ℕ
  pub app : List ℕ
  pub vhost : List ℕ
  pub stream_id : List ℕ
  pub token : List ℕ
  pub tc_url : List ℕ

abbrev pub vhost_param : List ℕ
vhost_param = 118 ∷ 104 ∷ 111 ∷ 115 ∷ 116 ∷ 61 ∷ []

abbrev pub token_param : List ℕ
token_param = 116 ∷ 111 ∷ 107 ∷ 101 ∷ 110 ∷ 61 ∷ []

-- `std::isalpha` in the C locale.
unfoldable pub is_alpha : ℕ → Bool
is_alpha c = (leb 65 c && leb c 90) || (leb 97 c && leb c 122)

abbrev pub shifted : ℕ → Option ℕ → Option ℕ
shifted n none = none
shifted n (some i) = some (n + i)

-- `std::find_if`, as the index of the first element that passes.
unfoldable pub index_if : (ℕ → Bool) → List ℕ → Option ℕ
index_if test [] = none
index_if test (c ∷ cs) = let rest = shifted 1 (index_if test cs) in if test c then some 0 else rest

unfoldable pub starts_with : List ℕ → List ℕ → Bool
starts_with [] s = true
starts_with (p ∷ ps) [] = false
starts_with (p ∷ ps) (c ∷ cs) = (p == c) && starts_with ps cs

unfoldable pub index_of : List ℕ → List ℕ → Option ℕ
index_of pattern [] = none
index_of pattern (c ∷ cs) =
    let rest = shifted 1 (index_of pattern cs) in
    if starts_with pattern (c ∷ cs) then some 0 else rest

-- `std::string::find` of a character and of a text that is not empty, from a position on; `none`
-- is `npos`, from which nothing is found.
unfoldable pub find_char : ℕ → List ℕ → Option ℕ → Option ℕ
find_char c s none = none
find_char c s (some pos) = shifted pos (index_if (λ x. x == c) (drop pos s))

unfoldable pub find_text : List ℕ → List ℕ → Option ℕ → Option ℕ
find_text pattern s none = none
find_text pattern s (some pos) = shifted pos (index_of pattern (drop pos s))

-- The text from `from` on, up to a position or to the end.
abbrev pub part : List ℕ → ℕ → Option ℕ → List ℕ
part s from none = drop from s
part s from (some pos) = take (pos - from) (drop from s)

-- Each step ends the call if its text is not there.
unfoldable pub parse_token : List ℕ → Option ℕ → Info → Info
parse_token s none i = i
parse_token s (some pos) i = record i { token = drop (pos + length token_param) s }

unfoldable pub parse_vhost : List ℕ → Option ℕ → Info → Info
parse_vhost s none i = i
parse_vhost s (some pos) i =
    let from = pos + length vhost_param in
    let amper_pos = find_char 38 s (some from) in
    parse_token s (find_text token_param s amper_pos) (record i { vhost = part s from amper_pos })

abbrev pub start_of : Option ℕ → ℕ
start_of none = 0
start_of (some i) = i

unfoldable pub parse_stream : List ℕ → Info → Result Info
parse_stream [] i = err empty_field
parse_stream (c ∷ cs) i =
    let s = c ∷ cs in
    let start = start_of (index_if is_alpha s) in
    let stream_pos = find_char 63 s (some start) in
    ok (
      parse_vhost s (find_text vhost_param s stream_pos)
        (record i { stream_id = part s start stream_pos }))

abbrev is_empty : List ℕ → Bool
is_empty [] = true
is_empty (c ∷ cs) = false

abbrev nonempty : List ℕ → Info → Result Info
nonempty s i = if is_empty s then err empty_field else ok i

unfoldable pub set_schema : List ℕ → Info → Result Info
set_schema s i = nonempty s (record i { schema = s })

unfoldable pub set_app : List ℕ → Info → Result Info
set_app s i = nonempty s (record i { app = s })

unfoldable pub set_stream_id : List ℕ → Info → Result Info
set_stream_id s i = nonempty s (record i { stream_id = s })

unfoldable pub set_vhost : List ℕ → Info → Result Info
set_vhost s i = nonempty s (record i { vhost = s })

unfoldable pub set_token : List ℕ → Info → Result Info
set_token s i = nonempty s (record i { token = s })

unfoldable pub set_tc_url : List ℕ → Info → Result Info
set_tc_url s i = nonempty s (record i { tc_url = s })
