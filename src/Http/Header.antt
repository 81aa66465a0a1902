-- ===== src/Http/Header.antt =====
-- src/protocol/http/http_flv_header.cpp: what is read of the head of a request, as bytes.
pub mod Request
use streaming.Prelude.{
  ℕ, zero, suc, ◌+◌, ◌-◌, ◌*◌, ◌%◌, ◌^◌, Bool, true, false, ◌&&◌, ◌||◌, not, Option, none, some,
  List, [], ◌∷◌, length, take, drop, ltb, leb, ◌==◌, if◌then◌else◌,
}
use streaming.Prelude.Texts.{same_text}
use streaming.Prelude.Outcome.{
  Result, ok, err, ◌>>=◌, ◌>>◌, throw_if, bad_http_header, no_http_method, no_end_label,
  not_a_number_text,
}
use streaming.Media.Info.{find_text, vhost_param, token_param}

-- `Method::INVALID` is `is_get = false`. The text of `info()` is left out: it is made of the others.
pub record Header : Type 0 where
  pub is_get : Bool
  pub app : List ℕ
  pub stream_id : List ℕ
  pub vhost : List ℕ
  pub token : List ℕ
  pub is_flv : Bool
  pub start_pts : ℕ

-- "GET", ".flv", "startpts=", " ", "/" and "&".
abbrev pub get_method : List ℕ
get_method = 71 ∷ 69 ∷ 84 ∷ []

abbrev pub flv : List ℕ
flv = 46 ∷ 102 ∷ 108 ∷ 118 ∷ []

abbrev pub start_pts_param : List ℕ
start_pts_param = 115 ∷ 116 ∷ 97 ∷ 114 ∷ 116 ∷ 112 ∷ 116 ∷ 115 ∷ 61 ∷ []

abbrev pub blank : List ℕ
blank = 32 ∷ []

abbrev pub slash : List ℕ
slash = 47 ∷ []

abbrev pub amper : List ℕ
amper = 38 ∷ []

-- Where the end label stands, and the text in front of it.
abbrev pub Extracted : Type 0
Extracted = Option (ℕ × List ℕ)

-- `FAIL`: `none` is `{false, -1, ""}`.
unfoldable pub failed : Bool → Result Extracted
failed fail = if fail then err no_end_label else ok none

-- `SUCCESS`, if an end was found.
unfoldable pub cut_out : List ℕ → Bool → ℕ → Option ℕ → Result Extracted
unfolding failed
cut_out str fail from none = failed fail
cut_out str fail from (some end) = ok (some (end, take (end - from) (drop from str)))

-- The optional end label is looked for if the first is not there.
unfoldable pub find_end : List ℕ → List ℕ → Option (List ℕ) → Bool → ℕ → Option ℕ → Result Extracted
unfolding cut_out failed
find_end str end_label optional fail from (some end) = cut_out str fail from (some end)
find_end str end_label none fail from none = failed fail
find_end str end_label (some label) fail from none =
    cut_out str fail from (find_text label str (some from))

unfoldable pub extract_from :
    List ℕ → List ℕ → Option (List ℕ) → Bool → ℕ → Option ℕ → Result Extracted
unfolding find_end failed
extract_from str end_label optional fail step none = failed fail
extract_from str end_label optional fail step (some start) =
    let from = start + step in
    find_end str end_label optional fail from (find_text end_label str (some from))

unfoldable pub extract_param :
    List ℕ → List ℕ → List ℕ → ℕ → ℕ → Option (List ℕ) → Bool → Result Extracted
unfolding extract_from
extract_param str start_label end_label offset step optional fail = do
  throw_if (length str == 0 || step == 0) bad_http_header
  extract_from str end_label optional fail step (find_text start_label str (some offset))

-- A call with `fail`, which gives a result or throws.
unfoldable pub required : Result Extracted → Result (ℕ × List ℕ)
required (err e) = err e
required (ok none) = err no_end_label
required (ok (some found)) = ok found

-- `std::stoul`: blanks, a sign and decimal digits in front of the text, below 2^64; a minus wraps.
unfoldable pub digits : List ℕ → ℕ → Bool → Result ℕ
digits [] n any = if any then ok n else err not_a_number_text
digits (c ∷ cs) n any =
    let more = digits cs (n * 10 + (c - 48)) true in
    if leb 48 c && leb c 57 then more else if any then ok n else err not_a_number_text

abbrev in_range : ℕ → Result ℕ
in_range n = if ltb n (2 ^ 64) then ok n else err not_a_number_text

unfoldable pub stoul : List ℕ → Result ℕ
unfolding digits
stoul [] = err not_a_number_text
stoul (c ∷ cs) =
    let skipped = stoul cs in
    let plus = digits cs 0 false >>= in_range in
    let minus = plus >>= (λ n. ok ((2 ^ 64 - n) % 2 ^ 64)) in
    if c == 32 || (leb 9 c && leb c 13)
    then skipped
    else if c == 43
    then plus
    else if c == 45
    then minus
    else digits (c ∷ cs) 0 false >>= in_range

unfoldable pub read_start_pts : Extracted → Result ℕ
unfolding stoul
read_start_pts none = ok 0
read_start_pts (some (end, text)) = stoul text >>= (λ n. ok (n % 2 ^ 32))

-- What is read behind the method, which ends at `start`.
unfoldable pub extract_rest : List ℕ → ℕ → Result Header
unfolding extract_param required read_start_pts
extract_rest str start = do
  (at_app, app) ← required (extract_param str slash slash start 1 none true)
  (at_stream, stream_id) ← required (extract_param str slash flv at_app 1 none true)
  (at_vhost, vhost) ← required (extract_param str vhost_param amper at_stream 6 none true)
  (at_token, token) ← required (extract_param str token_param amper at_vhost 6 (some blank) true)
  pts ← extract_param str start_pts_param blank at_token 9 (some amper) false
  start_pts ← read_start_pts pts
  ok (record {
    is_get = same_text (take start str) get_method;
    app = app;
    stream_id = stream_id;
    vhost = vhost;
    token = token;
    is_flv = true;
    start_pts = start_pts;
  })

unfoldable pub behind_method : List ℕ → Option ℕ → Result Header
unfolding extract_rest
behind_method str none = err no_http_method
behind_method str (some start) = extract_rest str start

unfoldable pub extract_streaming_info : List ℕ → Result Header
unfolding behind_method
extract_streaming_info str = behind_method str (find_text blank str (some 0))

unfoldable pub build : List ℕ → Result Header
unfolding extract_streaming_info
build str = do throw_if (length str == 0) bad_http_header; extract_streaming_info str
