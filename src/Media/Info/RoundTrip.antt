-- ===== src/Media/Info/RoundTrip.antt =====
-- A stream's name, host and token are read back from the text that a publisher sends.
use streaming.Prelude.{
  ℕ, suc, ◌+◌, ◌-◌, ◌≡◌, refl, sym, ap, ◌∙◌, arith, Bool, true, false, some, List, [], ◌∷◌, ◌++◌,
  length, All, ◌==◌, take, drop, take-append, drop-append, drop-drop, ==_refl,
}
use streaming.Prelude.Outcome.{ok}
use streaming.Media.Info.{
  Info, is_alpha, index_if, starts_with, index_of, find_char, find_text, parse_token, parse_vhost,
  parse_stream, vhost_param, token_param,
}

-- The first element that passes, behind others that do not.
index_if-append :
    (test : ℕ → Bool) (xs : List ℕ) (y : ℕ) (ys : List ℕ)
    → All (λ x. test x ≡ false) xs
    → test y ≡ true
    → index_if test (xs ++ (y ∷ ys)) ≡ some (length xs)
unfolding index_if
index_if-append test [] y ys before here = rw here refl
index_if-append test (x ∷ xs) y ys before here =
    let e = index_if-append test xs y ys before.1 here in
    let n : 1 + length xs ≡ suc (length xs) = omega arith in rw before.0 (rw e (ap some n))

-- No character of the text is `c`.
abbrev pub Without : ℕ → List ℕ → Type 0
Without c s = All (λ x. (x == c) ≡ false) s

find_char_at :
    (c : ℕ) (s xs ys : List ℕ) (pos : ℕ)
    → drop pos s ≡ xs ++ (c ∷ ys)
    → Without c xs
    → find_char c s (some pos) ≡ some (pos + length xs)
unfolding find_char
find_char_at c s xs ys pos at before =
    rw at (rw (index_if-append (λ x. x == c) xs c ys before (==_refl c)) refl)

-- The texts that are looked for begin one byte on.
find_vhost_at :
    (s rest : List ℕ) (pos : ℕ)
    → drop pos s ≡ 63 ∷ (vhost_param ++ rest)
    → find_text vhost_param s (some pos) ≡ some (pos + 1)
unfolding find_text index_of starts_with
find_vhost_at s rest pos at = rw at refl

find_token_at :
    (s rest : List ℕ) (pos : ℕ)
    → drop pos s ≡ 38 ∷ (token_param ++ rest)
    → find_text token_param s (some pos) ≡ some (pos + 1)
unfolding find_text index_of starts_with
find_token_at s rest pos at = rw at refl

-- The text of a publisher: name, host and token.
abbrev pub token_part : List ℕ → List ℕ
token_part token = 38 ∷ (token_param ++ token)

abbrev pub vhost_part : List ℕ → List ℕ → List ℕ
vhost_part vhost token = 63 ∷ (vhost_param ++ (vhost ++ token_part token))

parse_token_lem :
    (s token : List ℕ) (pos : ℕ) (i : Info)
    → drop pos s ≡ token_part token
    → parse_token s (some (pos + 1)) i ≡ record i { token = token }
unfolding parse_token
parse_token_lem s token pos i at =
    let e : drop (pos + 1 + 6) s ≡ token =
      sym (drop-drop pos 7 (pos + 1 + 6) s (omega arith)) ∙ ap (drop 7) at in
    rw e refl

parse_vhost_lem :
    (s vhost token : List ℕ) (pos : ℕ) (i : Info)
    → drop pos s ≡ vhost_part vhost token
    → Without 38 vhost
    → parse_vhost s (some (pos + 1)) i ≡ record i { vhost = vhost; token = token }
unfolding parse_vhost
parse_vhost_lem s vhost token pos i at no_amper =
    let from = pos + 1 + 6 in
    let behind : drop from s ≡ vhost ++ token_part token =
      sym (drop-drop pos 7 from s (omega arith)) ∙ ap (drop 7) at in
    let amper = from + length vhost in
    let found = find_char_at 38 s vhost (token_param ++ token) from behind no_amper in
    let end : drop amper s ≡ token_part token =
      sym (drop-drop from (length vhost) amper s refl)
      ∙ ap (drop (length vhost)) behind
      ∙ drop-append (length vhost) vhost (token_part token) refl in
    let host : take (amper - from) (drop from s) ≡ vhost =
      ap (take (amper - from)) behind
      ∙ take-append (amper - from) vhost (token_part token) (omega arith) in
    rw found (
      rw (find_token_at s token amper end)
        (rw host (parse_token_lem s token amper (record i { vhost = vhost }) end)))

-- A publisher's text `name?vhost=host&token=token` is taken apart into exactly these three, if the
-- name begins with a letter and has no `?` and the host has no `&`; the token may be anything.
pub parse_stream_lem :
    (a : ℕ) (name vhost token : List ℕ) (i : Info)
    → is_alpha a ≡ true
    → Without 63 (a ∷ name)
    → Without 38 vhost
    → parse_stream ((a ∷ name) ++ vhost_part vhost token) i
      ≡ ok (record i { stream_id = a ∷ name; vhost = vhost; token = token })
unfolding parse_stream index_if
parse_stream_lem a name vhost token i letter no_mark no_amper =
    let id = a ∷ name in
    let s = id ++ vhost_part vhost token in
    let q = 0 + length id in
    let found = find_char_at 63 s id (vhost_param ++ (vhost ++ token_part token)) 0 refl no_mark in
    let at : drop q s ≡ vhost_part vhost token =
      drop-append q id (vhost_part vhost token) (omega arith) in
    let name_is : take (q - 0) s ≡ id =
      take-append (q - 0) id (vhost_part vhost token) (omega arith) in
    rw letter (
      rw found (
        rw (find_vhost_at s (vhost ++ token_part token) q at) (
          rw name_is
            (ap ok (parse_vhost_lem s vhost token q (record i { stream_id = id }) at no_amper)))))
