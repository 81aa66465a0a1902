-- ===== src/Http/Header/Request.antt =====
-- The head of a request for a stream, as a client writes it, and what is read of it.
use streaming.Prelude.{
  ℕ, ◌+◌, ◌-◌, ◌%◌, ◌^◌, ◌≡◌, refl, sym, ap, ◌∙◌, arith, Bool, true, false, Option, none, some,
  List, [], ◌∷◌, ◌++◌, length, ◌==◌, ==_refl, take, drop, take-append, drop-append, drop-drop,
  length-append,
}
use streaming.Prelude.Texts.{same_text}
use streaming.Prelude.Outcome.{ok}
use streaming.Media.Info.{find_text, index_of, starts_with, vhost_param, token_param}
use streaming.Media.Info.RoundTrip.{Without}
use streaming.Http.Header.{
  extract_param, extract_from, find_end, cut_out, required, stoul, read_start_pts, extract_rest,
  behind_method, extract_streaming_info, build, blank, slash, amper, flv, start_pts_param,
  get_method,
}

starts_with-append : (p s : List ℕ) → starts_with p (p ++ s) ≡ true
unfolding starts_with
starts_with-append [] s = refl
starts_with-append (a ∷ p) s = rw (==_refl a) (starts_with-append p s)

pub ==-flip : (a b : ℕ) → (a == b) ≡ false → (b == a) ≡ false
==-flip a b h = ground arith

-- A text that begins with a byte that stands nowhere in front of it.
pub index_of-append :
    (d : ℕ) (ds xs rest : List ℕ)
    → Without d xs
    → index_of (d ∷ ds) (xs ++ ((d ∷ ds) ++ rest)) ≡ some (length xs)
unfolding index_of starts_with
index_of-append d ds [] rest before = rw (==_refl d, starts_with-append ds rest) refl
index_of-append d ds (x ∷ xs) rest before =
    rw (==-flip x d before.0, index_of-append d ds xs rest before.1) (ap some (omega arith))

find_text-drop :
    (p s t : List ℕ) (pos k : ℕ)
    → drop pos s ≡ t
    → index_of p t ≡ some k
    → find_text p s (some pos) ≡ some (pos + k)
unfolding find_text
find_text-drop p s t pos k at found = rw (at, found) refl

-- What stands behind `offset`: a gap, the label, the value and the end label.
module _ (str label : List ℕ) (d : ℕ) (ds : List ℕ) (offset : ℕ) (optional : Option (List ℕ))
    (fail : Bool) where
  extract_param-found :
      (gap value rest : List ℕ) (step : ℕ)
      → drop offset str ≡ gap ++ (label ++ (value ++ ((d ∷ ds) ++ rest)))
      → index_of label (gap ++ (label ++ (value ++ ((d ∷ ds) ++ rest)))) ≡ some (length gap)
      → step ≡ length label
      → (step == 0) ≡ false
      → (length str == 0) ≡ false
      → Without d value
      → (end : ℕ) × (extract_param str label (d ∷ ds) offset step optional fail
          ≡ ok (some (end, value)))
        × (drop end str ≡ (d ∷ ds) ++ rest)
  unfolding extract_param extract_from find_end cut_out
  extract_param-found gap value rest step at found long some_step some_text before =
      let tail = value ++ ((d ∷ ds) ++ rest) in
      let from = offset + length gap + step in
      let end = from + length value in
      let behind_gap : drop (offset + length gap) str ≡ label ++ tail =
        sym (drop-drop offset (length gap) (offset + length gap) str refl)
        ∙ ap (drop (length gap)) at
        ∙ drop-append (length gap) gap (label ++ tail) refl in
      let behind_label : drop from str ≡ tail =
        sym (drop-drop (offset + length gap) step from str refl)
        ∙ ap (drop step) behind_gap
        ∙ drop-append step label tail long in
      let at_end : drop end str ≡ (d ∷ ds) ++ rest =
        sym (drop-drop from (length value) end str refl)
        ∙ ap (drop (length value)) behind_label
        ∙ drop-append (length value) value ((d ∷ ds) ++ rest) refl in
      let text : take (end - from) (drop from str) ≡ value =
        ap (take (end - from)) behind_label
        ∙ take-append (end - from) value ((d ∷ ds) ++ rest) (omega arith) in
      (
        end,
        rw
            (
              some_text,
              some_step,
              find_text-drop label str (gap ++ (label ++ tail)) offset (length gap) at found,
              find_text-drop (d ∷ ds) str tail from (length value) behind_label
                  (index_of-append d ds value rest before),
              text,
            )
            refl,
        at_end,
      )

-- `method /app/stream.flv?vhost=vhost&token=token&startpts=pts`, a blank, and anything.
abbrev pub after_token : List ℕ → List ℕ → List ℕ
after_token pts rest = amper ++ (start_pts_param ++ (pts ++ (blank ++ rest)))

abbrev pub after_vhost : List ℕ → List ℕ → List ℕ → List ℕ
after_vhost token pts rest = amper ++ (token_param ++ (token ++ after_token pts rest))

abbrev pub after_stream : List ℕ → List ℕ → List ℕ → List ℕ → List ℕ
after_stream vhost token pts rest =
    flv ++ ((63 ∷ []) ++ (vhost_param ++ (vhost ++ after_vhost token pts rest)))

abbrev pub after_app : List ℕ → List ℕ → List ℕ → List ℕ → List ℕ → List ℕ
after_app stream vhost token pts rest = slash ++ (stream ++ after_stream vhost token pts rest)

abbrev pub request : List ℕ → List ℕ → List ℕ → List ℕ → List ℕ → List ℕ → List ℕ → List ℕ
request method app stream vhost token pts rest =
    method ++ (blank ++ (slash ++ (app ++ after_app stream vhost token pts rest)))

-- A request with all its parts is read as exactly these parts, with the number that the text of the
-- start time stands for: if the method has no blank, the application no `/`, the stream no `.`,
-- the host and the token no `&` and the start time no blank.
pub build-request :
    (method app stream vhost token pts rest : List ℕ) (n : ℕ)
    → Without 32 method
    → Without 47 app
    → Without 46 stream
    → Without 38 vhost
    → Without 38 token
    → Without 32 pts
    → stoul pts ≡ ok n
    → build (request method app stream vhost token pts rest)
      ≡ ok (record {
        is_get = same_text method get_method;
        app = app;
        stream_id = stream;
        vhost = vhost;
        token = token;
        is_flv = true;
        start_pts = n % 2 ^ 32;
      })
unfolding build extract_streaming_info behind_method extract_rest required read_start_pts index_of
    starts_with
build-request method app stream vhost token pts rest n no_blank no_slash no_dot no_amper no_amper'
      no_blank' number =
    let tail = slash ++ (app ++ after_app stream vhost token pts rest) in
    let str = request method app stream vhost token pts rest in
    let some_text : (length str == 0) ≡ false =
      ground (arith, length-append method (blank ++ tail)) in
    let first : find_text blank str (some 0) ≡ some (length method) =
      find_text-drop blank str str 0 (length method) refl
        (index_of-append 32 [] method tail no_blank)
      ∙ ap some (omega arith) in
    let at : drop (length method) str ≡ blank ++ tail =
      drop-append (length method) method (blank ++ tail) refl in
    let get : take (length method) str ≡ method =
      take-append (length method) method (blank ++ tail) refl in
    let (e1, x1, at1) =
      extract_param-found str slash 47 [] (length method) none true blank app
        (stream ++ after_stream vhost token pts rest) 1 at refl refl refl some_text no_slash in
    let (e2, x2, at2) =
      extract_param-found str slash 46 (102 ∷ 108 ∷ 118 ∷ []) e1 none true [] stream
        ((63 ∷ []) ++ (vhost_param ++ (vhost ++ after_vhost token pts rest))) 1 at1 refl refl refl
        some_text no_dot in
    let (e3, x3, at3) =
      extract_param-found str vhost_param 38 [] e2 none true (flv ++ (63 ∷ [])) vhost
        (token_param ++ (token ++ after_token pts rest)) 6 at2 refl refl refl some_text no_amper in
    let (e4, x4, at4) =
      extract_param-found str token_param 38 [] e3 (some blank) true amper token
        (start_pts_param ++ (pts ++ (blank ++ rest))) 6 at3 refl refl refl some_text no_amper' in
    let (e5, x5, at5) =
      extract_param-found str start_pts_param 32 [] e4 (some amper) false amper pts rest 9 at4 refl
        refl refl some_text no_blank' in
    rw (some_text, first, x1, x2, x3, x4, x5, number, get) refl
