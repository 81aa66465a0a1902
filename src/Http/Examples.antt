-- ===== src/Http/Examples.antt =====
-- Runs of the code of protocol/http, at one input for each theorem.
use streaming.Prelude.{ℕ, ◌%◌, ◌^◌, ◌≡◌, refl, true, List, [], ◌∷◌}
use streaming.Prelude.Texts.{same_text}
use streaming.Prelude.Outcome.{ok}
use streaming.Http.Header.{build, get_method, stoul}
use streaming.Http.Header.Request.{request, build-request}

-- "GET", application "live", stream "a", host "v", token "t" and start "12".
abbrev live : List ℕ
live = 108 ∷ 105 ∷ 118 ∷ 101 ∷ []

abbrev twelve : List ℕ
twelve = 49 ∷ 50 ∷ []

twelve_lem : stoul twelve ≡ ok 12
unfolding stoul
twelve_lem = refl

build-request_example :
    build (request get_method live (97 ∷ []) (118 ∷ []) (116 ∷ []) twelve (72 ∷ []))
    ≡ ok (record {
      is_get = same_text get_method get_method;
      app = live;
      stream_id = 97 ∷ [];
      vhost = 118 ∷ [];
      token = 116 ∷ [];
      is_flv = true;
      start_pts = 12 % 2 ^ 32;
    })
build-request_example =
    build-request get_method live (97 ∷ []) (118 ∷ []) (116 ∷ []) twelve (72 ∷ []) 12
      (refl, (refl, (refl, tt))) (refl, (refl, (refl, (refl, tt)))) (refl, tt) (refl, tt) (refl, tt)
      (refl, (refl, tt)) twelve_lem
