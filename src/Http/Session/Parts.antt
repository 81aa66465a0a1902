-- ===== src/Http/Session/Parts.antt =====
-- The parts of a request to src/protocol/http/http_session.cpp, and what the parser does with a part
-- or a head.
use streaming.Prelude.{
  ℕ, ◌≤◌, ◌≡◌, refl, sym, ◌∙◌, arith, Bool, true, false, not, none, some, List, [], ◌∷◌, ◌++◌,
  append_assoc, append-nil, length, ◌==◌, if◌then◌else◌, inl, inr,
}
use streaming.Prelude.Outcome.{Result, ok, err, Result-cases}
use streaming.Prelude.Sending.{Call, catch}
use streaming.Prelude.Texts.{both}
use streaming.Media.Info.{index_of}
use streaming.Network.FlatBuffer.Socket.{socket_read_size}
use streaming.Network.Sessions.Reading.{Received, received}
use streaming.Http.Header.{Header, build}
use streaming.Http.Protocol.Texts.{packet_tail}
use streaming.Http.Protocol.Lines.{without}
use streaming.Http.Protocol.Tail.{ends_at_nul, on_search_packet_tail-waits}
use streaming.Http.Protocol.Response.{
  internal_server_error, method_not_allowed, send_response, send_body,
}
use streaming.Http.Protocol.{
  Protocol, Around, on_head, on_parse_http, on_search_http_handler, on_built, handle_request,
  on_http_get, answer,
}
use streaming.Http.Session.{Meets, parse}

module _ (around : Around) where
  catch-ok :
      (call : Call Protocol (Unit {0})) (p : Protocol)
      → (catch call (λ e. answer around internal_server_error) p).value ≡ ok tt
  unfolding send_response send_body
  catch-ok call p = elim (Result-cases (call p).value) [
    | inl (u, done) ↦ rw done refl
    | inr (e, thrown) ↦ rw thrown refl
  ]

  test-ok :
      (get : Bool) (call : Call Protocol (Unit {0})) (p : Protocol)
      → ((if get
            then catch call (λ e. answer around internal_server_error)
            else answer around method_not_allowed)
          p).value
        ≡ ok tt
  unfolding send_response send_body
  test-ok true call p = catch-ok call p
  test-ok false call p = refl

  built-ok : (p : Protocol) (built : Result Header) → (on_built around built p).value ≡ ok tt
  unfolding on_built handle_request send_response send_body
  built-ok p (err e) = refl
  built-ok p (ok h) = test-ok h.is_get (on_http_get around h) (record p { header = some h })

  -- No exception leaves the handler of a head that is not empty.
  pub on_search_http_handler-ok :
      (p : Protocol) (head : List ℕ)
      → (length head == 0) ≡ false
      → (on_search_http_handler around head p).value ≡ ok tt
  unfolding on_search_http_handler
  on_search_http_handler-ok p head some_bytes = rw some_bytes (built-ok p (build head))

-- A part of a request, when it arrives and what it meets then.
abbrev pub Part : Type 0
Part = List ℕ × (ℕ × Meets)

abbrev pub arrives : Part → Received Meets
arrives (bytes, (now, meets)) = received bytes now meets

abbrev pub all_arrive : List Part → List (Received Meets)
all_arrive [] = []
all_arrive (part ∷ parts) = arrives part ∷ all_arrive parts

-- The parts that arrive while a head is not complete, from the unread bytes before them to those
-- behind them: there are four at least, a part is not longer than a read, and the memory behind them begins with a NUL.
pub data Waits : List ℕ → List Part → List ℕ → Type 0 where
  over : (buf : List ℕ) → Waits buf [] buf
  part :
      (buf bytes : List ℕ) (now : ℕ) (meets : Meets) (parts : List Part) (last : List ℕ)
      → 4 ≤ length (buf ++ bytes)
      → length bytes ≤ socket_read_size
      → ends_at_nul meets.behind ≡ true
      → Waits (buf ++ bytes) parts last
      → Waits buf ((bytes, (now, meets)) ∷ parts) last

pub Waits-prefix :
    (buf last : List ℕ) (parts : List Part)
    → Waits buf parts last
    → (more : List ℕ) × (last ≡ buf ++ more)
Waits-prefix buf last parts (over b) = ([], sym (append-nil b))
Waits-prefix buf last parts (part b bytes now meets later l four fits ends waits) =
    let (more, same) = Waits-prefix (b ++ bytes) l later waits in
    (bytes ++ more, same ∙ append_assoc b bytes more)

pub parse-waits :
    (meets : Meets) (bytes : List ℕ) (p : Protocol)
    → 4 ≤ length bytes
    → without 0 bytes ≡ true
    → ends_at_nul meets.behind ≡ true
    → index_of packet_tail bytes ≡ none
    → parse meets bytes p ≡ record { sent = []; state = p; value = ok bytes }
unfolding parse on_parse_http on_head
parse-waits meets bytes p four plain ends nothing =
    rw (on_search_packet_tail-waits bytes meets.behind four plain ends nothing) refl

pub longer :
    (x h a b : List ℕ) → x ++ a ≡ h ++ b → length x ≤ length h → (z : List ℕ) × (h ≡ x ++ z)
longer [] h a b same room = (h, refl)
longer (c ∷ x) [] a b same room = absurd (omega arith)
longer (c ∷ x) (d ∷ h) a b same room =
    let first : d ≡ c = cc in
    let others : x ++ a ≡ h ++ b = cc in
    let (z, rest) = longer x h a b others (omega arith) in (z, λ i. first i ∷ rest i)

pub without-prefix : (c : ℕ) (s t : List ℕ) → without c (s ++ t) ≡ true → without c s ≡ true
unfolding without
without-prefix c [] t plain = refl
without-prefix c (x ∷ s) t plain =
    let (here, later) = both (not (x == c)) (without c (s ++ t)) plain in
    rw (here, without-prefix c s t later) refl
