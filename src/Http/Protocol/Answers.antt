-- ===== src/Http/Protocol/Answers.antt =====
-- What src/protocol/http/http_protocol.cpp answers to the head of a request.
use streaming.Prelude.{
  ℕ, ◌<◌, ◌≡◌, refl, ap, ◌∙◌, arith, Bool, true, false, Option, none, some, List, [], ◌∷◌, ◌++◌,
  length, All, inl, inr, ◌==◌, if◌then◌else◌,
}
use streaming.Prelude.Outcome.{Error, Result, ok, err, Result-cases}
use streaming.Prelude.Sending.{Send, Call, catch}
use streaming.Media.Sources.{find}
use streaming.Rtmp.Commands.Texts.{rtmp_text}
use streaming.Http.Header.{Header, build}
use streaming.Http.Protocol.{
  Protocol, Around, on_search_http_handler, on_built, handle_request, on_http_get, start_flv_muxing,
  serve, mux, not_found_answer, flv_answer, answer,
}
use streaming.Http.Protocol.Texts.{
  cache_control_key, no_store, video_flv, text_html, not_found_body,
}
use streaming.Prelude.Decimal.{to_string, decimal}
use streaming.Http.Protocol.Response.{
  Status, okay, bad_request, not_found, method_not_allowed, unsupported_media_type,
  internal_server_error, Fields, response_fields, response_head, send_response, send_body, emplace,
  emplace_if, has_response_body,
}
use streaming.Http.Protocol.Lines.{IsField, without, are_fields, are_fields-IsField}
use streaming.Http.Protocol.Reader.{read_answer, answer_of, read_answer-response_head}
use streaming.Rtmp.Amf.Map.{key_lt}

-- The answer that a request deserves: by the head, and then by what the sources know of its path.
unfoldable pub by_source : Result (Option ℕ × Bool) → Status
by_source (err e) = internal_server_error
by_source (ok (source, false)) = not_found
by_source (ok (source, true)) = okay

unfoldable pub by_header : Protocol → Result Header → Status
by_header p (err e) = bad_request
by_header p (ok h) =
    if h.is_get
    then if h.is_flv
      then by_source (find rtmp_text h.vhost h.app h.stream_id p.sources)
      else unsupported_media_type
    else method_not_allowed

abbrev pub expected : Protocol → List ℕ → Status
expected p head = by_header p (build head)

unfoldable pub is_okay : Status → Bool
is_okay okay = true
is_okay other = false

-- The fields of the answer with a status.
unfoldable pub fields_for : List ℕ → Status → Fields
fields_for date okay =
    response_fields date false none (some video_flv) ((cache_control_key, no_store) ∷ [])
fields_for date not_found = response_fields date true (some not_found_body) (some text_html) []
fields_for date other = response_fields date true none none []

-- The head of an answer, which closes the connection unless it is for a stream.
unfoldable pub head_send : List ℕ → Status → Send
head_send date okay = record {
  bytes = response_head okay (fields_for date okay);
  is_async = true;
  is_close = false;
}
head_send date status = record {
  bytes = response_head status (fields_for date status);
  is_async = true;
  is_close = true;
}

-- What follows the head: a stream, the page of a missing one, or nothing.
unfoldable pub behind_head : Status → List Send → List Send
behind_head okay stream = stream
behind_head not_found stream =
    record { bytes = not_found_body; is_async = true; is_close = true } ∷ []
behind_head other stream = []

fields_for-IsField :
    (date : List ℕ) (status : Status)
    → without 13 date ≡ true
    → All IsField (fields_for date status) × (length (fields_for date status) < 12)
unfolding fields_for response_fields emplace emplace_if has_response_body to_string decimal
    are_fields without key_lt
fields_for-IsField date okay plain =
    (are_fields-IsField (fields_for date okay) (rw plain refl), omega arith)
fields_for-IsField date bad_request plain =
    (are_fields-IsField (fields_for date bad_request) (rw plain refl), omega arith)
fields_for-IsField date not_found plain =
    (are_fields-IsField (fields_for date not_found) (rw plain refl), omega arith)
fields_for-IsField date method_not_allowed plain =
    (are_fields-IsField (fields_for date method_not_allowed) (rw plain refl), omega arith)
fields_for-IsField date unsupported_media_type plain =
    (are_fields-IsField (fields_for date unsupported_media_type) (rw plain refl), omega arith)
fields_for-IsField date internal_server_error plain =
    (are_fields-IsField (fields_for date internal_server_error) (rw plain refl), omega arith)

head_send-bytes :
    (date : List ℕ) (status : Status)
    → (head_send date status).bytes ≡ response_head status (fields_for date status)
unfolding head_send
head_send-bytes date okay = refl
head_send-bytes date bad_request = refl
head_send-bytes date not_found = refl
head_send-bytes date method_not_allowed = refl
head_send-bytes date unsupported_media_type = refl
head_send-bytes date internal_server_error = refl

head_send-read :
    (date : List ℕ) (status : Status) (body : List ℕ)
    → without 13 date ≡ true
    → read_answer 12 ((head_send date status).bytes ++ body)
      ≡ some (answer_of status (fields_for date status) body)
head_send-read date status body plain =
    let (fields, room) = fields_for-IsField date status plain in
    ap (λ b. read_answer 12 (b ++ body)) (head_send-bytes date status)
    ∙ read_answer-response_head status (fields_for date status) body 12 fields room

module _ (around : Around) where
  catch-first :
      (call : Call Protocol (Unit {0})) (handler : Error → Call Protocol (Unit {0})) (p : Protocol)
      (first : Send) (rest : List Send)
      → (call p).sent ≡ first ∷ rest
      → (later : List Send) × ((catch call handler p).sent ≡ first ∷ later)
  catch-first call handler p first rest sent = elim (Result-cases (call p).value) [
    | inl (u, done) ↦ (rest, rw done sent)
    | inr (e, thrown) ↦ (rest ++ (handler e (call p).state).sent, rw (thrown, sent) refl)
  ]

  -- `sent` is the answer with a status, and behind it a stream if it has one.
  abbrev pub Answers : Status → List Send → Type 0
  Answers status sent =
      (stream : List Send) × (sent ≡ head_send around.date status ∷ behind_head status stream)

  failure : Error → Call Protocol (Unit {0})
  failure e = answer around internal_server_error

  served :
      (found : Option ℕ × Bool) (p : Protocol)
      → Answers (by_source (ok found)) (catch (serve around found) failure p).sent
  unfolding serve failure by_source head_send behind_head not_found_answer flv_answer send_response
      send_body fields_for key_lt
  served (source, false) p = ([], refl)
  served (source, true) p =
      catch-first (serve around (source, true)) failure p (head_send around.date okay)
        (mux around source p).sent refl

  answer_get :
      (h : Header) (p : Protocol) (found : Result (Option ℕ × Bool))
      → find rtmp_text h.vhost h.app h.stream_id p.sources ≡ found
      → Answers (by_source found) (catch (start_flv_muxing around h) failure p).sent
  unfolding start_flv_muxing by_source head_send behind_head failure send_response send_body
      fields_for key_lt
  answer_get h p (err e) known = ([], rw known refl)
  answer_get h p (ok found) known = let (stream, sent) = served found p in (stream, rw known sent)

  by_test :
      (h : Header) (p : Protocol) (get flv : Bool)
      → Answers
          (if get
            then if flv
              then by_source (find rtmp_text h.vhost h.app h.stream_id p.sources)
              else unsupported_media_type
            else method_not_allowed)
          ((if get
              then catch
                  (if flv then start_flv_muxing around h else answer around unsupported_media_type)
                  failure
              else answer around method_not_allowed)
            p).sent
  unfolding head_send behind_head send_response send_body fields_for key_lt failure
  by_test h p true true = answer_get h p (find rtmp_text h.vhost h.app h.stream_id p.sources) refl
  by_test h p true false = ([], refl)
  by_test h p false flv = ([], refl)

  answer_header :
      (h : Header) (p : Protocol) → Answers (by_header p (ok h)) (handle_request around h p).sent
  unfolding handle_request on_http_get by_header failure
  answer_header h p = by_test h p h.is_get h.is_flv

  built-answered :
      (p : Protocol) (built : Result Header)
      → Answers (by_header p built) (on_built around built p).sent
  unfolding on_built by_header head_send behind_head send_response send_body fields_for key_lt
  built-answered p (err e) = ([], refl)
  built-answered p (ok h) = answer_header h (record p { header = some h })

-- A head that is not empty gets the answer that it deserves, first and once: 400 for one that cannot
-- be read, 405 for another method than GET, 500 for an empty part, 404 with its page for a path
-- without a source, and 200 for one with a source, behind which alone more can follow. If the
-- date has no carriage return, a client reads its status, message and fields, with the
-- bytes behind it.
pub on_search_http_handler-Answers :
    (around : Around) (p : Protocol) (head body : List ℕ)
    → (length head == 0) ≡ false
    → without 13 around.date ≡ true
    → Answers around (expected p head) (on_search_http_handler around head p).sent
      × (read_answer 12 ((head_send around.date (expected p head)).bytes ++ body)
          ≡ some (answer_of (expected p head) (fields_for around.date (expected p head)) body))
unfolding on_search_http_handler
on_search_http_handler-Answers around p head body some_bytes plain =
    let (stream, sent) = built-answered around p (build head) in
    ((stream, rw some_bytes sent), head_send-read around.date (expected p head) body plain)
