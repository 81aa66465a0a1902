-- ===== src/Http/Protocol/Twice.antt =====
-- The answers of src/protocol/http/http_protocol.cpp for a source that is gone.
use streaming.Prelude.{
  ℕ, ◌≡◌, ap, Bool, true, false, none, some, List, [], ◌∷◌, length, ◌==◌, if◌then◌else◌,
}
use streaming.Prelude.Outcome.{ok}
use streaming.Prelude.Sending.{catch, lift-ok}
use streaming.Media.Sources.{find}
use streaming.Rtmp.Commands.Texts.{rtmp_text}
use streaming.Flv.Muxer.Start.{start_muxing}
use streaming.Http.Header.{Header, build}
use streaming.Http.Protocol.{
  Protocol, Around, on_search_http_handler, on_built, handle_request, on_http_get, start_flv_muxing,
  serve, mux, flv_answer, answer,
}
use streaming.Http.Protocol.Response.{
  okay, internal_server_error, method_not_allowed, unsupported_media_type, send_response, send_body,
}
use streaming.Http.Protocol.Answers.{head_send, fields_for}

module _ (around : Around) where
  -- The test of the flag, the search and the answer.
  get-expired :
      (p : Protocol) (h : Header) (get flv : Bool)
      → get ≡ true
      → flv ≡ true
      → find rtmp_text h.vhost h.app h.stream_id p.sources ≡ ok (none, true)
      → ((if get
            then catch
                (if flv then start_flv_muxing around h else answer around unsupported_media_type)
                (λ e. answer around internal_server_error)
            else answer around method_not_allowed)
          p).sent
        ≡ head_send around.date okay ∷ head_send around.date internal_server_error ∷ []
  unfolding start_flv_muxing serve flv_answer mux start_muxing head_send send_response send_body
      fields_for
  get-expired p h true true is_get is_flv known =
      ap (λ d. (catch (λ q. d) (λ e. answer around internal_server_error) p).sent)
        (lift-ok (find rtmp_text h.vhost h.app h.stream_id p.sources) (serve around) p (none, true)
          known)
  get-expired p h true false is_get is_flv known = absurd (cc)
  get-expired p h false flv is_get is_flv known = absurd (cc)

-- A GET of a path whose source is still entered but is no more gets two answers: the 200 goes out
-- before the muxer refuses the null pointer, and the handler of that exception sends a 500 behind
-- it, into what the client reads as the stream.
pub on_search_http_handler-expired :
    (around : Around) (p : Protocol) (head : List ℕ) (h : Header)
    → (length head == 0) ≡ false
    → build head ≡ ok h
    → h.is_get ≡ true
    → h.is_flv ≡ true
    → find rtmp_text h.vhost h.app h.stream_id p.sources ≡ ok (none, true)
    → (on_search_http_handler around head p).sent
      ≡ head_send around.date okay ∷ head_send around.date internal_server_error ∷ []
unfolding on_search_http_handler on_built handle_request on_http_get
on_search_http_handler-expired around p head h some_bytes built is_get is_flv known =
    rw (some_bytes, built)
      (get-expired around (record p { header = some h }) h h.is_get h.is_flv is_get is_flv known)
