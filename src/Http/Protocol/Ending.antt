-- ===== src/Http/Protocol/Ending.antt =====
-- `http_protocol::~http_protocol`, which tells the log who stopped.
use streaming.Prelude.{
  ℕ, ◌≡◌, ◌↔◌, refl, Bool, true, false, Option, none, some, List, [], ◌∷◌, ◌++◌, length, ◌==◌,
  Bool-cases, inl, inr,
}
use streaming.Prelude.Outcome.{Error, Result, ok, err, undefined}
use streaming.Prelude.Sending.{◌>>◌, lift, modify, Keeps, >>=-Keeps, catch-Keeps}
use streaming.Media.Sources.{find}
use streaming.Rtmp.Commands.Texts.{rtmp_text}
use streaming.Flv.Muxer.Start.{start_muxing}
use streaming.Http.Header.{Header, build}
use streaming.Http.Protocol.{
  Protocol, Around, on_search_http_handler, on_built, handle_request, on_http_get, start_flv_muxing,
  serve, mux, flv_answer, not_found_answer, answer, new_muxer, muxing_reader, on_store,
}
use streaming.Http.Protocol.Response.{
  Status, internal_server_error, method_not_allowed, unsupported_media_type, send_response,
  send_body,
}

-- "|"
abbrev pub bar : List ℕ
bar = 124 ∷ []

-- `http_flv_header::info`, whose text is made once and of members that do not change.
unfoldable pub info : Header → List ℕ
info h = h.app ++ (bar ++ (h.vhost ++ (bar ++ h.stream_id)))

-- What the destructor logs of the client: its token and its stream. It follows `header_`.
unfoldable pub destroyed : Protocol → Result (List ℕ × List ℕ)
unfolding info
destroyed p = by_header p.header
  where
    by_header : Option Header → Result (List ℕ × List ℕ)
    by_header none = err undefined
    by_header (some h) = ok (h.token, info h)

destroyed-none : (p : Protocol) → p.header ≡ none → destroyed p ≡ err undefined
unfolding destroyed
destroyed-none p fresh = rw fresh refl

destroyed-some :
    (p : Protocol) (h : Header) → p.header ≡ some h → destroyed p ≡ ok (h.token, info h)
unfolding destroyed
destroyed-some p h there = rw there refl

abbrev header_of : Protocol → Option Header
header_of p = p.header

module _ (around : Around) where
  answer-Keeps : (status : Status) → Keeps header_of (answer around status)
  unfolding send_response send_body
  answer-Keeps status p = refl

  mux-Keeps : (source : Option ℕ) → Keeps header_of (mux around source)
  unfolding mux new_muxer
  mux-Keeps source =
      let muxing = on_store (
        start_muxing around.is_name around.config_keys around.has_session around.next_reader source
          true) in
      let kept = modify (muxing_reader source around.next_reader) in
      >>=-Keeps header_of (modify new_muxer) (λ _. muxing >> kept) (λ p. refl)
        λ _. >>=-Keeps header_of muxing (λ _. kept) (λ p. refl) λ _ p. reader_kept source p
    where
      reader_kept :
          (source : Option ℕ) (p : Protocol)
          → header_of (muxing_reader source around.next_reader p) ≡ header_of p
      reader_kept none p = refl
      reader_kept (some src) p = refl

  serve-Keeps : (found : Option ℕ × Bool) → Keeps header_of (serve around found)
  unfolding serve not_found_answer flv_answer send_response send_body
  serve-Keeps (source, false) = λ p. refl
  serve-Keeps (source, true) =
      >>=-Keeps header_of (flv_answer around) (λ _. mux around source) (λ p. refl)
        λ _. mux-Keeps source

  start_flv_muxing-Keeps : (h : Header) → Keeps header_of (start_flv_muxing around h)
  unfolding start_flv_muxing
  start_flv_muxing-Keeps h p =
      >>=-Keeps header_of (lift (find rtmp_text h.vhost h.app h.stream_id p.sources)) (serve around)
        (λ q. refl) serve-Keeps p

  on_http_get-Keeps : (h : Header) → Keeps header_of (on_http_get around h)
  unfolding on_http_get
  on_http_get-Keeps h p = elim (Bool-cases h.is_flv) [
    | inl flv ↦ rw flv (start_flv_muxing-Keeps h p)
    | inr no_flv ↦ rw no_flv (answer-Keeps unsupported_media_type p)
  ]

  handle_request-Keeps : (h : Header) → Keeps header_of (handle_request around h)
  unfolding handle_request
  handle_request-Keeps h p = elim (Bool-cases h.is_get) [
    | inl get ↦ rw get (
        catch-Keeps header_of (on_http_get around h) (λ e. answer around internal_server_error)
          (on_http_get-Keeps h) (λ e. answer-Keeps internal_server_error) p)
    | inr no_get ↦ rw no_get (answer-Keeps method_not_allowed p)
  ]

  on_built-destroyed :
      (r : Result Header) (p : Protocol)
      → p.header ≡ none
      → (destroyed (on_built around r p).state ≡ err undefined) ↔ ((e : Error) × (r ≡ err e))
  unfolding on_built
  on_built-destroyed (err e) p fresh = ((λ _. (e, refl)), λ _. destroyed-none p fresh)
  on_built-destroyed (ok h) p fresh =
      let after = handle_request-Keeps h (record p { header = some h }) in
      let told =
        destroyed-some (handle_request around h (record p { header = some h })).state h after in
      ((λ lost. absurd (cc)), λ (e, no_header). absurd (cc))

-- The end of a session: when a head of at least a byte was handled, and it is the first of the session,
-- the destructor follows a null pointer if and only if the head could not be read.
pub on_search_http_handler-destroyed :
    (around : Around) (p : Protocol) (head : List ℕ)
    → p.header ≡ none
    → (length head == 0) ≡ false
    → (destroyed (on_search_http_handler around head p).state ≡ err undefined)
      ↔ ((e : Error) × (build head ≡ err e))
unfolding on_search_http_handler
on_search_http_handler-destroyed around p head fresh some_bytes =
    rw some_bytes (on_built-destroyed around (build head) p fresh)
