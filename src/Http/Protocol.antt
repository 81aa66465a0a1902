-- ===== src/Http/Protocol.antt =====
-- src/protocol/http/http_protocol.cpp: from the bytes of a request to its answer.
pub mod Texts
pub mod Response
pub mod Lines
pub mod Reader
pub mod Answers
pub mod Tail
pub mod Twice
pub mod Ending
use streaming.Prelude.{
  ℕ, ◌+◌, Bool, true, false, ◌||◌, Option, none, some, List, [], ◌∷◌, ◌++◌, length, take, ltb, ◌==◌,
  if◌then◌else◌,
}
use streaming.Prelude.Outcome.{Error, Result, ok, err, map_ok, throw_if, bad_http_packet, undefined}
use streaming.Prelude.Sending.{Done, Send, Call, ◌>>=◌, ◌>>◌, lift, get, modify, catch, return}
use streaming.Network.Unread.{safe_consume}
use streaming.Media.Info.{index_of}
use streaming.Media.Sources.{Sources, find}
use streaming.Rtmp.Demuxer.{Any}
use streaming.Rtmp.Commands.Texts.{rtmp_text}
use streaming.Flv.Muxer.Start.{Store, start_muxing, destroy}
use streaming.Http.Header.{Header, build}
use streaming.Http.Protocol.Response.{
  Status, okay, bad_request, not_found, method_not_allowed, unsupported_media_type,
  internal_server_error, send_response,
}
use streaming.Http.Protocol.Texts.{
  packet_tail, cache_control_key, no_store, video_flv, text_html, not_found_body,
}

-- The members `header_` and `flv_muxer_`, and the sources. Of the muxer there are the addresses of
-- its source and reader, where it got as far as to have them.
pub record Protocol : Type 0 where
  pub header : Option Header
  pub flv_muxer : Option (Option (ℕ × ℕ))
  pub sources : Sources
  pub store : Store

-- What a request meets outside: `util::http_date()`, whether `get_session()` is alive, the address
-- of the next reader, the order of the configurations, and the comparison of types' names.
pub record Around : Type 0 where
  pub date : List ℕ
  pub has_session : Bool
  pub next_reader : ℕ
  pub config_keys : List ℕ
  pub is_name : Any → List ℕ → Bool

-- Whether there is a NUL, which ends a C string.
unfoldable pub has_nul : List ℕ → Bool
has_nul [] = false
has_nul (c ∷ cs) = let rest = has_nul cs in if c == 0 then true else rest

unfoldable pub before_nul : List ℕ → List ℕ
before_nul [] = []
before_nul (c ∷ cs) = let rest = before_nul cs in if c == 0 then [] else c ∷ rest

-- `std::strstr` of the tail, in memory that ends where nobody may read.
unfoldable pub found_in : List ℕ → Option ℕ → Result (Option ℕ)
unfolding has_nul
found_in memory (some pos) = ok (some pos)
found_in memory none = if has_nul memory then ok none else err undefined

abbrev pub strstr_tail : List ℕ → Result (Option ℕ)
strstr_tail memory = found_in memory (index_of packet_tail (before_nul memory))

abbrev behind_tail : Option ℕ → Option ℕ
behind_tail none = none
behind_tail (some pos) = some (pos + 4)

-- The length of the head. `behind` is the memory behind the unread bytes: the search goes on there.
unfoldable pub on_search_packet_tail : List ℕ → List ℕ → Result (Option ℕ)
unfolding found_in before_nul
on_search_packet_tail bytes behind =
    if length bytes == 0 || ltb (length bytes) 4
    then err bad_http_packet
    else map_ok behind_tail (strstr_tail (bytes ++ behind))

-- `flv_muxer_ = flv::flv_muxer::create()`, which destroys the muxer of an earlier request.
unfoldable pub new_muxer : Protocol → Protocol
unfolding destroy
new_muxer p = record p { flv_muxer = some none; store = rid p.flv_muxer }
  where
    rid : Option (Option (ℕ × ℕ)) → Store
    rid none = p.store
    rid (some none) = p.store
    rid (some (some (src, i))) = destroy src i p.store

-- A call of the muxer, on the sources of the protocol.
abbrev pub on_store : Call Store (Unit {0}) → Call Protocol (Unit {0})
on_store call p =
    let d = call p.store in
    record { sent = d.sent; state = record p { store = d.state }; value = d.value }

abbrev pub muxing_reader : Option ℕ → ℕ → Protocol → Protocol
muxing_reader none i p = p
muxing_reader (some src) i p = record p { flv_muxer = some (some (src, i)) }

module _ (around : Around) where
  -- An answer without a body and without fields of its own.
  abbrev pub answer : Status → Call Protocol (Unit {0})
  answer status = send_response around.date status true none none []

  unfoldable pub not_found_answer : Call Protocol (Unit {0})
  unfolding send_response
  not_found_answer =
      send_response around.date not_found true (some not_found_body) (some text_html) []

  unfoldable pub flv_answer : Call Protocol (Unit {0})
  unfolding send_response
  flv_answer =
      send_response around.date okay false none (some video_flv)
        ((cache_control_key, no_store) ∷ [])

  unfoldable pub mux : Option ℕ → Call Protocol (Unit {0})
  unfolding new_muxer start_muxing
  mux source = do
    modify new_muxer
    on_store (
        start_muxing around.is_name around.config_keys around.has_session around.next_reader source
          true)
    modify (muxing_reader source around.next_reader)

  -- What is done with the answer of `media_source::find`. Each source is an RTMP source, so the cast
  -- of its pointer keeps it.
  unfoldable pub serve : Option ℕ × Bool → Call Protocol (Unit {0})
  unfolding not_found_answer flv_answer mux
  serve (source, false) = not_found_answer
  serve (source, true) = do flv_answer; mux source

  unfoldable pub start_flv_muxing : Header → Call Protocol (Unit {0})
  unfolding serve
  start_flv_muxing h = do
    p ← get
    found ← lift (find rtmp_text h.vhost h.app h.stream_id p.sources)
    serve found

  unfoldable pub on_http_get : Header → Call Protocol (Unit {0})
  unfolding start_flv_muxing send_response
  on_http_get h = if h.is_flv then start_flv_muxing h else answer unsupported_media_type

  -- The map of handlers has `GET` only.
  unfoldable pub handle_request : Header → Call Protocol (Unit {0})
  unfolding on_http_get send_response
  handle_request h =
      if h.is_get
      then catch (on_http_get h) (λ e. answer internal_server_error)
      else answer method_not_allowed

  abbrev set_header : Header → Protocol → Protocol
  set_header h p = record p { header = some h }

  unfoldable pub on_built : Result Header → Call Protocol (Unit {0})
  unfolding handle_request send_response
  on_built (err e) = answer bad_request
  on_built (ok h) = do modify (set_header h); handle_request h

  unfoldable pub on_search_http_handler : List ℕ → Call Protocol (Unit {0})
  unfolding on_built
  on_search_http_handler bytes = do
    lift (throw_if (length bytes == 0) bad_http_packet)
    on_built (build bytes)

  -- The head of `header_len` bytes is handled; what is left of the unread bytes is the result.
  unfoldable pub on_head : List ℕ → List ℕ → Option ℕ → Call Protocol (List ℕ)
  unfolding on_search_http_handler safe_consume
  on_head bytes behind none = return bytes
  on_head bytes behind (some header_len) = do
    on_search_http_handler (take header_len (bytes ++ behind))
    return (safe_consume header_len bytes)

  unfoldable pub on_parse_http : List ℕ → List ℕ → Call Protocol (List ℕ)
  unfolding on_search_packet_tail on_head
  on_parse_http bytes behind = do
    tail ← lift (on_search_packet_tail bytes behind)
    on_head bytes behind tail
