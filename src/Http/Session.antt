-- ===== src/Http/Session.antt =====
-- src/protocol/http/http_session.cpp: the parser of the session.
pub mod Parts
pub mod Arrival
use streaming.Prelude.{ℕ, List}
use streaming.Prelude.Sending.{Call}
use streaming.Network.FlatBuffer.Socket.{Order}
use streaming.Network.Sessions.Reading.{Reading, Received, on_recv, do_read}
use streaming.Http.Protocol.{Protocol, Around, on_parse_http}

-- What a request meets when bytes of it arrive: the memory behind them, and the rest.
pub record Meets : Type 0 where
  pub behind : List ℕ
  pub around : Around

unfoldable pub parse : Meets → List ℕ → Call Protocol (List ℕ)
unfolding on_parse_http
parse meets bytes = on_parse_http meets.around bytes meets.behind

abbrev pub HttpSession : Type 0
HttpSession = Reading Protocol

unfoldable pub http_on_recv : Order → ℕ → Meets → HttpSession → HttpSession
unfolding on_recv parse
http_on_recv order = on_recv order parse

-- `start` reads from the socket.
unfoldable pub start : Order → List (Received Meets) → HttpSession → HttpSession
unfolding do_read parse
start order = do_read order parse
