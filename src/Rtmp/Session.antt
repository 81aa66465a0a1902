-- ===== src/Rtmp/Session.antt =====
-- src/protocol/rtmp/rtmp_session.cpp: the parser of the session. What the protocol sends is in its
-- own state.
use streaming.Prelude.{ℕ, List, []}
use streaming.Prelude.Outcome.{Result, ok, err}
use streaming.Prelude.Sending.{Call, Done}
use streaming.Network.FlatBuffer.Socket.{Order}
use streaming.Network.Sessions.Reading.{Reading, Received, on_recv, do_read}
use streaming.Rtmp.Chunk.{Protocol}
use streaming.Rtmp.Control.{Handlers, next_step}

module _ {M : Type 0} (handlers : Handlers M) (rand : ℕ → ℕ) where
  -- `on_parse_rtmp`, with the unread bytes as a list. A call that throws ends the session, so its
  -- state is not used again.
  unfoldable pub parse : Unit {0} → List ℕ → Call (Protocol M) (List ℕ)
  unfolding next_step
  parse meets bytes st = done (next_step handlers rand st bytes)
    where
      done : Result (Protocol M × List ℕ) → Done (Protocol M) (List ℕ)
      done (err e) = record { sent = []; state = st; value = err e }
      done (ok (st', rest)) = record { sent = []; state = st'; value = ok rest }

  unfoldable pub rtmp_on_recv : Order → ℕ → Unit {0} → Reading (Protocol M) → Reading (Protocol M)
  unfolding on_recv parse
  rtmp_on_recv order = on_recv order parse

  -- `start` reads from the socket.
  unfoldable pub start :
      Order → List (Received (Unit {0})) → Reading (Protocol M) → Reading (Protocol M)
  unfolding do_read parse
  start order = do_read order parse
