-- ===== src/Network/Sessions/Reading.antt =====
-- The read loop of network/session.cpp, and the `on_recv` that rtmp_session.cpp and http_session.cpp
-- share: they differ in the parser that they call.
use streaming.Prelude.{
  ℕ, ◌-◌, Bool, true, false, ◌&&◌, Option, none, some, List, [], ◌∷◌, ◌++◌, length, if◌then◌else◌,
}
use streaming.Prelude.Outcome.{Error, Result, ok, err}
use streaming.Network.FlatBuffer.{FlatBuffer, unread, unread_length, safe_consume}
use streaming.Network.FlatBuffer.Socket.{Order, reserve, take_over}
use streaming.Prelude.Sending.{Send, Done, Call}
use streaming.Util.Timer.{Ticker, reset_time}
use streaming.Network.Sessions.{Manager, stop, shutdown}

-- What a read of the socket came to: an error, or bytes, with the time of their arrival and what
-- else the parser meets then, of type `E`.
pub data Received (E : Type 0) : Type 0 where
  broken : Received E
  received : List ℕ → ℕ → E → Received E

-- `P` is the state of the protocol that the session derives from, `this` its address. `buffer` is
-- `buffer_`, `sent` are the calls of `send` so far, and `thrown` is the exception that has left
-- `do_read` or its callback, which no one in the session catches: nothing is read behind it.
pub record Reading (P : Type 0) : Type 0 where
  pub this : ℕ
  pub ticker : Ticker
  pub buffer : FlatBuffer
  pub protocol : P
  pub manager : Manager
  pub sent : List Send
  pub thrown : Option Error

-- A parser is given the unread bytes, and gives back what is left of them.
abbrev pub Parser : Type 0 → Type 0 → Type 0
Parser E P = E → List ℕ → Call P (List ℕ)

-- What a parser leaves of the unread bytes, whose front it consumes.
abbrev pub left_over : List ℕ → FlatBuffer → FlatBuffer
left_over rest b = safe_consume b (unread_length b - length rest)

-- `order` is the compiler's choice in the call of `async_read_some`.
module _ {E P : Type 0} (order : Order) (parse : Parser E P) where
  -- What is left of the bytes after the parser, or, if it throws, all of them and a stopped session.
  unfoldable pub parsed : Done P (List ℕ) → Reading P → Reading P
  parsed d s = finish d.value
    where
      finish : Result (List ℕ) → Reading P
      finish (ok rest) = record s {
        buffer = left_over rest s.buffer;
        protocol = d.state;
        sent = s.sent ++ d.sent;
      }
      finish (err e) = record s {
        protocol = d.state;
        sent = s.sent ++ d.sent;
        manager = shutdown s.this s.manager;
      }

  unfoldable pub on_recv : ℕ → E → Reading P → Reading P
  unfolding parsed
  on_recv now meets s =
      parsed (parse meets (unread s.buffer) s.protocol)
        (record s { ticker = reset_time now s.ticker })

  -- The test at the head of `do_read`, where that is reached.
  abbrev pub reads : Reading P → Bool
  reads s = (s.manager.session s.this).is_open && not_thrown s.thrown
    where
      not_thrown : Option Error → Bool
      not_thrown none = true
      not_thrown (some e) = false

  -- What stands behind the read, whose bytes are in the buffer.
  abbrev pub taken : Result FlatBuffer → ℕ → E → Reading P → Reading P
  taken (ok b) now meets s = on_recv now meets (record s { buffer = b })
  taken (err e) now meets s = record s { thrown = some e }

  -- The callback of `async_read_some`; the session is alive, and the socket was told to write at
  -- `at`.
  unfoldable pub read_done : Option ℕ → Received E → Reading P → Reading P
  unfolding on_recv
  read_done at broken s = record s { manager = stop (some s.this) s.manager }
  read_done at (received bytes now meets) s = taken (take_over (s.buffer, at) bytes) now meets s

  -- One `do_read` of an open socket, with what its read comes to.
  abbrev pub round : Result (FlatBuffer × Option ℕ) → Received E → Reading P → Reading P
  round (ok (b, at)) r s = read_done at r (record s { buffer = b })
  round (err e) r s = record s { thrown = some e }

  -- The last one, whose read has not come to anything yet.
  abbrev pub waiting : Result (FlatBuffer × Option ℕ) → Reading P → Reading P
  waiting (ok (b, at)) s = record s { buffer = b }
  waiting (err e) s = record s { thrown = some e }

  -- `do_read` again and again, for the reads that the socket answers: a closed socket is not read.
  unfoldable pub do_read : List (Received E) → Reading P → Reading P
  unfolding read_done
  do_read [] s = if reads s then waiting (reserve order s.buffer) s else s
  do_read (r ∷ rs) s =
      let next = do_read rs (round (reserve order s.buffer) r s) in if reads s then next else s
