-- ===== src/Network/Sessions/Limit.antt =====
-- The read loop of network/session.cpp at the limit of its buffer.
use streaming.Prelude.{some}
use streaming.Prelude.Outcome.{read_buffer_limit}
use streaming.Network.FlatBuffer.{FlatBuffer}
use streaming.Network.FlatBuffer.Socket.{Order}
use streaming.Network.Sessions.Reading.{Reading, Parser}

module _ {E P : Type 0} (order : Order) (parse : Parser E P) where
  -- What the exception of the limit leaves.
  abbrev pub at_limit : Reading P → Reading P
  at_limit s = record s { thrown = some read_buffer_limit }
