-- ===== src/Network/Examples.antt =====
-- Runs of the code of network/, at one input for each theorem.
use streaming.Network.Server.{Server, on_signal, accepted, session_alloc, do_accept}
use streaming.Network.Server.Ending.{Reachable, start, step, accepts, signals, Reachable-closed}
use streaming.Prelude.{
  inl, ℕ, sym, subst, none, All, ltb, if◌then◌else◌, ◌+◌, ◌*◌, ◌^◌, ◌≤◌, ◌<◌, ◌≡◌, ◌↔◌, refl, arith,
  true, false, some, List, [], ◌∷◌, ◌++◌, length,
}
use streaming.Prelude.Outcome.{Result, ok, err, ◌>>=◌, undefined, read_buffer_limit}
use streaming.Network.FlatBuffer.{FlatBuffer, create, write, unread, unread_length, consume_or_fail}
use streaming.Network.FlatBuffer.Valid.{IsValid, create-IsValid, write-IsValid}
use streaming.Network.FlatBuffer.Grow.{write_refines}
use streaming.Network.FlatBuffer.Socket.{
  length_first, begin_first, reserve, take_over, receive, socket_read_length, socket_consume,
  receive_lem, receive_fails, max_capacity, max_cache_size, socket_read_size,
}
use streaming.Network.FlatBuffer.Snapshot.{consume_all, restore_snapshot-unread}
use streaming.Network.FlatBuffer.{capture_snapshot, restore_snapshot}
use streaming.Network.FlatBuffer.Dump.{dump, read_hex, read_hex-dump}
use streaming.Network.BufferString.{buffer_string, to_string, part, to_string-buffer_string}
use streaming.Prelude.Words.{IsByte}

abbrev bytes : List ℕ
bytes = 1 ∷ 2 ∷ 3 ∷ []

abbrev empty : FlatBuffer
empty = create 8

empty-IsValid : IsValid empty
empty-IsValid = create-IsValid 8 (omega arith)

abbrev three : FlatBuffer
three = write empty bytes

fits : empty.capacity * 2 + length bytes < 2 ^ 64
unfolding create
fits = omega arith

three-IsValid : IsValid three
three-IsValid = write-IsValid empty bytes fits empty-IsValid

write_refines_example : unread (write empty bytes) ≡ unread empty ++ bytes
write_refines_example = write_refines empty bytes fits empty-IsValid

-- An array with all of its 8 bytes unread, and one with 2 of them read.
abbrev full : ℕ → FlatBuffer
full i = record {
  mem = 1 ∷ 2 ∷ 3 ∷ 4 ∷ 5 ∷ 6 ∷ 7 ∷ 8 ∷ [];
  capacity = 8;
  read_index = i;
  write_index = 8;
  capacity_temp = 0;
  read_index_temp = 0;
  write_index_temp = 0;
}

full-IsValid : IsValid (full 0)
full-IsValid = record {
  storage = refl;
  ordered = omega arith;
  within = omega arith;
  representable = omega arith;
}

used-IsValid : IsValid (full 2)
used-IsValid = record {
  storage = refl;
  ordered = omega arith;
  within = omega arith;
  representable = omega arith;
}

abbrev taken : FlatBuffer → Result FlatBuffer → FlatBuffer
taken b (ok b') = b'
taken b (err e) = b

abbrev received : FlatBuffer
received = taken empty (receive length_first (full 2) bytes)

received-ok : receive length_first (full 2) bytes ≡ ok received
unfolding receive reserve take_over socket_read_length socket_consume
received-ok = refl

receive_lem_example :
    IsValid received
    × (unread received ≡ unread (full 2) ++ bytes)
    × (received.capacity ≤ max_capacity)
receive_lem_example =
    receive_lem length_first (full 2) received bytes (inl refl) (omega arith) received-ok
      used-IsValid (omega arith)

receive_fails_example :
    (max_cache_size < 8) × (8 < unread_length (full 2) + socket_read_size)
    ↔ (receive begin_first (full 2) bytes ≡ err read_buffer_limit)
receive_fails_example = receive_fails begin_first (full 2) bytes (omega arith) used-IsValid

abbrev one_left : FlatBuffer
one_left = record (capture_snapshot three) { read_index = 2 }

restore_snapshot-unread_example :
    (unread (restore_snapshot one_left) ≡ unread three)
    × (restore_snapshot one_left ≡ capture_snapshot three)
unfolding consume_all consume_or_fail unread_length capture_snapshot write create
restore_snapshot-unread_example = restore_snapshot-unread (1 ∷ 1 ∷ []) three one_left refl

-- The text "hello" and a view of its end.
abbrev hello : List ℕ
hello = 104 ∷ 101 ∷ 108 ∷ 108 ∷ 111 ∷ []

to_string-buffer_string_example :
    (buffer_string hello 2 3 >>= to_string)
    ≡ (if ltb (length hello) (2 + 3) then err undefined else ok (part hello 2 3))
to_string-buffer_string_example = to_string-buffer_string hello 2 3 (omega arith) (omega arith)

six_unread : unread (full 2) ≡ 3 ∷ 4 ∷ 5 ∷ 6 ∷ 7 ∷ 8 ∷ []
unfolding unread unread_length
six_unread = refl

full-bytes : All IsByte (unread (full 2))
full-bytes =
    subst (All IsByte) (sym six_unread)
      (omega arith, (omega arith, (omega arith, (omega arith, (omega arith, (omega arith, tt))))))

read_hex-dump_example :
    (text : List ℕ) × (dump (full 2) ≡ ok text) × (read_hex none text ≡ unread (full 2))
unfolding unread
read_hex-dump_example = read_hex-dump (full 2) full-bytes (omega arith)

-- A server that waits for its first connection.
abbrev server : Server
server = record {
  is_open = true;
  accepts = 1;
  session_index = 0;
  server_name = 84 ∷ 67 ∷ 80 ∷ [];
  manager = record {
    session_map = [];
    session = λ i. record { id = []; is_open = false; is_closed = false };
  };
  next = 0;
}

abbrev stopped : Server
stopped = on_signal (accepted (some 7) server)

stopped-Reachable : Reachable server stopped
stopped-Reachable = step (step (start refl refl) (accepts (some 7) (omega arith))) signals

one_session : 0 < stopped.next
unfolding on_signal accepted session_alloc do_accept
one_session = omega arith

no_acceptor : stopped.is_open ≡ false
unfolding on_signal
no_acceptor = refl

Reachable-closed_example : (stopped.manager.session 0).is_closed ≡ true
Reachable-closed_example =
    Reachable-closed server stopped 0 stopped-Reachable one_session no_acceptor
