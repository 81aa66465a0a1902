-- ===== src/Network/Server.antt =====
-- src/network/tcp_server.cpp: a server that accepts connections until a signal ends it, and the names
-- of its sessions in session.cpp.
pub mod Names
pub mod Closing
pub mod Accepting
pub mod Ending
pub mod Running
use streaming.Prelude.{
  ℕ, suc, ◌+◌, ◌-◌, Bool, true, false, not, Option, none, some, List, [], ◌∷◌, ◌++◌, if◌then◌else◌,
}
use streaming.Network.Sessions.{Session, Manager, add, stop_all}
use streaming.Prelude.Decimal.{to_string}
use streaming.Rtmp.Chunk.{update}

-- Whether `acceptor_` is open, the calls of `async_accept` that wait, the counter of all sessions,
-- `server_name_`, the manager, and the address of the next session.
pub record Server : Type 0 where
  pub is_open : Bool
  pub accepts : ℕ
  pub session_index : ℕ
  pub server_name : List ℕ
  pub manager : Manager
  pub next : ℕ

-- "-session_count(", ")" and "-client_socket(".
abbrev pub session_count : List ℕ
session_count =
    45 ∷ 115 ∷ 101 ∷ 115 ∷ 115 ∷ 105 ∷ 111 ∷ 110 ∷ 95 ∷ 99 ∷ 111 ∷ 117 ∷ 110 ∷ 116 ∷ 40 ∷ []

abbrev pub closing : List ℕ
closing = 41 ∷ []

abbrev pub client_socket : List ℕ
client_socket =
    45 ∷ 99 ∷ 108 ∷ 105 ∷ 101 ∷ 110 ∷ 116 ∷ 95 ∷ 115 ∷ 111 ∷ 99 ∷ 107 ∷ 101 ∷ 116 ∷ 40 ∷ []

unfoldable pub generate_session_prefix : List ℕ → ℕ → List ℕ
unfolding to_string
generate_session_prefix session_prefix index =
    session_prefix ++ (session_count ++ (to_string index ++ closing))

-- `id_` of a session, from its prefix and its descriptor.
unfoldable pub session_id : List ℕ → ℕ → List ℕ
unfolding to_string
session_id session_prefix raw_fd =
    session_prefix ++ (client_socket ++ (to_string raw_fd ++ closing))

unfoldable pub do_accept : Server → Server
do_accept sv = if sv.is_open then record sv { accepts = sv.accepts + 1 } else sv

unfoldable pub restart : Server → Server
unfolding do_accept
restart sv = do_accept sv

-- `session_alloc_` makes a session for a socket and adds it to the manager.
unfoldable pub session_alloc : ℕ → Server → Server
session_alloc raw_fd sv =
    let index = sv.session_index + 1 in
    let made : Session = record {
      id = session_id (generate_session_prefix sv.server_name index) raw_fd;
      is_open = true;
      is_closed = false;
    } in
    let m : Manager = record sv.manager { session = update sv.manager.session sv.next made } in
    record sv { session_index = index; manager = add (some sv.next) m; next = suc sv.next }

-- The callback of `async_accept`: an error is `none`, and a socket its descriptor.
unfoldable pub accepted : Option ℕ → Server → Server
unfolding do_accept
accepted none sv =
    let waiting = record sv { accepts = sv.accepts - 1 } in
    if sv.is_open then do_accept waiting else waiting
accepted (some raw_fd) sv =
    let waiting = record sv { accepts = sv.accepts - 1 } in
    if sv.is_open then do_accept (session_alloc raw_fd waiting) else waiting

-- The callback of the signals.
unfoldable pub on_signal : Server → Server
unfolding stop_all
on_signal sv = record sv { is_open = false; manager = stop_all sv.manager }
