-- ===== src/Network/Sessions.antt =====
-- network/session.h and session.cpp: the sessions of the server and the manager that stops them. A
-- `shared_ptr` to a session is a number, the object's address, and a null pointer is `none`.
pub mod Laws
pub mod Reading
pub mod Rounds
pub mod Limit
pub mod Entries
pub mod Lifetime
use streaming.Prelude.{
  ℕ, Bool, true, false, not, Option, none, some, List, [], ◌∷◌, if◌then◌else◌, ◌==◌,
}
use streaming.Rtmp.Amf.Map.{key_eq}
use streaming.Rtmp.Chunk.{update}

-- `id_` as bytes, whether `socket_` is open, and `is_closed_`.
pub record Session : Type 0 where
  pub id : List ℕ
  pub is_open : Bool
  pub is_closed : Bool

-- `session_map_` as an association list, and the session objects.
pub record Manager : Type 0 where
  pub session_map : List (List ℕ × ℕ)
  pub session : ℕ → Session

unfoldable pub find : List ℕ → List (List ℕ × ℕ) → Option ℕ
find id [] = none
find id ((k, i) ∷ l) = let rest = find id l in if key_eq k id then some i else rest

-- `erase` of a key.
unfoldable pub remove : List ℕ → List (List ℕ × ℕ) → List (List ℕ × ℕ)
remove id [] = []
remove id ((k, i) ∷ l) = let rest = remove id l in if key_eq k id then rest else (k, i) ∷ rest

-- `session::stop`.
unfoldable pub close : Session → Session
close s = if s.is_closed then s else record s { is_open = false; is_closed = true }

abbrev pub close_at : ℕ → Manager → Manager
close_at i m = record m { session = update m.session i (close (m.session i)) }

-- `emplace` keeps an entry that is there.
unfoldable pub add : Option ℕ → Manager → Manager
add none m = m
add (some i) m = elim (find (m.session i).id m.session_map) [
  | some j ↦ m
  | none ↦ record m { session_map = ((m.session i).id, i) ∷ m.session_map }
]

-- What `stop` does with what it finds in the map.
unfoldable pub stop_found : Option ℕ → ℕ → Manager → Manager
stop_found none i m = m
stop_found (some j) i m = record (close_at i m) {
  session_map = remove (m.session i).id m.session_map;
}

unfoldable pub stop : Option ℕ → Manager → Manager
stop none m = m
stop (some i) m = stop_found (find (m.session i).id m.session_map) i m

abbrev is_empty : List ℕ → Bool
is_empty [] = true
is_empty (b ∷ bs) = false

-- `if (!session_id.empty()) return;`
unfoldable pub erase : List ℕ → Manager → Manager
erase id m = if not (is_empty id) then m else record m { session_map = remove id m.session_map }

unfoldable pub shutdown : ℕ → Manager → Manager
shutdown i m = erase (m.session i).id (close_at i m)

-- The loop over the map closes each session and takes its entry out.
unfoldable pub close_all : List (List ℕ × ℕ) → (ℕ → Session) → ℕ → Session
close_all [] sessions = sessions
close_all ((k, i) ∷ l) sessions = close_all l (update sessions i (close (sessions i)))

unfoldable pub stop_all : Manager → Manager
stop_all m = record m { session_map = []; session = close_all m.session_map m.session }

-- What a write to the socket came to; `aborted` is the error `operation_aborted`.
pub data Written : Type 0 where
  written aborted failed : Written

-- `do_write` of session `i` on an open socket, after the write: any error of an asynchronous write
-- stops the session, and any but `aborted` of a synchronous one.
unfoldable pub write_done : Bool → Bool → Written → ℕ → Manager → Manager
write_done is_async is_close written i m = if is_close then stop (some i) m else m
write_done is_async is_close failed i m = stop (some i) m
write_done is_async is_close aborted i m = if is_async then stop (some i) m else m
