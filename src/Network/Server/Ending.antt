-- ===== src/Network/Server/Ending.antt =====
-- Runs of a server of src/network/tcp_server.cpp: connections, errors, restarts, sessions that stop,
-- and the signal that ends it.
use streaming.Prelude.{
  ℕ, ◌+◌, ◌-◌, ◌^◌, ◌<◌, ◌≡◌, refl, sym, ◌∙◌, arith, Bool, true, false, Option, none, some, [],
  if◌then◌else◌, Bool-cases, inl, inr,
}
use streaming.Network.Sessions.{find, stop, shutdown, stop_all}
use streaming.Network.Sessions.Laws.{close_all-id, close_all-keeps, stop_all-closes}
use streaming.Network.Server.{Server, do_accept, restart, accepted, on_signal}
use streaming.Network.Server.Accepting.{Inv-session_alloc}
use streaming.Network.Server.Closing.{Inv, Inv-Closing, stop-Closing, shutdown-Closing}

-- What may happen: the answer of an accept while the counter has room, a restart, the signal, the
-- counter moved on by another server, and a session that is stopped or shuts down.
pub data Step : Server → Server → Type 0 where
  accepts : {sv : Server} (r : Option ℕ) → sv.session_index + 1 < 2 ^ 64 → Step sv (accepted r sv)
  restarts : {sv : Server} → Step sv (restart sv)
  signals : {sv : Server} → Step sv (on_signal sv)
  counts : {sv : Server} (k : ℕ) → Step sv (record sv { session_index = sv.session_index + k })
  stops :
      {sv : Server} (i : ℕ)
      → i < sv.next
      → Step sv (record sv { manager = stop (some i) sv.manager })
  shuts_down :
      {sv : Server} (i : ℕ) → i < sv.next → Step sv (record sv { manager = shutdown i sv.manager })

-- Runs from a server without sessions.
pub data Reachable (sv0 : Server) : Server → Type 0 where
  start : sv0.next ≡ 0 → sv0.manager.session_map ≡ [] → Reachable sv0 sv0
  step : {sv sv' : Server} → Reachable sv0 sv → Step sv sv' → Reachable sv0 sv'

-- The number of accepts that wait does not matter.
Inv-accepts : (sv : Server) (n : ℕ) → Inv sv → Inv (record sv { accepts = n })
Inv-accepts sv n inv = record {
  listed = inv.listed;
  apart = inv.apart;
  unused = inv.unused;
  absent = inv.absent;
  ended = inv.ended;
}

Inv-if : (b : Bool) (x y : Server) → (b ≡ true → Inv x) → Inv y → Inv (if b then x else y)
Inv-if true x y open_one shut_one = open_one refl
Inv-if false x y open_one shut_one = shut_one

Inv-do_accept : (sv : Server) → Inv sv → Inv (do_accept sv)
unfolding do_accept
Inv-do_accept sv inv = Inv-if sv.is_open _ _ (λ opened. Inv-accepts sv (sv.accepts + 1) inv) inv

Inv-counts :
    (sv : Server) (k : ℕ) → Inv sv → Inv (record sv { session_index = sv.session_index + k })
Inv-counts sv k inv = record {
  listed = inv.listed;
  apart = inv.apart;
  unused = λ i n raw_fd old later room. inv.unused i n raw_fd old (omega arith) room;
  absent = λ n raw_fd later room. inv.absent n raw_fd (omega arith) room;
  ended = inv.ended;
}

all_closed :
    (sv : Server)
    → Inv sv
    → (i : ℕ) → i < sv.next
    → ((stop_all sv.manager).session i).is_closed ≡ true
unfolding stop_all
all_closed sv inv i old = elim (Bool-cases (sv.manager.session i).is_closed) [
  | inl closed ↦ close_all-keeps sv.manager.session_map sv.manager.session i closed
  | inr alive ↦ (stop_all-closes sv.manager (sv.manager.session i).id i (inv.listed i old alive)).0
]

Inv-on_signal : (sv : Server) → Inv sv → Inv (on_signal sv)
unfolding on_signal stop_all find
Inv-on_signal sv inv =
    let same = close_all-id sv.manager.session_map sv.manager.session in
    record {
      listed = λ i old alive. absurd (clash (sym (all_closed sv inv i old) ∙ alive));
      apart = λ i j old old' other e. inv.apart i j old old' other (sym (same i) ∙ e ∙ same j);
      unused =
          λ i n raw_fd old later room e. inv.unused i n raw_fd old later room (sym (same i) ∙ e);
      absent = λ n raw_fd later room. refl;
      ended = λ closed i old. all_closed sv inv i old;
    }
  where
    clash : ◌≡◌ {A = Bool} true false → ⊥
    clash h = cc

Inv-accepted :
    (r : Option ℕ) (sv : Server) → sv.session_index + 1 < 2 ^ 64 → Inv sv → Inv (accepted r sv)
unfolding accepted
Inv-accepted none sv room inv =
    let waiting = Inv-accepts sv (sv.accepts - 1) inv in
    Inv-if sv.is_open _ _ (λ opened. Inv-do_accept _ waiting) waiting
Inv-accepted (some raw_fd) sv room inv =
    let waiting = Inv-accepts sv (sv.accepts - 1) inv in
    Inv-if sv.is_open _ _
      (λ opened. Inv-do_accept _ (Inv-session_alloc raw_fd _ opened room waiting)) waiting

Inv-Step : (sv sv' : Server) → Inv sv → Step sv sv' → Inv sv'
unfolding restart
Inv-Step sv sv' inv (accepts r room) = Inv-accepted r sv room inv
Inv-Step sv sv' inv restarts = Inv-do_accept sv inv
Inv-Step sv sv' inv signals = Inv-on_signal sv inv
Inv-Step sv sv' inv (counts k) = Inv-counts sv k inv
Inv-Step sv sv' inv (stops i old) =
    Inv-Closing sv (stop (some i) sv.manager) inv (stop-Closing sv inv i old)
Inv-Step sv sv' inv (shuts_down i old) =
    Inv-Closing sv (shutdown i sv.manager) inv (shutdown-Closing sv inv i old)

Inv-start : (sv : Server) → sv.next ≡ 0 → sv.manager.session_map ≡ [] → Inv sv
unfolding find
Inv-start sv no_session no_entry = record {
  listed = λ i old. absurd (omega (arith, no_session));
  apart = λ i j old. absurd (omega (arith, no_session));
  unused = λ i n raw_fd old. absurd (omega (arith, no_session));
  absent = λ n raw_fd later room. rw no_entry refl;
  ended = λ closed i old. absurd (omega (arith, no_session));
}

Inv-Reachable : (sv0 sv : Server) → Reachable sv0 sv → Inv sv
Inv-Reachable sv0 sv (start no_session no_entry) = Inv-start sv0 no_session no_entry
Inv-Reachable sv0 sv (step before one) = Inv-Step _ sv (Inv-Reachable sv0 _ before) one

-- In every run of a server that begins without sessions, a session that was accepted and is not
-- closed is in the map under its name.
pub Reachable-listed :
    (sv0 sv : Server) (i : ℕ)
    → Reachable sv0 sv
    → i < sv.next
    → (sv.manager.session i).is_closed ≡ false
    → find (sv.manager.session i).id sv.manager.session_map ≡ some i
Reachable-listed sv0 sv i run old alive = (Inv-Reachable sv0 sv run).listed i old alive

-- In every run of a server that begins without sessions, once the acceptor is closed, which the
-- signal does, every session that was ever accepted is closed: no order of accepts, errors,
-- restarts, stops and shutdowns leaves one, as long as the counter of sessions has room.
pub Reachable-closed :
    (sv0 sv : Server) (i : ℕ)
    → Reachable sv0 sv
    → i < sv.next
    → sv.is_open ≡ false
    → (sv.manager.session i).is_closed ≡ true
Reachable-closed sv0 sv i run old ended = (Inv-Reachable sv0 sv run).ended ended i old
