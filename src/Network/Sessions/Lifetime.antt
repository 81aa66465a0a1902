-- ===== src/Network/Sessions/Lifetime.antt =====
-- How sessions and managers of src/network/session.cpp begin and end, and the test in front of a
-- write.
use streaming.Prelude.{ℕ, ◌≡◌, refl, ◌∙◌, Bool, true, false, List, [], ◌∷◌, ==_refl, if◌then◌else◌}
use streaming.Network.Sessions.{
  Session, Manager, Written, write_done, shutdown, stop_all, close, close_at, erase,
}
use streaming.Network.Server.{session_id}

-- The constructor, for a socket with this descriptor.
unfoldable pub session : List ℕ → ℕ → Session
unfolding session_id
session session_prefix raw_fd = record {
  id = session_id session_prefix raw_fd;
  is_open = true;
  is_closed = false;
}

-- A manager has no sessions at first.
unfoldable pub create_manager : (ℕ → Session) → Manager
create_manager sessions = record { session_map = []; session = sessions }

-- `~session` of session `i`, and `~session_manager`.
unfoldable pub destroy_session : ℕ → Manager → Manager
unfolding shutdown
destroy_session i m = shutdown i m

unfoldable pub destroy_manager : Manager → Manager
unfolding stop_all
destroy_manager m = stop_all m

-- Nothing is written to a socket that is closed.
unfoldable pub do_write : Bool → Bool → Written → ℕ → Manager → Manager
unfolding write_done
do_write is_async is_close outcome i m =
    let done = write_done is_async is_close outcome i m in if (m.session i).is_open then done else m

erase-is_open :
    (id : List ℕ) (i : ℕ) (m : Manager) → ((erase id m).session i).is_open ≡ (m.session i).is_open
unfolding erase
erase-is_open [] i m = refl
erase-is_open (c ∷ cs) i m = refl

shutdown-is_open :
    (i : ℕ) (m : Manager)
    → (m.session i).is_closed ≡ false
    → ((shutdown i m).session i).is_open ≡ false
unfolding shutdown close
shutdown-is_open i m h = erase-is_open (m.session i).id i (close_at i m) ∙ rw (==_refl i, h) refl

-- A session that shut down writes nothing more, if it was not closed before.
do_write-shutdown :
    (is_async is_close : Bool) (outcome : Written) (i : ℕ) (m : Manager)
    → (m.session i).is_closed ≡ false
    → do_write is_async is_close outcome i (shutdown i m) ≡ shutdown i m
unfolding do_write
do_write-shutdown is_async is_close outcome i m h = rw (shutdown-is_open i m h) refl
