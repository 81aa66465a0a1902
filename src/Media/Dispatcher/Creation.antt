-- ===== src/Media/Dispatcher/Creation.antt =====
-- media/packet_dispatcher.h: how a `client_reader` is made and given its callbacks, and the end of a
-- dispatcher.
use streaming.Prelude.{ℕ, Bool, true, false, Option, none, some, List, [], ◌∷◌, ◌++◌, if◌then◌else◌}
use streaming.Prelude.Outcome.{Result, ok, err, invalid_session, empty_read_cb, empty_detach_cb}
use streaming.Network.Sessions.{Session}
use streaming.Media.Dispatcher.{Dispatcher, Reader, detach_all_readers}

-- A reader with its name.
pub record NamedReader (T : Type 0) : Type 0 where
  pub reader : Reader T
  pub id : List ℕ

-- "Client[", "-" and "]"
abbrev pub client_prefix : List ℕ
client_prefix = 67 ∷ 108 ∷ 105 ∷ 101 ∷ 110 ∷ 116 ∷ 91 ∷ []

abbrev pub token_separator : List ℕ
token_separator = 45 ∷ []

abbrev pub client_suffix : List ℕ
client_suffix = 93 ∷ []

unfoldable pub client_id : List ℕ → List ℕ → List ℕ
client_id session_id token =
    client_prefix ++ (session_id ++ (token_separator ++ (token ++ client_suffix)))

module _ {T : Type 0} where
  -- `none` is a weak pointer to a session that is gone.
  unfoldable pub client_reader : Option Session → List ℕ → Result (NamedReader T)
  unfolding client_id
  client_reader none token = err invalid_session
  client_reader (some s) token = ok (record {
    reader = record {
      is_registered = false;
      has_read_cb = false;
      has_detach_cb = false;
      received = [];
      detached = [];
    };
    id = client_id s.id token;
  })

  -- The argument says whether the callback is one that can be called.
  unfoldable pub set_read_cb : Bool → Reader T → Result (Reader T)
  set_read_cb cb r = if cb then ok (record r { has_read_cb = true }) else err empty_read_cb

  unfoldable pub set_detach : Bool → Reader T → Result (Reader T)
  set_detach cb r = if cb then ok (record r { has_detach_cb = true }) else err empty_detach_cb

  -- `~packet_dispatcher`
  unfoldable pub destroy_dispatcher : Dispatcher T → Dispatcher T
  unfolding detach_all_readers
  destroy_dispatcher d = detach_all_readers false d
