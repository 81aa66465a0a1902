-- ===== src/Network/Server/Running.antt =====
-- How the servers of src/network/tcp_server.cpp are made and started, and the threads of
-- src/main.cpp that run them.
use streaming.Prelude.{
  ℕ, suc, ◌+◌, ◌≡◌, refl, ◌∙◌, arith, Bool, true, false, List, [], ◌∷◌, ◌++◌, if◌then◌else◌,
  Bool-cases, inl, inr,
}
use streaming.Prelude.Outcome.{Result, ok, err, no_tcp_address}
use streaming.Prelude.Decimal.{to_string}
use streaming.Network.Sessions.{Manager}
use streaming.Network.Server.{Server, do_accept, restart}

-- `enum class Ip_Type`
pub data IpType : Type 0 where
  ipv4 ipv6 : IpType

-- "0.0.0.0", "0::0", "ipv4" and "ipv6"
abbrev pub default_local_ipv4 : List ℕ
default_local_ipv4 = 48 ∷ 46 ∷ 48 ∷ 46 ∷ 48 ∷ 46 ∷ 48 ∷ []

abbrev pub default_local_ipv6 : List ℕ
default_local_ipv6 = 48 ∷ 58 ∷ 58 ∷ 48 ∷ []

abbrev pub ip_text : IpType → List ℕ
ip_text ipv4 = 105 ∷ 112 ∷ 118 ∷ 52 ∷ []
ip_text ipv6 = 105 ∷ 112 ∷ 118 ∷ 54 ∷ []

abbrev pub local_address : IpType → List ℕ
local_address ipv4 = default_local_ipv4
local_address ipv6 = default_local_ipv6

-- "TCP[", "|" and "]"
abbrev pub tcp_prefix : List ℕ
tcp_prefix = 84 ∷ 67 ∷ 80 ∷ 91 ∷ []

abbrev pub bar : List ℕ
bar = 124 ∷ []

abbrev pub tcp_suffix : List ℕ
tcp_suffix = 93 ∷ []

-- The text of `info()` for a descriptor that is a number; it is made once and kept.
unfoldable pub server_text : ℕ → IpType → ℕ → List ℕ
unfolding to_string
server_text port ip_type raw_fd =
    tcp_prefix
    ++ (to_string port ++ (bar ++ (ip_text ip_type ++ (bar ++ (to_string raw_fd ++ tcp_suffix)))))

unfoldable pub info : ℕ → IpType → ℕ → Server → List ℕ × Server
unfolding server_text
info port ip_type raw_fd sv = by_name sv.server_name
  where
    by_name : List ℕ → List ℕ × Server
    by_name [] =
        let made = server_text port ip_type raw_fd in (made, record sv { server_name = made })
    by_name (c ∷ cs) = (sv.server_name, sv)

-- The acceptor's calls are boost's. `resolve` gives the endpoints of an address and a port, and
-- `listening` the descriptor of an acceptor that was opened, bound and listens, or its exception.
module _ (resolve : List ℕ → List ℕ → List ℕ) (listening : ℕ → Result ℕ) where
  -- The constructor. The exception of an address without endpoints ends the program.
  unfoldable pub tcp_server : Manager → ℕ → IpType → Result Server
  unfolding info to_string
  tcp_server blank port ip_type = by_endpoints (resolve (local_address ip_type) (to_string port))
    where
      named : Result ℕ → Result Server
      named (err e) = err e
      named (ok raw_fd) =
          ok
            (info port ip_type raw_fd (record {
              is_open = true;
              accepts = 0;
              session_index = 0;
              server_name = [];
              manager = blank;
              next = 0;
            })).1

      by_endpoints : List ℕ → Result Server
      by_endpoints [] = err no_tcp_address
      by_endpoints (endpoint ∷ more) = named (listening endpoint)

-- `start`: the function for new sessions is `session_alloc`.
unfoldable pub start : Server → Server
unfolding do_accept
start sv = do_accept sv

-- One thread of `main`. What it meets are the ends of `io_context.run()`, `true` for a return and
-- `false` for an exception, after which both servers restart; what else happens to them meanwhile
-- is left out.
unfoldable pub worker : List Bool → Server × Server → Server × Server
unfolding restart
worker [] servers = servers
worker (true ∷ ends) servers = servers
worker (false ∷ ends) (rtmp_server, http_server) =
    worker ends (restart rtmp_server, restart http_server)

-- The exceptions before the first return.
unfoldable pub exceptions : List Bool → ℕ
exceptions [] = 0
exceptions (true ∷ ends) = 0
exceptions (false ∷ ends) = suc (exceptions ends)

-- What `n` restarts add.
abbrev pub added : Server → ℕ → ℕ
added sv n = if sv.is_open then n else 0

restart_adds :
    (sv : Server) (n : ℕ)
    → (restart sv).accepts + added (restart sv) n ≡ sv.accepts + added sv (suc n)
unfolding restart do_accept
restart_adds sv n = elim (Bool-cases sv.is_open) [
  | inl is_open ↦ rw is_open (omega arith)
  | inr is_closed ↦ rw is_closed refl
]

added_zero : (sv : Server) → sv.accepts ≡ sv.accepts + added sv 0
added_zero sv = ground arith

-- Each exception that a thread meets puts one more accept to each open server, beside those that
-- still wait, and none to a closed one: the accepts that wait grow with the exceptions.
pub worker-accepts :
    (ends : List Bool) (rtmp_server http_server : Server)
    → ((worker ends (rtmp_server, http_server)).0.accepts
        ≡ rtmp_server.accepts + added rtmp_server (exceptions ends))
      × ((worker ends (rtmp_server, http_server)).1.accepts
          ≡ http_server.accepts + added http_server (exceptions ends))
unfolding worker exceptions
worker-accepts [] a b = (added_zero a, added_zero b)
worker-accepts (true ∷ ends) a b = (added_zero a, added_zero b)
worker-accepts (false ∷ ends) a b =
    let (one, two) = worker-accepts ends (restart a) (restart b) in
    (one ∙ restart_adds a (exceptions ends), two ∙ restart_adds b (exceptions ends))
