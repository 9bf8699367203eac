-- ===== src/Web/Connections.antt =====
-- src/web_server.cpp: the listening socket, and the clients that are served at once. The acceptor is one
-- thread; a client's thread ends at any time. Times out of memory or of threads are not modelled.
pub mod Capped
use shadow_se.Base.{
  ℕ, ◌+◌, ◌-◌, ◌%◌, ◌^◌, Bool, true, false, not, Option, none, some, List, [], ◌∷◌, leb, ◌==◌,
  if◌then◌else◌,
}

-- What the calls of `start` answer.
pub record Calls : Type 0 where
  pub socket : Option ℕ
  pub bound : Bool
  pub listening : Bool
  pub port : ℕ

pub data StartError : Type 0 where
  no_socket no_bind no_listen : StartError

-- The members of the server, and the sockets that are open.
pub record Listener : Type 0 where
  pub listen_fd : Option ℕ
  pub port : ℕ
  pub running : Bool
  pub open_fds : List ℕ

-- `::close`
unfoldable pub close_fd : ℕ → List ℕ → List ℕ
close_fd fd [] = []
close_fd fd (x ∷ fds) = if x == fd then fds else x ∷ close_fd fd fds

-- `if (listenFd_ >= 0)` with `listenFd_ = -1`.
unfoldable pub without_fd : Option ℕ → Listener → Listener
unfolding close_fd
without_fd none l = l
without_fd (some fd) l = record l { listen_fd = none; open_fds = close_fd fd l.open_fds }

-- `start` behind the call of `socket`; the new socket stands in front of the open ones.
unfoldable pub start_on : Calls → Option ℕ → Listener → Option StartError × Listener
unfolding without_fd
start_on calls none l = (some no_socket, record l { listen_fd = none })
start_on calls (some fd) l =
    let opened = record l { listen_fd = some fd; open_fds = fd ∷ l.open_fds } in
    if not calls.bound
    then (some no_bind, without_fd (some fd) opened)
    else if not calls.listening
    then (some no_listen, without_fd (some fd) opened)
    else (none, record opened { port = calls.port; running = true })

unfoldable pub start : Calls → Listener → Option StartError × Listener
unfolding start_on
start calls l = start_on calls calls.socket l

unfoldable pub stop_listener : Listener → Listener
unfolding without_fd
stop_listener l = record (without_fd l.listen_fd l) { running = false }

-- The clients that have a thread, those that were turned away, and those whose thread has ended.
pub record Server : Type 0 where
  pub active : ℕ
  pub handling : List ℕ
  pub turned_away : List ℕ
  pub served : List ℕ

abbrev pub idle : Server
idle = record { active = 0; handling = []; turned_away = []; served = [] }

-- One round of `runForever` with a client.
unfoldable pub accept_client : ℕ → ℕ → Server → Server
accept_client max_conns client s =
    if leb max_conns s.active
    then record s { turned_away = client ∷ s.turned_away }
    else record s { active = (s.active + 1) % 2 ^ 64; handling = client ∷ s.handling }

-- The end of a client's thread; the other clients that have one are given.
unfoldable pub end_client : ℕ → List ℕ → Server → Server
end_client client others s = record s {
  active = (s.active + 2 ^ 64 - 1) % 2 ^ 64;
  handling = others;
  served = client ∷ s.served;
}
