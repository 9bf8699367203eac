-- ===== src/Web/Connections/Capped.antt =====
-- src/web_server.cpp: the limit on the clients that are served at once.
use shadow_se.Base.{
  ℕ, ◌+◌, ◌^◌, ◌≤◌, ◌<◌, ◌≡◌, refl, ap, ◌∙◌, false, Option, none, some, List, ◌∷◌, ◌++◌, length,
  length-append, arith,
}
use shadow_se.Web.Connections.{
  Calls, Listener, Server, idle, accept_client, end_client, start, start_on, stop_listener,
  without_fd, close_fd,
}

module _ (max_conns : ℕ) where
  pub data Step : Server → Server → Type 0 where
    accepted : (s : Server) (client : ℕ) → Step s (accept_client max_conns client s)
    ended :
        (s : Server) (xs : List ℕ) (client : ℕ) (ys : List ℕ)
        → s.handling ≡ xs ++ client ∷ ys
        → Step s (end_client client (xs ++ ys) s)

  pub data Reach : Server → Type 0 where
    here : Reach idle
    next : {s t : Server} → Reach s → Step s t → Reach t

  -- The clients that were accepted so far.
  abbrev pub clients : {s : Server} → Reach s → ℕ
  clients here = 0
  clients (next r (accepted s client)) = clients r + 1
  clients (next r (ended s xs client ys e)) = clients r

  record IsCounted (s : Server) : Type 0 where
    counted : s.active ≡ length s.handling
    capped : s.active ≤ max_conns

  Step-IsCounted : {s t : Server} → max_conns < 2 ^ 64 → Step s t → IsCounted s → IsCounted t
  unfolding accept_client end_client
  Step-IsCounted word (accepted s client) v = record {
    counted = ground (arith, v.counted, v.capped, word);
    capped = ground (arith, v.capped, word);
  }
  Step-IsCounted word (ended s xs client ys e) v =
      let n = ap length e ∙ length-append xs (client ∷ ys) in
      record {
        counted = omega (arith, v.counted, v.capped, n, length-append xs ys);
        capped = omega (arith, v.counted, v.capped, n);
      }

  Reach-IsCounted : {s : Server} → max_conns < 2 ^ 64 → Reach s → IsCounted s
  Reach-IsCounted word here = record { counted = refl; capped = omega arith }
  Reach-IsCounted word (next r st) = Step-IsCounted word st (Reach-IsCounted word r)

  accept_client-sum :
      (client : ℕ) (s : Server)
      → (let t = accept_client max_conns client s in
          length t.handling + length t.turned_away + length t.served)
        ≡ length s.handling + length s.turned_away + length s.served + 1
  unfolding accept_client
  accept_client-sum client s = ground arith

  clients-sum :
      {s : Server} (r : Reach s)
      → clients r ≡ length s.handling + length s.turned_away + length s.served
  unfolding end_client
  clients-sum here = refl
  clients-sum (next r (accepted s client)) =
      omega (arith, clients-sum r, accept_client-sum client s)
  clients-sum (next r (ended s xs client ys e)) =
      let n = ap length e ∙ length-append xs (client ∷ ys) in
      omega (arith, clients-sum r, n, length-append xs ys)

  -- However clients come and their threads end, with the limit on 64 bits, no more than `max_conns` clients
  -- have a thread and `active_` is their number, and each client that was accepted has one, was turned away
  -- or was served.
  pub Reach-bounded :
      {s : Server} (r : Reach s)
      → max_conns < 2 ^ 64
      → (length s.handling ≤ max_conns)
        × (s.active ≡ length s.handling)
        × (clients r ≡ length s.handling + length s.turned_away + length s.served)
  Reach-bounded r word =
      let v = Reach-IsCounted word r in
      (omega (arith, v.counted, v.capped), v.counted, clients-sum r)

close_fd_first : (fd : ℕ) (fds : List ℕ) → close_fd fd (fd ∷ fds) ≡ fds
unfolding close_fd
close_fd_first fd fds = ground arith

start_on-stop :
    (calls : Calls) (fd : Option ℕ) (l : Listener)
    → (let stopped = stop_listener (start_on calls fd l).1 in
        (stopped.open_fds ≡ l.open_fds) × (stopped.listen_fd ≡ none) × (stopped.running ≡ false))
unfolding start_on stop_listener without_fd
start_on-stop calls none l = (refl, refl, refl)
start_on-stop calls (some fd) l = ground (arith, close_fd_first fd l.open_fds)

-- Whatever the calls of `start` answer, a server that is stopped after it has no listening socket and does
-- not run, and the sockets that are open are those that were open before: no failure leaves one behind.
pub start-stop :
    (calls : Calls) (l : Listener)
    → (let stopped = stop_listener (start calls l).1 in
        (stopped.open_fds ≡ l.open_fds) × (stopped.listen_fd ≡ none) × (stopped.running ≡ false))
unfolding start
start-stop calls l = start_on-stop calls calls.socket l
