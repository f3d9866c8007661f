-- ===== src/TcpServer/Accepting.antt =====
-- TcpServer::acceptLoop: the loop around `accept`.
use tcp_test.Common.{
  ℕ, ◌≡◌, ◌≢◌, ap, ◌∙◌, not, ◌||◌, true, false, none, List, [], ◌∷◌, ◌++◌, map, All, if◌then◌else◌,
  is_negative, arith, Bool-cases,
}
use tcp_test.Common.OrdMap.{OrdMap, find, assign, find-assign}
use tcp_test.ClientHandler.{ClientHandler, new_handler}
use tcp_test.TcpServer.{
  TcpServer, Notice, connects, notify, Outcome, continues, terminated, accept_client,
}

-- What accept returns: a descriptor, or an error, which is EINTR or EAGAIN, or another.
pub data AcceptResult : Type 0 where
  accepted : ℕ → AcceptResult
  try_again failed : AcceptResult

abbrev pub after_notices : List Notice → Outcome → Outcome
after_notices notices (continues s later) = continues s (notices ++ later)
after_notices notices (terminated later) = terminated (notices ++ later)

-- The loop, up to its `break`, or while it waits for more; `running_` and `sock_fd_` as in `s`.
unfoldable pub accept_loop : TcpServer → List AcceptResult → Outcome
accept_loop s [] = continues s []
accept_loop s (failed ∷ more) = continues s []
accept_loop s (try_again ∷ more) = accept_loop s more
accept_loop s (accepted client_fd ∷ more) =
    let entered : Outcome = elim (accept_client s client_fd) [
      | terminated notices ↦ terminated notices
      | continues s' notices ↦ after_notices notices (accept_loop s' more)
    ] in
    if not s.running || is_negative s.sock_fd then continues s [] else entered

-- The descriptors up to the error that ends the loop.
abbrev pub descriptors : List AcceptResult → List ℕ
descriptors [] = []
descriptors (failed ∷ more) = []
descriptors (try_again ∷ more) = descriptors more
descriptors (accepted fd ∷ more) = fd ∷ descriptors more

-- A table with new handlers for these descriptors.
unfoldable pub enter : List ℕ → OrdMap ClientHandler → OrdMap ClientHandler
enter [] clients = clients
enter (fd ∷ fds) clients = enter fds (assign fd (new_handler fd) clients)

-- Descriptors that differ and are not in the table.
abbrev pub Fresh : OrdMap ClientHandler → List ℕ → Type 0
Fresh clients [] = Unit {0}
Fresh clients (fd ∷ fds) =
    (find fd clients ≡ none) × All (λ (other : ℕ). fd ≢ other) fds × Fresh clients fds

assign-Fresh :
    (clients : OrdMap ClientHandler) (fd : ℕ) (h : ClientHandler) (fds : List ℕ)
    → All (λ (other : ℕ). fd ≢ other) fds
    → Fresh clients fds
    → Fresh (assign fd h clients) fds
assign-Fresh clients fd h [] ne f = tt
assign-Fresh clients fd h (other ∷ fds) (n, ne) (missing, differ, f) = (
  ground (arith, find-assign fd other h clients, n, missing),
  differ,
  assign-Fresh clients fd h fds ne f,
)

accept_loop-step :
    (fd : ℕ) (more : List AcceptResult) (s : TcpServer)
    → s.running ≡ true
    → is_negative s.sock_fd ≡ false
    → find fd s.clients ≡ none
    → accept_loop s (accepted fd ∷ more)
      ≡ after_notices
          (notify s (connects fd))
          (accept_loop (record s { clients = assign fd (new_handler fd) s.clients }) more)
unfolding accept_loop accept_client
accept_loop-step fd more s r o missing = simp (accept_loop, accept_client, r, o, missing)

-- A server that runs and listens accepts every connection up to the first other error than EINTR and
-- EAGAIN, if the system's descriptors differ and none is in the table: each has a new handler there, and
-- the connect callback, if it is set, is called for each, in their order.
pub accept_loop-enters :
    (results : List AcceptResult) (s : TcpServer)
    → s.running ≡ true
    → is_negative s.sock_fd ≡ false
    → Fresh s.clients (descriptors results)
    → accept_loop s results
      ≡ continues
          (record s { clients = enter (descriptors results) s.clients })
          (if s.has_connect_callback then map connects (descriptors results) else [])
unfolding accept_loop enter
accept_loop-enters [] s r o f = ground arith
accept_loop-enters (failed ∷ more) s r o f = ground arith
accept_loop-enters (try_again ∷ more) s r o f = accept_loop-enters more s r o f
accept_loop-enters (accepted fd ∷ more) s r o (missing, differ, f) =
    let s' : TcpServer = record s { clients = assign fd (new_handler fd) s.clients } in
    let ih =
      accept_loop-enters more s' r o
        (assign-Fresh s.clients fd (new_handler fd) (descriptors more) differ f) in
    accept_loop-step fd more s r o missing
    ∙ ap (after_notices (notify s (connects fd))) ih
    ∙ ap (continues (record s { clients = enter (descriptors more) s'.clients }))
        (ground (arith, Bool-cases s.has_connect_callback))
