-- ===== src/DemoServer/Startup.antt =====
-- server.cpp, start and acceptConnections of class Server, and main: the listening socket, the
-- connections with their threads, and the checksum flag.
use tcp_test.Common.{
  ◌*◌, ◌≡◌, refl, Bool, true, false, List, [], ◌∷◌, ◌++◌, length, map, arith, if◌then◌else◌, ℤ,
  is_negative, Bool-cases, append-nil, append_snoc, inl, inr,
}
use tcp_test.Common.Text.{Text, same_text}
use tcp_test.StreamManager.{StreamManager, new_manager}
use tcp_test.TcpClient.{Call, opens, spawns}

-- `start` up to the call of acceptConnections, with what socket, the second setsockopt, bind and
-- listen return: whether it comes to that call.
unfoldable pub start : ℤ → ℤ → ℤ → ℤ → Bool × List Call
start server_fd option_set bound listening =
    if is_negative server_fd
    then (false, [])
    else if is_negative option_set
    then (false, opens server_fd ∷ [])
    else if is_negative bound
    then (false, opens server_fd ∷ [])
    else if is_negative listening
    then (false, opens server_fd ∷ [])
    else (true, opens server_fd ∷ [])

-- What the two threads of a connection are given.
pub record Connection : Type 0 where
  pub client_fd : ℤ
  pub stream_manager : StreamManager

abbrev pub connection_of : ℤ → Connection
connection_of client_fd = record { client_fd = client_fd; stream_manager = new_manager }

-- A round of the loop, with what accept returns.
unfoldable pub accept_connection : List Connection → ℤ → List Connection × List Call
accept_connection connections client_fd =
    if is_negative client_fd
    then (connections, [])
    else (connections ++ (connection_of client_fd ∷ []), spawns ∷ spawns ∷ [])

-- The loop, while `running_`, which nothing resets.
unfoldable pub accept_connections : List Connection → List ℤ → List Connection × List Call
accept_connections connections [] = (connections, [])
accept_connections connections (client_fd ∷ more) =
    let (connections', calls) = accept_connection connections client_fd in
    let (connections'', later) = accept_connections connections' more in
    (connections'', calls ++ later)

-- "--checksum"
unfoldable pub checksum_flag : Text
checksum_flag = 45 ∷ 45 ∷ 99 ∷ 104 ∷ 101 ∷ 99 ∷ 107 ∷ 115 ∷ 117 ∷ 109 ∷ []

-- The loop over the arguments.
unfoldable pub enables_checksum : Bool → List Text → Bool
enables_checksum enabled [] = enabled
enables_checksum enabled (argument ∷ arguments) =
    enables_checksum (if same_text argument checksum_flag then true else enabled) arguments

-- The descriptors that accept has returned.
unfoldable pub accepted : List ℤ → List ℤ
accepted [] = []
accepted (fd ∷ fds) = let rest = accepted fds in if is_negative fd then rest else fd ∷ rest

-- Every accepted descriptor gets a new manager of its own, in the order of the calls, and two threads;
-- a call of accept that fails changes nothing.
pub accept_connections_lem :
    (connections : List Connection) (fds : List ℤ)
    → let (connections', calls) = accept_connections connections fds in
      (connections' ≡ connections ++ map connection_of (accepted fds))
      × (length calls ≡ 2 * length (accepted fds))
unfolding accept_connections accept_connection accepted
accept_connections_lem connections [] = (ground (arith, append-nil connections), refl)
accept_connections_lem connections (fd ∷ fds) =
    let (same, count) = accept_connections_lem connections fds in
    let (more, count') = accept_connections_lem (connections ++ (connection_of fd ∷ [])) fds in
    elim (Bool-cases (is_negative fd)) [
      | inl failed ↦ ground (arith, failed, same, count)
      | inr there ↦ ground (
        arith,
        there,
        more,
        count',
        append_snoc connections (connection_of fd) (map connection_of (accepted fds)),
      )
    ]
