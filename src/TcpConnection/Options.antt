-- ===== src/TcpConnection/Options.antt =====
-- The options of a TcpServer. It declares `sock_fd_` again, so its own methods store the listening
-- descriptor beside the connection's, which the option methods read.
use tcp_test.Common.{List, [], ◌∷◌, ℤ}
use tcp_test.TcpConnection.{TcpConnection}
use tcp_test.TcpServer.{TcpServer, Outcome, continues, terminated, start, stop}

-- A TcpServer with the part that it inherits.
pub record Inherited : Type 0 where
  pub base : TcpConnection
  pub server : TcpServer

-- Calls of `start`, with what the system returns, and of `stop`, as long as the program runs.
pub data Use : Type 0 where
  starts : ℤ → ℤ → ℤ → Use
  stops : Use

abbrev stopped : TcpServer → Outcome → TcpServer
stopped s (continues s' notices) = s'
stopped s (terminated notices) = s

unfoldable pub use_server : Inherited → List Use → Inherited
use_server i [] = i
use_server i (starts fd bound listening ∷ uses) =
    let (success, s, calls) = start i.server fd bound listening in
    use_server (record i { server = s }) uses
use_server i (stops ∷ uses) =
    let (outcome, calls) = stop i.server in
    use_server (record i { server = stopped i.server outcome }) uses
