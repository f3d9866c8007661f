-- ===== src/TcpConnection/Tests.antt =====
-- A server that starts on descriptor 3: the buffer's size cannot be set.
use tcp_test.Common.{List, [], ◌∷◌, pos}
use tcp_test.TcpConnection.Options.{Use, starts, stops}

-- It was stopped before.
abbrev before : List Use
before = starts (pos 4) (pos 0) (pos 0) ∷ stops ∷ []
