-- ===== src/ClientHandler/Tests.antt =====
-- Two buffers, of which the second goes out only in part.
use tcp_test.Common.{◌≡◌, refl, [], ◌∷◌}
use tcp_test.TcpClient.{sends, failed}
use tcp_test.ClientHandler.{send_pending, send_loop, broken}
use tcp_test.ClientHandler.Writing.{Sent, send_pending-Sent}

half_sent :
    send_pending ((1 ∷ 2 ∷ []) ∷ (3 ∷ 4 ∷ []) ∷ []) [] (sends 2 ∷ sends 1 ∷ failed ∷ [])
    ≡ broken (1 ∷ 2 ∷ 3 ∷ [])
unfolding send_pending send_loop
half_sent = refl

send_pending-Sent_example : Sent (1 ∷ 2 ∷ 3 ∷ 4 ∷ []) (broken (1 ∷ 2 ∷ 3 ∷ []))
unfolding send_pending send_loop
send_pending-Sent_example =
    send_pending-Sent ((1 ∷ 2 ∷ []) ∷ (3 ∷ 4 ∷ []) ∷ []) (sends 2 ∷ sends 1 ∷ failed ∷ [])
