-- ===== src/TcpClient/Tests.antt =====
-- Requests against short answers, and a client that connects twice.
use tcp_test.Common.{◌≡◌, refl, true, false, none, some, List, [], ◌∷◌, All, arith, pos, negsuc}
use tcp_test.Common.OrdMap.{find}
use tcp_test.Frame.{Frame, serialize, put_word, calculate_checksum}
use tcp_test.Frame.RoundTrip.{Fits}
use tcp_test.Samples.{numbered, numbered-Fits}
use tcp_test.TcpClient.{
  TcpClient, new_client, connect, sends, interrupted, failed, refused, write, write_loop,
  request_frame, answered, send_and_wait_response,
}
use tcp_test.TcpClient.Waiting.{IsWaiting, new_client-IsWaiting}
use tcp_test.TcpClient.Deliveries.{first_payload}
use tcp_test.TcpClient.Handlers.{registers, delivers, drops, clears, run, run-IsWaiting}
use tcp_test.TcpClient.Requests.{capacity, can_fail, write_lem, send_and_wait_response_lem}
use tcp_test.TcpClient.Connection.{
  use_all, use_client, connects, open_after, is_terminated, use_all-new_client,
}

write_lem_example :
    write (1 ∷ 2 ∷ 3 ∷ []) (sends 2 ∷ interrupted ∷ failed ∷ []) ≡ refused (1 ∷ 2 ∷ [])
unfolding write write_loop capacity can_fail
write_lem_example = write_lem (1 ∷ 2 ∷ 3 ∷ []) (sends 2 ∷ interrupted ∷ failed ∷ [])

run-IsWaiting_example :
    (c : TcpClient) × (run new_client (
        registers 7
        ∷ delivers (numbered 7 1)
        ∷ delivers (numbered 7 2)
        ∷ registers 7
        ∷ drops 7
        ∷ clears
        ∷ [])
      ≡ some c)
    × IsWaiting c
run-IsWaiting_example = run-IsWaiting (
    registers 7
    ∷ delivers (numbered 7 1)
    ∷ delivers (numbered 7 2)
    ∷ registers 7
    ∷ drops 7
    ∷ clears
    ∷ [])

-- The request's stream is 0. Of the two frames of that stream the first is the response.
send_and_wait_response_lem_example :
    (r : TcpClient) × (send_and_wait_response false 9 new_client
        (5 ∷ [])
        (sends 10 ∷ interrupted ∷ sends 7 ∷ [])
        (numbered 1 8 ∷ numbered 0 1 ∷ numbered 0 2 ∷ [])
        []
      ≡ (0, answered (numbered 0 1).payload r))
    × (find 0 r.response_handlers ≡ none)
    × IsWaiting r
unfolding first_payload
send_and_wait_response_lem_example =
    send_and_wait_response_lem false 9 new_client (5 ∷ [])
      (serialize false (request_frame 9 0 (5 ∷ []))) (sends 10 ∷ interrupted ∷ sends 7 ∷ [])
      (numbered 1 8 ∷ numbered 0 1 ∷ numbered 0 2 ∷ []) [] new_client-IsWaiting
      (unfold write write_loop serialize request_frame put_word calculate_checksum in refl)

abbrev answers : List Frame
answers = numbered 4 1 ∷ numbered 3 2 ∷ []

answers-Fits : All Fits answers
answers-Fits = (
  numbered-Fits 4 1 (omega arith) (omega arith),
  (numbered-Fits 3 2 (omega arith) (omega arith), tt),
)

use_all-new_client_example :
    let (c, calls) = use_all new_client (
      connects (pos 5) true (negsuc 0)
      ∷ connects (pos 6) true (pos 0)
      ∷ connects (pos 7) true (pos 0)
      ∷ []) in
    (open_after [] calls ≡ pos 6 ∷ []) × (is_terminated calls ≡ false) × (c.joinable ≡ true)
unfolding use_all use_client connect
use_all-new_client_example = use_all-new_client (
    connects (pos 5) true (negsuc 0)
    ∷ connects (pos 6) true (pos 0)
    ∷ connects (pos 7) true (pos 0)
    ∷ [])
