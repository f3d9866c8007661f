-- ===== src/TcpClient/Requests.antt =====
-- What `write` sends, and how a request ends.
use tcp_test.Common.{
  take-add, ℕ, ◌+◌, ◌≡◌, refl, ◌∙◌, Bool, true, false, none, some, List, [], ◌∷◌, arith, ltb,
  if◌then◌else◌, Option-cases, inl, inr, length, take, take_all,
}
use tcp_test.Common.OrdMap.{find, erase-assign, find-assign}
use tcp_test.Frame.{Frame, serialize}
use tcp_test.TcpClient.{
  TcpClient, get_next_stream_id, register, unregister, SendResult, sends, interrupted, failed,
  wrote, refused, blocked, write_loop, write, request_frame, answered, unanswered, wait_response,
  send_and_wait_response,
}
use tcp_test.TcpClient.Waiting.{
  IsWaiting, register-IsWaiting, unregister-IsWaiting, find-unregister,
  get_next_stream_id-IsWaiting,
}
use tcp_test.TcpClient.Deliveries.{first_payload, Deliveries, deliveries}

-- The bytes that calls of `send` can take in all.
unfoldable pub capacity : List SendResult → ℕ
capacity [] = 0
capacity (sends n ∷ more) = n + capacity more
capacity (interrupted ∷ more) = capacity more
capacity (failed ∷ more) = 0

unfoldable pub can_fail : List SendResult → Bool
can_fail [] = false
can_fail (sends n ∷ more) = can_fail more
can_fail (interrupted ∷ more) = can_fail more
can_fail (failed ∷ more) = true

write_loop_lem :
    (data_ : List ℕ) (total_sent : ℕ) (results : List SendResult)
    → write_loop data_ total_sent (take total_sent data_) results ≡ (
        if ltb (total_sent + capacity results) (length data_)
        then (if can_fail results
            then refused (take (total_sent + capacity results) data_)
            else blocked (take (total_sent + capacity results) data_))
        else wrote data_)
unfolding write_loop capacity can_fail
write_loop_lem data_ t [] = ground (arith, take_all t data_)
write_loop_lem data_ t (sends n ∷ more) =
    ground (arith, take_all t data_, take-add data_ t n (t + n), write_loop_lem data_ (t + n) more)
write_loop_lem data_ t (interrupted ∷ more) =
    ground (arith, take_all t data_, write_loop_lem data_ t more)
write_loop_lem data_ t (failed ∷ more) = ground (arith, take_all t data_)

-- `write` sends the data completely exactly if the calls of `send` before the first failure can take
-- all of it. Otherwise it has sent a beginning, as long as what they took, and gives up at the failure
-- or, where there is none, is still in its loop.
pub write_lem :
    (data_ : List ℕ) (results : List SendResult)
    → write data_ results ≡ (
        if ltb (capacity results) (length data_)
        then (if can_fail results
            then refused (take (capacity results) data_)
            else blocked (take (capacity results) data_))
        else wrote data_)
unfolding write
write_lem data_ results = ground (arith, write_loop_lem data_ 0 results)

-- The end of a wait for a registered promise.
wait_answered :
    (c : TcpClient) (id p : ℕ) (during late : List Frame) (v : List ℕ)
    → IsWaiting c
    → find id c.response_handlers ≡ some p
    → first_payload id during ≡ some v
    → (r : TcpClient) × (wait_response c p id during late ≡ answered v r)
      × (find id r.response_handlers ≡ none)
      × IsWaiting r
unfolding wait_response
wait_answered c id p during late v w e h =
    let d : Deliveries c during = deliveries during c w in
    (
      d.after,
      rw (d.runs, d.sets id p e ∙ h, wait_response) refl,
      ground (arith, d.handlers id, h),
      d.waiting,
    )

wait_unanswered :
    (c : TcpClient) (id p : ℕ) (during late : List Frame)
    → IsWaiting c
    → find id c.response_handlers ≡ some p
    → first_payload id during ≡ none
    → (r : TcpClient) × (wait_response c p id during late ≡ unanswered r)
      × (find id r.response_handlers ≡ none)
      × IsWaiting r
unfolding wait_response
wait_unanswered c id p during late w e h =
    let d : Deliveries c during = deliveries during c w in
    let l : Deliveries d.after late = deliveries late d.after d.waiting in
    (
      unregister l.after id,
      rw (d.runs, d.sets id p e ∙ h, l.runs, wait_response) refl,
      find-unregister l.after id l.waiting,
      unregister-IsWaiting l.after id l.waiting,
    )

-- Where `write` has sent the whole request, `sendAndWaitResponse` returns: with the payload of the
-- first frame of its stream that the reader delivers during the wait, and with `false` if there is
-- none. Either way no handler is left under its id, and the others still have promises of their own.
pub send_and_wait_response_lem :
    (enabled : Bool) (uninitialised : ℕ) (c : TcpClient) (payload out : List ℕ)
    (results : List SendResult) (during late : List Frame)
    → IsWaiting c
    → write (serialize enabled (request_frame uninitialised c.next_stream_id payload)) results
      ≡ wrote out
    → (r : TcpClient) × (send_and_wait_response enabled uninitialised c payload results during late
        ≡ (
          c.next_stream_id,
          elim (first_payload c.next_stream_id during) [
            | none ↦ unanswered r
            | some v ↦ answered v r
          ],
        ))
      × (find c.next_stream_id r.response_handlers ≡ none)
      × IsWaiting r
unfolding send_and_wait_response get_next_stream_id register
send_and_wait_response_lem enabled u c payload out results during late w sent =
    elim (Option-cases (first_payload id during)) [
      | inl h ↦
          let (r, e, g, w') = wait_unanswered c' id c.promises during late registered there h in
          (r, rw (sent, h, e) refl, g, w')
      | inr (v, h) ↦
          let (r, e, g, w') = wait_answered c' id c.promises during late v registered there h in
          (r, rw (sent, h, e) refl, g, w')
    ]
  where
    id : ℕ
    id = c.next_stream_id

    c' : TcpClient
    c' = (register (get_next_stream_id c).1 id).1

    registered : IsWaiting c'
    registered = register-IsWaiting (get_next_stream_id c).1 id (get_next_stream_id-IsWaiting c w)

    there : find id c'.response_handlers ≡ some c.promises
    there = ground (arith, find-assign id id c.promises c.response_handlers)

-- Where `write` gives up, `sendAndWaitResponse` returns `false` and the handler is gone again.
pub send_and_wait_response_refused :
    (enabled : Bool) (uninitialised : ℕ) (c : TcpClient) (payload out : List ℕ)
    (results : List SendResult) (during late : List Frame)
    → IsWaiting c
    → find c.next_stream_id c.response_handlers ≡ none
    → write (serialize enabled (request_frame uninitialised c.next_stream_id payload)) results
      ≡ refused out
    → (r : TcpClient) × (send_and_wait_response enabled uninitialised c payload results during late
        ≡ (c.next_stream_id, unanswered r))
      × (r.response_handlers ≡ c.response_handlers)
unfolding send_and_wait_response get_next_stream_id register unregister
send_and_wait_response_refused enabled u c payload out results during late w none_there refused_ = (
  unregister (register (get_next_stream_id c).1 c.next_stream_id).1 c.next_stream_id,
  rw refused_ refl,
  erase-assign c.next_stream_id c.promises c.response_handlers none_there,
)
