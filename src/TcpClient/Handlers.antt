-- ===== src/TcpClient/Handlers.antt =====
-- The response handlers: however the threads that ask, the reader and the timeouts interleave, the
-- reader never sets a promise twice.
use tcp_test.Common.{ℕ, ◌≡◌, refl, Option, none, some, List, [], ◌∷◌, arith}
use tcp_test.Common.OrdMap.{find}
use tcp_test.Frame.{Frame}
use tcp_test.TcpClient.{TcpClient, new_client, register, unregister, deliver, disconnect}
use tcp_test.TcpClient.Waiting.{
  IsWaiting, new_client-IsWaiting, register-IsWaiting, unregister-IsWaiting,
}
use tcp_test.TcpClient.Deliveries.{delivery}

-- What changes the handlers: a thread has registered one, the reader delivers a frame, a thread drops
-- its handler after a timeout or a failed write, `disconnect` drops all.
pub data Event : Type 0 where
  registers drops : ℕ → Event
  delivers : Frame → Event
  clears : Event

unfoldable pub happens : TcpClient → Event → Option TcpClient
happens c (registers id) = some (register c id).1
happens c (drops id) = some (unregister c id)
happens c (delivers f) = deliver c f
happens c clears = some (disconnect c).0

unfoldable pub run : TcpClient → List Event → Option TcpClient
run c [] = some c
run c (e ∷ es) = elim (happens c e) [ none ↦ none | some c' ↦ run c' es ]

happens-IsWaiting :
    (c : TcpClient) (e : Event)
    → IsWaiting c
    → (c' : TcpClient) × (happens c e ≡ some c') × IsWaiting c'
unfolding happens disconnect find
happens-IsWaiting c (registers id) w = ((register c id).1, refl, register-IsWaiting c id w)
happens-IsWaiting c (drops id) w = (unregister c id, refl, unregister-IsWaiting c id w)
happens-IsWaiting c (delivers f) w =
    ((delivery c f w).after, (delivery c f w).runs, (delivery c f w).waiting)
happens-IsWaiting c clears w = (
  (disconnect c).0,
  refl,
  record {
    keys = tt;
    created = λ k p e. ground (arith, e);
    unset = λ k p e. ground (arith, e);
    own = λ j k p e e'. ground (arith, e);
    fresh = w.fresh;
  },
)

run-from :
    (es : List Event) (c : TcpClient)
    → IsWaiting c
    → (c' : TcpClient) × (run c es ≡ some c') × IsWaiting c'
unfolding run
run-from [] c w = (c, refl, w)
run-from (e ∷ es) c w =
    let (c', stepped, w') = happens-IsWaiting c e w in
    let (c'', ran, w'') = run-from es c' w' in (c'', rw (stepped, run) ran, w'')

-- However registrations, deliveries, dropped handlers and disconnects follow one another from a new
-- client on, the reader never sets a promise that has a value, and every handler that is left has a
-- promise of its own without a value.
pub run-IsWaiting : (es : List Event) → (c : TcpClient) × (run new_client es ≡ some c) × IsWaiting c
run-IsWaiting es = run-from es new_client new_client-IsWaiting
