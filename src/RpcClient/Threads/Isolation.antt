-- ===== src/RpcClient/Threads/Isolation.antt =====
-- Whose answer a thread prints, and that it can come.
use tcp_test.Common.{
  List, sym, ◌∙◌, ℕ, update, update_own, zero, suc, ◌+◌, ◌*◌, ◌^◌, ◌≤◌, ◌<◌, ◌≡◌, refl, ap, subst,
  ◌⊎◌, inl, inr, Bool, true, false, if◌then◌else◌, some, [], ◌∷◌, ◌++◌, length, length-append,
  List-cases, arith, Bool-cases, ℤ, is_negative,
}
use tcp_test.Frame.{is_empty}
use tcp_test.Common.OrdMap.{find}
use tcp_test.TcpClient.{TcpClient, new_client, connect}
use tcp_test.TcpClient.Waiting.{IsWaiting, new_client-IsWaiting}
use tcp_test.TcpClient.Deliveries.{delivery}
use tcp_test.RpcServer.{greeting}
use tcp_test.RpcServer.Answers.{answer}
use tcp_test.RpcClient.{Printed, got_response, no_response}
use tcp_test.RpcClient.Threads.{
  Phase, ready, registered, waiting, timed_out, done, Session, message_of, Step, takes, registers,
  sends, fails, garbles, serves, delivers, returns, times_out, gives_up, Reach, start, next,
}
use tcp_test.RpcClient.Threads.Ready.{is_ready, ready_below}
use tcp_test.RpcClient.Threads.Invariant.{Flying, Awaits, IsConsistent}
use tcp_test.RpcClient.Threads.Numbers.{takes-IsConsistent}
use tcp_test.RpcClient.Threads.Steps.{
  registers-IsConsistent, sends-IsConsistent, times_out-IsConsistent, drops-IsConsistent,
  returns-IsConsistent, phases-Good, phases-Holds,
}
use tcp_test.RpcClient.Threads.Network.{serves-IsConsistent, delivers-IsConsistent}

abbrev connected_client : ℤ → TcpClient
connected_client descriptor = record new_client {
  socket = descriptor;
  running = true;
  joinable = true;
}

connect_new :
    (d : ℤ) (a : Bool) (r : ℤ)
    → (connect new_client d a r).0 ≡ true
    → (connect new_client d a r).1 ≡ connected_client d
unfolding connect
connect_new d a r e =
    ground (arith, e, Bool-cases (is_negative d), Bool-cases a, Bool-cases (is_negative r))

connected-IsWaiting : (d : ℤ) → IsWaiting (connected_client d)
connected-IsWaiting d = record {
  keys = w.keys;
  created = w.created;
  unset = w.unset;
  own = w.own;
  fresh = w.fresh;
}
  where
    w : IsWaiting new_client
    w = new_client-IsWaiting

all_ready : (n : ℕ) → ready_below n (λ _. ready) ≡ n
unfolding ready_below
all_ready zero = refl
all_ready (suc n) = omega (arith, all_ready n)

start-IsConsistent :
    (n : ℕ) (c : TcpClient) (d : ℤ)
    → c ≡ connected_client d
    → IsConsistent n
        (record { client = c; phases = λ _. ready; requests = []; responses = []; torn = false })
unfolding find
start-IsConsistent n c d e = rw e (record {
  count = 0;
  owner = λ id. 0;
  counted = omega (arith, all_ready n);
  next_id = omega arith;
  handlers = connected-IsWaiting d;
  threads = λ k. tt;
  holders = λ id p there. absurd (ground (arith, there));
  asked = tt;
  answered = tt;
})

abbrev torn_of : Session → Bool
torn_of s = s.torn

whole_out :
    {b : Bool} (out : List ℕ)
    → (if is_empty out then b else true) ≡ false
    → (is_empty out ≡ true) × (b ≡ false)
whole_out {b} out h = elim (Bool-cases (is_empty out)) [
  | inl e ↦ (e, ground (arith, e, h))
  | inr e ↦ absurd (ground (arith, e, h))
]

-- A part of a frame stays on the connection.
Step-torn :
    (n : ℕ) (enabled : Bool) (u u' : ℕ) {s t : Session}
    → Step n enabled u u' s t
    → t.torn ≡ false
    → s.torn ≡ false
Step-torn n enabled u u' (takes k lt e e') h = ap torn_of (sym e') ∙ h
Step-torn n enabled u u' (registers k id e e') h = ap torn_of (sym e') ∙ h
Step-torn n enabled u u' (sends k id p results out e w e') h = ap torn_of (sym e') ∙ h
Step-torn n enabled u u' (fails k id p results out e w e') h =
    (whole_out out (ap torn_of (sym e') ∙ h)).1
Step-torn n enabled u u' (garbles requests on e') h = ap torn_of (sym e') ∙ h
Step-torn n enabled u u' (serves f rest e e') h = ap torn_of (sym e') ∙ h
Step-torn n enabled u u' (delivers f rest c e ran e') h = ap torn_of (sym e') ∙ h
Step-torn n enabled u u' (returns k id p response e got e') h = ap torn_of (sym e') ∙ h
Step-torn n enabled u u' (times_out k id p e missing e') h = ap torn_of (sym e') ∙ h
Step-torn n enabled u u' (gives_up k id e e') h = ap torn_of (sym e') ∙ h

Step-IsConsistent :
    (n : ℕ) (enabled : Bool) (u u' : ℕ) {s t : Session}
    → n ≤ 2 ^ 32
    → t.torn ≡ false
    → Step n enabled u u' s t
    → IsConsistent n s
    → IsConsistent n t
Step-IsConsistent n enabled u u' {s} small whole (takes k lt e e') v =
    rw e' (takes-IsConsistent n k s small lt e v)
Step-IsConsistent n enabled u u' {s} small whole (registers k id e e') v =
    rw e' (registers-IsConsistent n k s v id e)
Step-IsConsistent n enabled u u' {s} small whole (sends k id p results out e w e') v =
    rw e' (sends-IsConsistent n k s v u id p e)
Step-IsConsistent n enabled u u' {s} small whole (fails k id p results out e w e') v =
    rw (e', (whole_out out (ap torn_of (sym e') ∙ whole)).0)
      (drops-IsConsistent n k s v id (ap is_ready e) (phases-Good n k s v (registered id p) e).1
        (λ j q h. (phases-Holds n k s v j q (registered id p) e h).0))
Step-IsConsistent n enabled u u' {s} small whole (garbles requests on e') v =
    absurd (cc (on, ap torn_of (sym e') ∙ whole))
Step-IsConsistent n enabled u u' {s} small whole (serves f rest e e') v =
    rw e' (serves-IsConsistent n u' s f rest e v)
Step-IsConsistent n enabled u u' {s} small whole (delivers f rest c e ran e') v =
    rw e' (delivers-IsConsistent n s f rest c e ran v)
Step-IsConsistent n enabled u u' {s} small whole (returns k id p response e got e') v =
    rw e' (returns-IsConsistent n k s v id p response e got)
Step-IsConsistent n enabled u u' {s} small whole (times_out k id p e missing e') v =
    rw e' (times_out-IsConsistent n k s v id p e)
Step-IsConsistent n enabled u u' {s} small whole (gives_up k id e e') v = rw e' (
    drops-IsConsistent n k s v id (ap is_ready e) (phases-Good n k s v (timed_out id) e).1
      (λ j q h. phases-Holds n k s v j q (timed_out id) e h))

Reach-IsConsistent :
    (n : ℕ) (enabled : Bool) (u u' : ℕ) {s : Session}
    → n ≤ 2 ^ 32
    → s.torn ≡ false
    → Reach n enabled u u' s
    → IsConsistent n s
Reach-IsConsistent n enabled u u' small whole (start d a r done_ e) =
    rw e (start-IsConsistent n _ d (connect_new d a r done_))
Reach-IsConsistent n enabled u u' small whole (next r st) =
    Step-IsConsistent n enabled u u' small whole st
      (Reach-IsConsistent n enabled u u' small (Step-torn n enabled u u' st whole) r)

-- However up to 2 ^ 32 threads of one client, the server and the reader interleave, with timeouts and
-- with writes that fail, as long as no write has failed after a part of its frame was sent: a thread that
-- has printed a line has printed the greeting with its own message, or that there was no response.
pub threads-own :
    (n : ℕ) (enabled : Bool) (u u' k : ℕ) (line : Printed) {s : Session}
    → n ≤ 2 ^ 32
    → Reach n enabled u u' s
    → s.torn ≡ false
    → s.phases k ≡ done line
    → (line ≡ no_response (k + 1)) ⊎ (line ≡ got_response (k + 1) (greeting ++ message_of k))
threads-own n enabled u u' k line {s} small r whole e =
    phases-Good n k s (Reach-IsConsistent n enabled u u' small whole r) (done line) e

-- Later states.
pub data Runs (n : ℕ) (enabled : Bool) (u u' : ℕ) : Session → Session → Type 0 where
  stays : {s t : Session} → t ≡ s → Runs n enabled u u' s t
  steps :
      {s r t : Session}
      → Step n enabled u u' s r
      → Runs n enabled u u' r t
      → Runs n enabled u u' s t

-- What is still on its way, in steps.
abbrev to_come : Session → ℕ
to_come s = 2 * length s.requests + length s.responses

-- The thread `k` comes to print its answer.
abbrev pub Prints : ℕ → Bool → ℕ → ℕ → ℕ → Session → Type 0
Prints n enabled u u' k s =
    (t : Session) × Runs n enabled u u' s t
    × (t.phases k ≡ done (got_response (k + 1) (greeting ++ message_of k)))

module _ (n : ℕ) (enabled : Bool) (u u' k id promise : ℕ) where
  -- With nothing on its way, the promise has the answer.
  answer_now :
      (s : Session)
      → IsConsistent n s
      → s.phases k ≡ waiting id promise
      → s.requests ≡ []
      → s.responses ≡ []
      → Prints n enabled u u' k s
  answer_now s v e none_asked none_come =
      let t : Session = record s {
        phases = update s.phases k (done (got_response (k + 1) (greeting ++ message_of k)));
      } in
      (
        t,
        steps
            (returns k id promise (greeting ++ message_of k) e
              (value (phases-Good n k s v (waiting id promise) e).2) refl)
            (stays refl),
        update_own (λ (q : Phase). q ≡ done (got_response (k + 1) (greeting ++ message_of k)))
            s.phases k (done (got_response (k + 1) (greeting ++ message_of k))) k refl refl,
      )
    where
      value : Awaits s k id promise → find promise s.client.values ≡ some (greeting ++ message_of k)
      value (inl (there, inl flying)) = absurd (subst (Flying id) none_asked flying)
      value (inl (there, inr flying)) = absurd (subst (Flying id) none_come flying)
      value (inr set_) = set_

  after_one :
      (s r : Session)
      → Step n enabled u u' s r
      → Prints n enabled u u' k r
      → Prints n enabled u u' k s
  after_one s r st (t, runs, e) = (t, steps st runs, e)

  answer_within :
      (m : ℕ) (s : Session)
      → n ≤ 2 ^ 32
      → to_come s < m
      → IsConsistent n s
      → s.phases k ≡ waiting id promise
      → Prints n enabled u u' k s
  answer_within zero s small lt v e = absurd (omega arith)
  answer_within (suc m) s small lt v e = elim (List-cases s.requests) [
    | inr (f, rest, more) ↦
        let r : Session = record s {
          requests = rest;
          responses = s.responses ++ (answer u' f ∷ []);
        } in
        after_one s r (serves f rest more refl) (
          answer_within m r small
            (omega (arith, lt, ap length more, length-append s.responses (answer u' f ∷ [])))
            (serves-IsConsistent n u' s f rest more v) e)
    | inl none_asked ↦ elim (List-cases s.responses) [
      | inl none_come ↦ answer_now s v e none_asked none_come
      | inr (f, rest, more) ↦
          let d = delivery s.client f v.handlers in
          let r : Session = record s { client = d.after; responses = rest } in
          after_one s r (delivers f rest d.after more d.runs refl) (
            answer_within m r small (omega (arith, lt, ap length more))
              (delivers-IsConsistent n s f rest d.after more d.runs v) e)
    ]
  ]

-- A thread that waits, in any such interleaving, can still get its own answer, as long as no write has
-- failed after a part of its frame was sent: the server and the reader have only to go on, and the thread
-- prints it.
pub waiting-Prints :
    (n : ℕ) (enabled : Bool) (u u' k id promise : ℕ) {s : Session}
    → n ≤ 2 ^ 32
    → Reach n enabled u u' s
    → s.torn ≡ false
    → s.phases k ≡ waiting id promise
    → Prints n enabled u u' k s
waiting-Prints n enabled u u' k id promise {s} small r whole e =
    answer_within n enabled u u' k id promise (suc (to_come s)) s small (omega arith)
      (Reach-IsConsistent n enabled u u' small whole r) e
