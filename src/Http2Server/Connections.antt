-- ===== src/Http2Server/Connections.antt =====
-- The loop over the connections: when it comes back to accept, and what is cleaned up.
use tcp_test.Common.{
  ap, ◌∙◌, ◌⊎◌, All, ℕ, ◌≡◌, refl, Bool, true, false, not, ◌||◌, ◌&&◌, none, some, List, [], ◌∷◌,
  ◌++◌, arith, if◌then◌else◌, Bool-cases, inl, inr, ℤ, is_negative, is_zero,
}
use tcp_test.Frame.{is_empty}
use tcp_test.Http2Server.{
  Round, closed, failed, received, Cleanup, deletes_session, closes, frees_session, cleanup,
  event_loop, serve_connection, Accepted, refused, accepted, accept_loop,
}

-- Whether one of these rounds ends the event loop.
abbrev pub ends_round : Round → Bool
ends_round closed = true
ends_round failed = true
ends_round (received processed sent) = is_negative processed || not (is_zero sent)

unfoldable pub some_end : List Round → Bool
some_end [] = false
some_end (r ∷ rs) = ends_round r || some_end rs

event_loop_lem :
    (fd : ℕ) (rounds : List Round)
    → event_loop fd rounds ≡ (if some_end rounds then some (cleanup fd) else none)
unfolding event_loop some_end
event_loop_lem fd [] = refl
event_loop_lem fd (closed ∷ rs) = refl
event_loop_lem fd (failed ∷ rs) = refl
event_loop_lem fd (received p s ∷ rs) =
    ground (arith, event_loop_lem fd rs, Bool-cases (is_negative p), Bool-cases (is_zero s))

-- Whether a connection comes to its end.
abbrev pub ends_connection : Accepted → Bool
ends_connection refused = true
ends_connection (accepted fd sent rounds) = not (is_zero sent) || some_end rounds

abbrev pub descriptors : List Accepted → List ℕ
descriptors [] = []
descriptors (refused ∷ calls) = descriptors calls
descriptors (accepted fd sent rounds ∷ calls) = fd ∷ descriptors calls

-- The accepted calls before the first connection that does not end.
unfoldable pub before_open : List Accepted → List Accepted
before_open [] = []
before_open (a ∷ calls) = let rest = before_open calls in if ends_connection a then a ∷ rest else []

unfoldable pub all_end : List Accepted → Bool
all_end [] = true
all_end (a ∷ calls) = ends_connection a && all_end calls

abbrev pub cleanups : List ℕ → List Cleanup
cleanups [] = []
cleanups (fd ∷ fds) = deletes_session fd ∷ closes fd ∷ frees_session fd ∷ cleanups fds

serve_connection_lem :
    (fd : ℕ) (sent : ℤ) (rounds : List Round)
    → serve_connection fd sent rounds
      ≡ (if ends_connection (accepted fd sent rounds) then some (cleanup fd) else none)
unfolding serve_connection
serve_connection_lem fd sent rounds =
    ground
      (arith, event_loop_lem fd rounds, Bool-cases (is_zero sent), Bool-cases (some_end rounds))

accept_loop-before :
    (calls : List Accepted)
    → accept_loop calls ≡ (cleanups (descriptors (before_open calls)), all_end calls)
unfolding accept_loop before_open all_end
accept_loop-before [] = refl
accept_loop-before (refused ∷ calls) = accept_loop-before calls
accept_loop-before (accepted fd sent rounds ∷ calls) =
    elim (Bool-cases (ends_connection (accepted fd sent rounds))) [
      | inl e ↦
          rw (accept_loop, serve_connection_lem fd sent rounds, e, accept_loop-before calls) refl
      | inr e ↦ rw (accept_loop, serve_connection_lem fd sent rounds, e) refl
    ]

-- What ends a connection: the client closes it, `read` fails, or nghttp2 reports an error.
abbrev pub EndsRound : Round → Type 0
EndsRound closed = Unit {0}
EndsRound failed = Unit {0}
EndsRound (received processed sent) = (is_negative processed ≡ true) ⊎ (is_zero sent ≡ false)

abbrev pub SomeEnds : List Round → Type 0
SomeEnds [] = ⊥
SomeEnds (r ∷ rs) = EndsRound r ⊎ SomeEnds rs

abbrev pub Ends : Accepted → Type 0
Ends refused = Unit {0}
Ends (accepted fd sent rounds) = (is_zero sent ≡ false) ⊎ SomeEnds rounds

-- The first of these calls brings a connection that does not end.
abbrev pub StopsAt : List Accepted → Type 0
StopsAt [] = Unit {0}
StopsAt (a ∷ calls) = ¬ (Ends a)

some_end-SomeEnds : (rounds : List Round) → some_end rounds ≡ true → SomeEnds rounds
unfolding some_end
some_end-SomeEnds [] e = absurd (cc e)
some_end-SomeEnds (closed ∷ rs) e = inl tt
some_end-SomeEnds (failed ∷ rs) e = inl tt
some_end-SomeEnds (received p s ∷ rs) e = elim (Bool-cases (is_negative p)) [
  | inl n ↦ inl (inl n)
  | inr n ↦ elim (Bool-cases (is_zero s)) [
    | inr z ↦ inl (inr z)
    | inl z ↦ inr (some_end-SomeEnds rs (ground (arith, e, n, z)))
  ]
]

none_end : (rounds : List Round) → some_end rounds ≡ false → ¬ (SomeEnds rounds)
unfolding some_end
none_end [] e x = elim x [ ]
none_end (closed ∷ rs) e x = absurd (cc e)
none_end (failed ∷ rs) e x = absurd (cc e)
none_end (received p s ∷ rs) e (inl (inl n)) = absurd (ground (arith, e, n))
none_end (received p s ∷ rs) e (inl (inr z)) =
    absurd (ground (arith, e, z, Bool-cases (is_negative p)))
none_end (received p s ∷ rs) e (inr x) =
    none_end rs
      (ground
        (arith, e, Bool-cases (is_negative p), Bool-cases (is_zero s), Bool-cases (some_end rs)))
      x

connection-Ends : (a : Accepted) → ends_connection a ≡ true → Ends a
connection-Ends refused e = tt
connection-Ends (accepted fd sent rounds) e = elim (Bool-cases (is_zero sent)) [
  | inr z ↦ inl z
  | inl z ↦ inr (some_end-SomeEnds rounds (ground (arith, e, z)))
]

connection_stays : (a : Accepted) → ends_connection a ≡ false → ¬ (Ends a)
connection_stays refused e x = absurd (cc e)
connection_stays (accepted fd sent rounds) e (inl z) = absurd (ground (arith, e, z))
connection_stays (accepted fd sent rounds) e (inr x) =
    none_end rounds (ground (arith, e, Bool-cases (is_zero sent))) x

-- Where the calls are cut.
record Front (calls : List Accepted) : Type 0 where
  front : List Accepted
  back : List Accepted
  whole : calls ≡ front ++ back
  all_end_ : All Ends front
  stops : StopsAt back
  same : before_open calls ≡ front
  idle : all_end calls ≡ is_empty back

split_calls : (calls : List Accepted) → Front calls
unfolding before_open all_end
split_calls [] = record {
  front = [];
  back = [];
  whole = refl;
  all_end_ = tt;
  stops = tt;
  same = refl;
  idle = refl;
}
split_calls (a ∷ calls) = elim (Bool-cases (ends_connection a)) [
  | inl e ↦
      let f = split_calls calls in
      record {
        front = a ∷ f.front;
        back = f.back;
        whole = ap (◌∷◌ a) f.whole;
        all_end_ = (connection-Ends a e, f.all_end_);
        stops = f.stops;
        same = ground (arith, e, f.same);
        idle = ground (arith, e, f.idle);
      }
  | inr e ↦ record {
    front = [];
    back = a ∷ calls;
    whole = refl;
    all_end_ = tt;
    stops = connection_stays a e;
    same = ground (arith, e);
    idle = ground (arith, e);
  }
]

-- The calls of accept fall into two parts: every connection of the first ends, closed or failed by its
-- client or by an error of nghttp2, and the first connection of the second does not. For each connection
-- of the first part the session is deleted, the descriptor closed and the data freed, once, in this order
-- and in the order of the connections, and nothing else is. The server is back at accept exactly if
-- nothing is in the second part.
pub accept_loop_lem :
    (calls : List Accepted)
    → (front : List Accepted) × (back : List Accepted) × (calls ≡ front ++ back)
      × All Ends front
      × StopsAt back
      × (accept_loop calls ≡ (cleanups (descriptors front), is_empty back))
accept_loop_lem calls =
    let f = split_calls calls in
    (
      f.front,
      f.back,
      f.whole,
      f.all_end_,
      f.stops,
      accept_loop-before calls
          ∙ ap (λ (c : List Accepted). (cleanups (descriptors c), all_end calls)) f.same
          ∙ ap (λ (b : Bool). (cleanups (descriptors f.front), b)) f.idle,
    )
