-- ===== src/RpcClient/Threads/Invariant.antt =====
-- What holds between the threads, the handlers and what is on its way.
use tcp_test.Common.{
  ℕ, update, update_all, update_keeps, ◌+◌, ◌%◌, ◌^◌, ◌<◌, ◌≡◌, ◌≢◌, refl, sym, ap, subst, ◌∙◌, ◌⊎◌,
  inl, inr, false, some, List, [], ◌∷◌, ◌++◌, All, arith,
}
use tcp_test.Common.OrdMap.{find}
use tcp_test.Frame.{Frame}
use tcp_test.TcpClient.{TcpClient}
use tcp_test.TcpClient.Waiting.{IsWaiting}
use tcp_test.RpcServer.{greeting}
use tcp_test.RpcClient.{got_response, no_response}
use tcp_test.RpcClient.Threads.Ready.{is_ready, ready_below, ready_same}
use tcp_test.RpcClient.Threads.{
  Phase, ready, numbered, registered, waiting, timed_out, done, Session, message_of,
}

-- A frame of a stream is among these.
abbrev pub Flying : ℕ → List Frame → Type 0
Flying id [] = ⊥
Flying id (f ∷ fs) = (f.stream_id ≡ id) ⊎ Flying id fs

pub Flying-snoc : (id : ℕ) (fs : List Frame) (f : Frame) → Flying id fs → Flying id (fs ++ (f ∷ []))
Flying-snoc id [] f x = elim x [ ]
Flying-snoc id (g ∷ fs) f (inl e) = inl e
Flying-snoc id (g ∷ fs) f (inr r) = inr (Flying-snoc id fs f r)

pub Flying-last :
    (id : ℕ) (fs : List Frame) (f : Frame) → f.stream_id ≡ id → Flying id (fs ++ (f ∷ []))
Flying-last id [] f e = inl e
Flying-last id (g ∷ fs) f e = inr (Flying-last id fs f e)

-- The thread `k` still waits for the answer on the stream `id`, or its promise has it.
abbrev pub Awaits : Session → ℕ → ℕ → ℕ → Type 0
Awaits s k id promise =
    ((find id s.client.response_handlers ≡ some promise)
      × (Flying id s.requests ⊎ Flying id s.responses))
    ⊎ (find promise s.client.values ≡ some (greeting ++ message_of k))

-- What a thread that is in a phase can rely on, where the first `count` ids are given out, each to its
-- owner.
abbrev pub Good : Session → ℕ → (ℕ → ℕ) → ℕ → Phase → Type 0
Good s count owner k ready = Unit {0}
Good s count owner k (numbered id) = (id < count) × (owner id ≡ k)
Good s count owner k (registered id promise) =
    (id < count) × (owner id ≡ k) × (find id s.client.response_handlers ≡ some promise)
Good s count owner k (waiting id promise) = (id < count) × (owner id ≡ k) × Awaits s k id promise
Good s count owner k (timed_out id) = (id < count) × (owner id ≡ k)
Good s count owner k (done line) =
    (line ≡ no_response (k + 1)) ⊎ (line ≡ got_response (k + 1) (greeting ++ message_of k))

-- The thread that has registered the promise under the id.
abbrev pub Holds : ℕ → ℕ → Phase → Type 0
Holds id promise ready = ⊥
Holds id promise (numbered id') = ⊥
Holds id promise (registered id' promise') = (id' ≡ id) × (promise' ≡ promise)
Holds id promise (waiting id' promise') = (id' ≡ id) × (promise' ≡ promise)
Holds id promise (timed_out id') = id' ≡ id
Holds id promise (done line) = ⊥

abbrev pub HasSent : Phase → Type 0
HasSent ready = ⊥
HasSent (numbered id) = ⊥
HasSent (registered id promise) = ⊥
HasSent (waiting id promise) = Unit {0}
HasSent (timed_out id) = Unit {0}
HasSent (done line) = Unit {0}

-- A frame of a thread that has sent its message, with this payload.
abbrev pub Carries : ℕ → (ℕ → ℕ) → (ℕ → Phase) → List ℕ → Frame → Type 0
Carries count owner phases before f =
    (f.stream_id < count)
    × HasSent (phases (owner f.stream_id))
    × (f.payload ≡ before ++ message_of (owner f.stream_id))

pub record IsConsistent (n : ℕ) (s : Session) : Type 0 where
  pub count : ℕ
  pub owner : ℕ → ℕ
  pub counted : count + ready_below n s.phases ≡ n
  pub next_id : s.client.next_stream_id ≡ count % 2 ^ 32
  pub handlers : IsWaiting s.client
  pub threads : (k : ℕ) → Good s count owner k (s.phases k)
  pub holders :
      (id promise : ℕ)
      → find id s.client.response_handlers ≡ some promise
      → (id < count) × Holds id promise (s.phases (owner id))
  pub asked : All (Carries count owner s.phases []) s.requests
  pub answered : All (Carries count owner s.phases greeting) s.responses

pub Good-mono :
    (s s' : Session) (count count' : ℕ) (owner owner' : ℕ → ℕ) (k : ℕ) (phase : Phase)
    → ((id : ℕ) → id < count → owner id ≡ k → (id < count') × (owner' id ≡ k))
    → ((id promise : ℕ)
        → phase ≡ registered id promise
        → id < count
        → owner id ≡ k
        → find id s.client.response_handlers ≡ some promise
        → find id s'.client.response_handlers ≡ some promise)
    → ((id promise : ℕ)
        → id < count
        → owner id ≡ k
        → Awaits s k id promise
        → Awaits s' k id promise)
    → Good s count owner k phase
    → Good s' count' owner' k phase
Good-mono s s' count count' owner owner' k ready own keep wait g = tt
Good-mono s s' count count' owner owner' k (numbered id) own keep wait (lt, e) = own id lt e
Good-mono s s' count count' owner owner' k (registered id promise) own keep wait (lt, e, there) =
    let (lt', e') = own id lt e in (lt', e', keep id promise refl lt e there)
Good-mono s s' count count' owner owner' k (waiting id promise) own keep wait (lt, e, there) =
    let (lt', e') = own id lt e in (lt', e', wait id promise lt e there)
Good-mono s s' count count' owner owner' k (timed_out id) own keep wait (lt, e) = own id lt e
Good-mono s s' count count' owner owner' k (done line) own keep wait g = g

pub All-imp :
    (P Q : Frame → Type 0) (fs : List Frame) → ((f : Frame) → P f → Q f) → All P fs → All Q fs
All-imp P Q [] h a = tt
All-imp P Q (f ∷ fs) h (p, a) = (h f p, All-imp P Q fs h a)

pub Carries-update :
    (count count' : ℕ) (owner owner' : ℕ → ℕ) (phases : ℕ → Phase) (k : ℕ) (phase : Phase)
    (before : List ℕ) (fs : List Frame)
    → ((id : ℕ) → id < count → (id < count') × (owner' id ≡ owner id))
    → (HasSent (phases k) → HasSent phase)
    → All (Carries count owner phases before) fs
    → All (Carries count' owner' (update phases k phase) before) fs
Carries-update count count' owner owner' phases k phase before fs own sent_ a =
    All-imp (Carries count owner phases before)
      (Carries count' owner' (update phases k phase) before) fs
      (λ f c. (
        (own f.stream_id c.0).0,
        subst (λ (i : ℕ). HasSent (update phases k phase i)) (sym (own f.stream_id c.0).1)
            (update_keeps HasSent phases k phase (owner f.stream_id) sent_ c.1),
        c.2 ∙ ap (λ (i : ℕ). before ++ message_of i) (sym (own f.stream_id c.0).1),
      ))
      a

-- A step of the thread `k`, which gives out no id.
module _ (n k : ℕ) (s : Session) (v : IsConsistent n s) (phase : Phase) (c : TcpClient)
    (requests : List Frame) where
  abbrev pub after_step : Session
  after_step = record s { client = c; phases = update s.phases k phase; requests = requests }

  pub step-IsConsistent :
      is_ready (s.phases k) ≡ false
      → is_ready phase ≡ false
      → c.next_stream_id ≡ s.client.next_stream_id
      → IsWaiting c
      → Good after_step v.count v.owner k phase
      → ((id promise : ℕ)
          → v.owner id ≢ k
          → find id s.client.response_handlers ≡ some promise
          → find id c.response_handlers ≡ some promise)
      → ((j id promise : ℕ)
          → v.owner id ≢ k
          → Awaits s j id promise
          → Awaits after_step j id promise)
      → ((id promise : ℕ)
          → find id c.response_handlers ≡ some promise
          → (id < v.count) × Holds id promise (update s.phases k phase (v.owner id)))
      → (HasSent (s.phases k) → HasSent phase)
      → All (Carries v.count v.owner (update s.phases k phase) []) requests
      → IsConsistent n after_step
  step-IsConsistent old new next_ waits good keep wait holds sent_ asks = record {
    count = v.count;
    owner = v.owner;
    counted = omega (arith, v.counted, ready_same n k s.phases phase old new);
    next_id = next_ ∙ v.next_id;
    handlers = waits;
    threads = update_all (Good after_step v.count v.owner) s.phases k phase good (λ j ne.
        Good-mono s after_step v.count v.count v.owner v.owner j (s.phases j) (λ id lt e. (lt, e))
          (λ id p ph lt e there. keep id p (λ q. ne (sym q ∙ e)) there)
          (λ id p lt e w. wait j id p (λ q. ne (sym q ∙ e)) w) (v.threads j));
    holders = holds;
    asked = asks;
    answered =
        Carries-update v.count v.count v.owner v.owner s.phases k phase greeting s.responses
          (λ id lt. (lt, refl)) sent_ v.answered;
  }

  -- The requests that were there.
  pub still-Carries :
      (HasSent (s.phases k) → HasSent phase)
      → All (Carries v.count v.owner (update s.phases k phase) []) s.requests
  still-Carries sent_ =
      Carries-update v.count v.count v.owner v.owner s.phases k phase [] s.requests
        (λ id lt. (lt, refl)) sent_ v.asked
