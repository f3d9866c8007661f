-- ===== src/RpcClient/Threads/Steps.antt =====
-- Every step of the threads, of the server and of the reader keeps the invariant.
use native.Mathlib.Decide.{ℕ_discrete}
use tcp_test.Common.{
  ℕ, update, update_keeps, update_own, ◌+◌, ◌<◌, ◌≡◌, ◌≢◌, refl, sym, ap, subst, ◌∙◌, inl, inr,
  false, some, List, [], ◌∷◌, ◌++◌, All-append, arith,
}
use tcp_test.Common.OrdMap.{find, find-assign, find-assign_self, find-erase_ne}
use tcp_test.TcpClient.{register, unregister, request_frame}
use tcp_test.TcpClient.Waiting.{register-IsWaiting, unregister-IsWaiting, find-erase}
use tcp_test.RpcServer.{greeting}
use tcp_test.RpcClient.{got_response, no_response}
use tcp_test.RpcClient.Threads.{
  Phase, numbered, registered, waiting, timed_out, done, Session, message_of,
}
use tcp_test.RpcClient.Threads.Ready.{is_ready}
use tcp_test.RpcClient.Threads.Invariant.{
  Awaits, Good, Holds, HasSent, Carries, IsConsistent, step-IsConsistent, still-Carries,
  Flying-snoc, Flying-last,
}

module _ (n k : ℕ) (s : Session) (v : IsConsistent n s) where
  -- What the thread can rely on in the phase where it is.
  pub phases-Good : (phase : Phase) → s.phases k ≡ phase → Good s v.count v.owner k phase
  phases-Good phase e = subst (Good s v.count v.owner k) e (v.threads k)

  pub phases-Holds :
      (id promise : ℕ) (phase : Phase)
      → s.phases k ≡ phase
      → Holds id promise (s.phases k)
      → Holds id promise phase
  phases-Holds id promise phase e = subst (Holds id promise) e

  pub registers-IsConsistent :
      (id : ℕ)
      → s.phases k ≡ numbered id
      → IsConsistent n (record s {
        client = (register s.client id).1;
        phases = update s.phases k (registered id (register s.client id).0);
      })
  unfolding register
  registers-IsConsistent id e =
      let (lt, own) = phases-Good (numbered id) e in
      step-IsConsistent n k s v (registered id s.client.promises) (register s.client id).1
        s.requests (ap is_ready e) refl refl (register-IsWaiting s.client id v.handlers)
        (lt, own, find-assign_self id s.client.promises s.client.response_handlers)
        (λ j p ne there. find-assign_other id j (λ q. ne (ap v.owner (sym q) ∙ own)) ∙ there)
        (λ i j p ne w. awaits_still id i j p (λ q. ne (ap v.owner (sym q) ∙ own)) w)
        (λ j p there. holds id lt own e j p there) (λ h. absurd (subst HasSent e h))
        (still-Carries n k s v (registered id s.client.promises) s.client s.requests
          (λ h. absurd (subst HasSent e h)))
    where
      find-assign_other :
          (id j : ℕ)
          → id ≢ j
          → find j (register s.client id).1.response_handlers ≡ find j s.client.response_handlers
      find-assign_other id j ne =
          ground (arith, find-assign id j s.client.promises s.client.response_handlers, ne)

      awaits_still :
          (id i j p : ℕ)
          → id ≢ j
          → Awaits s i j p
          → Awaits
              (record s {
                client = (register s.client id).1;
                phases = update s.phases k (registered id s.client.promises);
              })
              i
              j
              p
      awaits_still id i j p ne (inl (there, flying)) =
          inl (find-assign_other id j ne ∙ there, flying)
      awaits_still id i j p ne (inr value) = inr value

      holds :
          (id : ℕ)
          → id < v.count
          → v.owner id ≡ k
          → s.phases k ≡ numbered id
          → (j p : ℕ) → find j (register s.client id).1.response_handlers ≡ some p
          → (j < v.count)
            × Holds j p (update s.phases k (registered id s.client.promises) (v.owner j))
      holds id lt own e j p there = elim (ℕ_discrete id j) [
        | yes same ↦ (
          omega (arith, same, lt),
          update_own (Holds j p) s.phases k (registered id s.client.promises) (v.owner j)
              (ap v.owner (sym same) ∙ own)
              (
                same,
                ground (
                  arith,
                  find-assign id j s.client.promises s.client.response_handlers,
                  same,
                  there,
                ),
              ),
        )
        | no other ↦
            let (lt', h) = v.holders j p (sym (find-assign_other id j other) ∙ there) in
            (
              lt',
              update_keeps (Holds j p) s.phases k (registered id s.client.promises) (v.owner j)
                  (λ q. absurd (phases-Holds j p (numbered id) e q)) h,
            )
      ]

  pub sends-IsConsistent :
      (u id promise : ℕ)
      → s.phases k ≡ registered id promise
      → IsConsistent n (record s {
        phases = update s.phases k (waiting id promise);
        requests = s.requests ++ (request_frame u id (message_of k) ∷ []);
      })
  unfolding request_frame
  sends-IsConsistent u id promise e =
      let (lt, own, there) = phases-Good (registered id promise) e in
      let f = request_frame u id (message_of k) in
      step-IsConsistent n k s v (waiting id promise) s.client (s.requests ++ (f ∷ []))
        (ap is_ready e) refl refl v.handlers
        (lt, own, inl (there, inl (Flying-last id s.requests f refl))) (λ j p ne h. h)
        (λ i j p ne w. still_awaits i j p w)
        (λ j p h.
          let (lt', old) = v.holders j p h in
          (
            lt',
            update_keeps (Holds j p) s.phases k (waiting id promise) (v.owner j)
                (phases-Holds j p (registered id promise) e) old,
          ))
        (λ h. tt)
        (All-append (Carries v.count v.owner (update s.phases k (waiting id promise)) []) s.requests
          (f ∷ []) (still-Carries n k s v (waiting id promise) s.client s.requests (λ h. tt))
          (
            (
              lt,
              update_own HasSent s.phases k (waiting id promise) (v.owner id) own tt,
              ap message_of (sym own),
            ),
            tt,
          ))
    where
      still_awaits :
          (i j p : ℕ)
          → Awaits s i j p
          → Awaits
              (record s {
                phases = update s.phases k (waiting id promise);
                requests = s.requests ++ (request_frame u id (message_of k) ∷ []);
              })
              i
              j
              p
      still_awaits i j p (inl (there, inl flying)) =
          inl (there, inl (Flying-snoc j s.requests (request_frame u id (message_of k)) flying))
      still_awaits i j p (inl (there, inr flying)) = inl (there, inr flying)
      still_awaits i j p (inr value) = inr value

  pub times_out-IsConsistent :
      (id promise : ℕ)
      → s.phases k ≡ waiting id promise
      → IsConsistent n (record s { phases = update s.phases k (timed_out id) })
  times_out-IsConsistent id promise e =
      let (lt, own, w) = phases-Good (waiting id promise) e in
      step-IsConsistent n k s v (timed_out id) s.client s.requests (ap is_ready e) refl refl
        v.handlers (lt, own) (λ j p ne h. h) (λ i j p ne h. h)
        (λ j p h.
          let (lt', old) = v.holders j p h in
          (
            lt',
            update_keeps (Holds j p) s.phases k (timed_out id) (v.owner j)
                (λ q. (phases-Holds j p (waiting id promise) e q).0) old,
          ))
        (λ h. tt) (still-Carries n k s v (timed_out id) s.client s.requests (λ h. tt))

  -- The thread drops its handler.
  pub drops-IsConsistent :
      (id : ℕ)
      → is_ready (s.phases k) ≡ false
      → v.owner id ≡ k
      → ((j p : ℕ) → Holds j p (s.phases k) → id ≡ j)
      → IsConsistent n (record s {
        client = unregister s.client id;
        phases = update s.phases k (done (no_response (k + 1)));
      })
  unfolding unregister
  drops-IsConsistent id begun own mine =
      step-IsConsistent n k s v (done (no_response (k + 1))) (unregister s.client id) s.requests
        begun refl refl (unregister-IsWaiting s.client id v.handlers) (inl refl)
        (λ j p ne there.
          find-erase_ne id j s.client.response_handlers (λ q. ne (ap v.owner (sym q) ∙ own))
          ∙ there)
        (λ i j p ne w. still_awaits i j p (λ q. ne (ap v.owner (sym q) ∙ own)) w)
        (λ j p there.
          let (ne, there') = find-erase id j p s.client.response_handlers v.handlers.keys there in
          let (lt', old) = v.holders j p there' in
          (
            lt',
            update_keeps (Holds j p) s.phases k (done (no_response (k + 1))) (v.owner j)
                (λ q. ne (sym (mine j p q))) old,
          ))
        (λ h. tt) (still-Carries n k s v (done (no_response (k + 1))) s.client s.requests (λ h. tt))
    where
      still_awaits :
          (i j p : ℕ)
          → id ≢ j
          → Awaits s i j p
          → Awaits
              (record s {
                client = unregister s.client id;
                phases = update s.phases k (done (no_response (k + 1)));
              })
              i
              j
              p
      still_awaits i j p ne (inl (there, flying)) =
          inl (find-erase_ne id j s.client.response_handlers ne ∙ there, flying)
      still_awaits i j p ne (inr value) = inr value

  pub returns-IsConsistent :
      (id promise : ℕ) (response : List ℕ)
      → s.phases k ≡ waiting id promise
      → find promise s.client.values ≡ some response
      → IsConsistent n
          (record s { phases = update s.phases k (done (got_response (k + 1) response)) })
  returns-IsConsistent id promise response e got =
      let (lt, own, w) = phases-Good (waiting id promise) e in
      step-IsConsistent n k s v (done (got_response (k + 1) response)) s.client s.requests
        (ap is_ready e) refl refl v.handlers (inr (ap (got_response (k + 1)) (right_value w)))
        (λ j p ne h. h) (λ i j p ne h. h)
        (λ j p h.
          let (lt', old) = v.holders j p h in
          (
            lt',
            update_keeps (Holds j p) s.phases k (done (got_response (k + 1) response)) (v.owner j)
                (λ q. set_before j p h (phases-Holds j p (waiting id promise) e q).1) old,
          ))
        (λ h. tt)
        (still-Carries n k s v (done (got_response (k + 1) response)) s.client s.requests (λ h. tt))
    where
      right_value : Awaits s k id promise → response ≡ greeting ++ message_of k
      right_value (inl (there, flying)) = absurd (cc (got, v.handlers.unset id promise there))
      right_value (inr value) = cc (got, value)

      set_before : (j p : ℕ) → find j s.client.response_handlers ≡ some p → promise ≡ p → ⊥
      set_before j p h q = cc (got, v.handlers.unset j p h, q)
