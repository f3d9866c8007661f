-- ===== src/RpcClient/Threads/Numbers.antt =====
-- A thread that takes a stream id keeps the invariant.
use tcp_test.Common.{
  ℕ, update, update_all, update_keeps, suc, ◌^◌, ◌≤◌, ◌<◌, ◌≡◌, refl, sym, subst, ◌∙◌, List, [],
  All, arith, ◌==◌, if◌then◌else◌,
}
use tcp_test.Frame.{Frame}
use tcp_test.TcpClient.{get_next_stream_id}
use tcp_test.TcpClient.Waiting.{get_next_stream_id-IsWaiting}
use tcp_test.RpcServer.{greeting}
use tcp_test.RpcClient.Threads.{Phase, ready, numbered, Session}
use tcp_test.RpcClient.Threads.Ready.{ready_below, ready_begins}
use tcp_test.RpcClient.Threads.Invariant.{
  Good, Holds, HasSent, Carries, IsConsistent, Good-mono, Carries-update,
}

pub takes-IsConsistent :
    (n k : ℕ) (s : Session)
    → n ≤ 2 ^ 32
    → k < n
    → s.phases k ≡ ready
    → IsConsistent n s
    → IsConsistent n (record s {
      client = (get_next_stream_id s.client).1;
      phases = update s.phases k (numbered (get_next_stream_id s.client).0);
    })
unfolding get_next_stream_id
takes-IsConsistent n k s small lt e v = record {
  count = suc v.count;
  owner = owner';
  counted = omega (arith, v.counted, fewer);
  next_id = omega (arith, v.next_id, below);
  handlers = get_next_stream_id-IsWaiting s.client v.handlers;
  threads =
      update_all (Good s' (suc v.count) owner') s.phases k (numbered s.client.next_stream_id)
        ((omega (arith, given)), ground (arith, given))
        (λ j ne.
          Good-mono s s' v.count (suc v.count) v.owner owner' j (s.phases j)
            (λ id lt' e'. ((omega arith), kept id lt' ∙ e')) (λ id p ph lt' e' there. there)
            (λ id p lt' e' w. w) (v.threads j));
  holders = λ id p there.
      let (lt', h) = v.holders id p there in
      (
        omega arith,
        subst (λ (i : ℕ). Holds id p (update s.phases k (numbered s.client.next_stream_id) i))
            (sym (kept id lt'))
            (update_keeps (Holds id p) s.phases k (numbered s.client.next_stream_id) (v.owner id)
              (none_ready id p) h),
      );
  asked = carries [] s.requests v.asked;
  answered = carries greeting s.responses v.answered;
}
  where
    s' : Session
    s' = record s {
      client = (get_next_stream_id s.client).1;
      phases = update s.phases k (numbered (get_next_stream_id s.client).0);
    }

    owner' : ℕ → ℕ
    owner' id = if id == v.count then k else v.owner id

    fewer :
        suc (ready_below n (update s.phases k (numbered s.client.next_stream_id)))
        ≡ ready_below n s.phases
    fewer = ready_begins n k s.phases (numbered s.client.next_stream_id) lt e refl

    below : v.count < 2 ^ 32
    below = omega (arith, fewer, v.counted, small)

    given : s.client.next_stream_id ≡ v.count
    given = omega (arith, v.next_id, below)

    kept : (id : ℕ) → id < v.count → owner' id ≡ v.owner id
    kept id lt' = ground arith

    none_ready :
        (id p : ℕ) → Holds id p (s.phases k) → Holds id p (numbered s.client.next_stream_id)
    none_ready id p = subst (λ (q : Phase). Holds id p q → ⊥) (sym e) (λ h. h)

    not_sent : HasSent (s.phases k) → ⊥
    not_sent = subst (λ (q : Phase). HasSent q → ⊥) (sym e) (λ h. h)

    carries :
        (before : List ℕ) (fs : List Frame)
        → All (Carries v.count v.owner s.phases before) fs
        → All
            (Carries
              (suc v.count)
              owner'
              (update s.phases k (numbered s.client.next_stream_id))
              before)
            fs
    carries before fs =
        Carries-update v.count (suc v.count) v.owner owner' s.phases k
          (numbered s.client.next_stream_id) before fs (λ id lt'. ((omega arith), kept id lt'))
          (λ h. absurd (not_sent h))
