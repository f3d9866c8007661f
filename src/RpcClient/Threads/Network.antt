-- ===== src/RpcClient/Threads/Network.antt =====
-- The server's and the reader's steps keep the invariant.
use native.Mathlib.Decide.{ℕ_discrete}
use tcp_test.Common.{
  ℕ, ◌≡◌, ◌≢◌, sym, ap, subst, ◌∙◌, ◌⊎◌, inl, inr, some, List, [], ◌∷◌, ◌++◌, All, All-append,
  arith, Option-cases,
}
use tcp_test.Common.OrdMap.{find}
use tcp_test.Frame.{Frame}
use tcp_test.TcpClient.{TcpClient, deliver}
use tcp_test.TcpClient.Deliveries.{Delivery, delivery}
use tcp_test.Handler.{create_frame}
use tcp_test.RpcServer.{greeting}
use tcp_test.RpcServer.Answers.{answer}
use tcp_test.RpcClient.Threads.{registered, Session, message_of}
use tcp_test.RpcClient.Threads.Invariant.{
  Flying, Flying-snoc, Flying-last, Awaits, HasSent, Carries, IsConsistent, Good-mono,
}

pub serves-IsConsistent :
    (n u' : ℕ) (s : Session) (f : Frame) (rest : List Frame)
    → s.requests ≡ f ∷ rest
    → IsConsistent n s
    → IsConsistent n (record s { requests = rest; responses = s.responses ++ (answer u' f ∷ []) })
unfolding answer create_frame
serves-IsConsistent n u' s f rest e v = record {
  count = v.count;
  owner = v.owner;
  counted = v.counted;
  next_id = v.next_id;
  handlers = v.handlers;
  threads = λ k.
      Good-mono s s' v.count v.count v.owner v.owner k (s.phases k) (λ id lt o. (lt, o))
        (λ id p ph lt o there. there) (λ id p lt o w. still_awaits k id p w) (v.threads k);
  holders = v.holders;
  asked = asks.1;
  answered =
      All-append (Carries v.count v.owner s.phases greeting) s.responses (answer u' f ∷ [])
        v.answered ((asks.0.0, asks.0.1, ap (◌++◌ greeting) asks.0.2), tt);
}
  where
    s' : Session
    s' = record s { requests = rest; responses = s.responses ++ (answer u' f ∷ []) }

    asks : All (Carries v.count v.owner s.phases []) (f ∷ rest)
    asks = subst (All (Carries v.count v.owner s.phases [])) e v.asked

    moves :
        (id : ℕ)
        → Flying id (f ∷ rest)
        → Flying id rest ⊎ Flying id (s.responses ++ (answer u' f ∷ []))
    moves id (inl same) = inr (Flying-last id s.responses (answer u' f) same)
    moves id (inr flying) = inl flying

    still_awaits : (k id p : ℕ) → Awaits s k id p → Awaits s' k id p
    still_awaits k id p (inl (there, inl flying)) =
        inl (there, moves id (subst (Flying id) e flying))
    still_awaits k id p (inl (there, inr flying)) =
        inl (there, inr (Flying-snoc id s.responses (answer u' f) flying))
    still_awaits k id p (inr value) = inr value

deliver-next_id :
    (c c' : TcpClient) (f : Frame) → deliver c f ≡ some c' → c'.next_stream_id ≡ c.next_stream_id
unfolding deliver
deliver-next_id c c' f e = elim (Option-cases (find f.stream_id c.response_handlers)) [
  | inl missing ↦ ground (arith, missing, e)
  | inr (p, there) ↦ ground (arith, there, e, Option-cases (find p c.values))
]

-- A frame that has been delivered is off its way.
module _ (n : ℕ) (s : Session) (f : Frame) (rest : List Frame) (e : s.responses ≡ f ∷ rest)
    (v : IsConsistent n s) (d : Delivery s.client f) where
  abbrev delivered : Session
  delivered = record s { client = d.after; responses = rest }

  answers : All (Carries v.count v.owner s.phases greeting) (f ∷ rest)
  answers = subst (All (Carries v.count v.owner s.phases greeting)) e v.answered

  -- The frame's stream is not one whose request is still to be sent.
  not_registered : (id p : ℕ) → s.phases (v.owner id) ≡ registered id p → id ≢ f.stream_id
  not_registered id p ph same =
      subst HasSent (sym (ap (λ (i : ℕ). s.phases (v.owner i)) same) ∙ ph) answers.0.1

  behind : (id : ℕ) → id ≢ f.stream_id → Flying id (f ∷ rest) → Flying id rest
  behind id other (inl same) = absurd (other (sym same))
  behind id other (inr r) = r

  on_its_way :
      (id : ℕ)
      → id ≢ f.stream_id
      → Flying id s.requests ⊎ Flying id s.responses
      → Flying id s.requests ⊎ Flying id rest
  on_its_way id other (inl r) = inl r
  on_its_way id other (inr r) = inr (behind id other (subst (Flying id) e r))

  gets : (k id p : ℕ) → v.owner id ≡ k → Awaits s k id p → Awaits delivered k id p
  gets k id p own (inr value) = inr (d.keeps p (greeting ++ message_of k) value)
  gets k id p own (inl (there, flying)) = elim (ℕ_discrete id f.stream_id) [
    | yes same ↦ inr (
        d.sets p (ap (λ (i : ℕ). find i s.client.response_handlers) (sym same) ∙ there)
        ∙ ap some
            (answers.0.2 ∙ ap (λ (i : ℕ). greeting ++ message_of i) (ap v.owner (sym same) ∙ own)))
    | no other ↦ inl (d.others id other ∙ there, on_its_way id other flying)
  ]

  delivered-IsConsistent : deliver s.client f ≡ some d.after → IsConsistent n delivered
  delivered-IsConsistent ran = record {
    count = v.count;
    owner = v.owner;
    counted = v.counted;
    next_id = deliver-next_id s.client d.after f ran ∙ v.next_id;
    handlers = d.waiting;
    threads = λ k.
        Good-mono s delivered v.count v.count v.owner v.owner k (s.phases k) (λ id lt o. (lt, o))
          (λ id p ph lt o there. d.others id (not_registered id p (ap s.phases o ∙ ph)) ∙ there)
          (λ id p lt o w. gets k id p o w) (v.threads k);
    holders = λ id p there. v.holders id p (sym (d.others id (left id p there)) ∙ there);
    asked = v.asked;
    answered = answers.1;
  }
    where
      left : (id p : ℕ) → find id d.after.response_handlers ≡ some p → id ≢ f.stream_id
      left id p there same =
          cc (there, ap (λ (i : ℕ). find i d.after.response_handlers) same, d.gone)

pub delivers-IsConsistent :
    (n : ℕ) (s : Session) (f : Frame) (rest : List Frame) (c : TcpClient)
    → s.responses ≡ f ∷ rest
    → deliver s.client f ≡ some c
    → IsConsistent n s
    → IsConsistent n (record s { client = c; responses = rest })
delivers-IsConsistent n s f rest c e ran v =
    let d = delivery s.client f v.handlers in
    let same : d.after ≡ c = cc (d.runs, ran) in
    subst (λ (c' : TcpClient). IsConsistent n (record s { client = c'; responses = rest })) same
      (delivered-IsConsistent n s f rest e v d d.runs)
