-- ===== src/TcpClient/Deliveries.antt =====
-- What the frames that the reader delivers do to the handlers and the promises.
use native.Mathlib.Decide.{ℕ_discrete}
use tcp_test.Common.{
  ℕ, ◌≡◌, ◌≢◌, refl, sym, ap, ◌∙◌, Option, none, some, List, [], ◌∷◌, arith, ◌==◌, if◌then◌else◌,
  Option-cases, inl, inr,
}
use tcp_test.Common.OrdMap.{
  find, assign, erase, find-assign, find-erase_self, find-erase_ne, erase-From,
}
use tcp_test.Frame.{Frame}
use tcp_test.TcpClient.{TcpClient, deliver, deliver_all}
use tcp_test.TcpClient.Waiting.{IsWaiting, find-erase}

-- What a frame does to a client.
pub record Delivery (c : TcpClient) (f : Frame) : Type 0 where
  pub after : TcpClient
  pub runs : deliver c f ≡ some after
  pub waiting : IsWaiting after
  pub sets :
      (p : ℕ) → find f.stream_id c.response_handlers ≡ some p → find p after.values ≡ some f.payload
  pub keeps : (p : ℕ) (v : List ℕ) → find p c.values ≡ some v → find p after.values ≡ some v
  pub gone : find f.stream_id after.response_handlers ≡ none
  pub others :
      (k : ℕ) → k ≢ f.stream_id → find k after.response_handlers ≡ find k c.response_handlers

miss :
    (c : TcpClient) (f : Frame)
    → IsWaiting c
    → find f.stream_id c.response_handlers ≡ none
    → Delivery c f
unfolding deliver
miss c f w e = record {
  after = c;
  runs = ground (arith, e);
  waiting = w;
  sets = λ p e'. ground (arith, e, e');
  keeps = λ p v e'. e';
  gone = e;
  others = λ k ne. refl;
}

hit :
    (c : TcpClient) (f : Frame) (p : ℕ)
    → IsWaiting c
    → find f.stream_id c.response_handlers ≡ some p
    → Delivery c f
unfolding deliver
hit c f p w e = record {
  after = c';
  runs = ground (arith, e, w.unset f.stream_id p e);
  waiting = record {
    keys = erase-From 0 f.stream_id c.response_handlers w.keys;
    created = λ k q e'. w.created k q (left k q e').1;
    unset = λ k q e'. ground (
      arith,
      find-assign p q f.payload c.values,
      left k q e',
      w.unset k q,
      w.own f.stream_id k p e,
    );
    own = λ j k q d d'. w.own j k q (left j q d).1 (left k q d').1;
    fresh = λ q h.
        ground (arith, find-assign p q f.payload c.values, w.fresh q h, w.created f.stream_id p e);
  };
  sets = λ q d. ground (arith, find-assign p q f.payload c.values, e, d);
  keeps = λ q v d. ground (arith, find-assign p q f.payload c.values, w.unset f.stream_id p e, d);
  gone = find-erase_self f.stream_id 0 c.response_handlers w.keys;
  others = λ k ne. find-erase_ne f.stream_id k c.response_handlers (λ d. ne (sym d));
}
  where
    c' : TcpClient
    c' = record c {
      values = assign p f.payload c.values;
      response_handlers = erase f.stream_id c.response_handlers;
    }

    left :
        (k q : ℕ)
        → find k c'.response_handlers ≡ some q
        → (k ≢ f.stream_id) × (find k c.response_handlers ≡ some q)
    left k q e' = find-erase f.stream_id k q c.response_handlers w.keys e'

pub delivery : (c : TcpClient) (f : Frame) → IsWaiting c → Delivery c f
delivery c f w = elim (Option-cases (find f.stream_id c.response_handlers)) [
  | inl e ↦ miss c f w e
  | inr (p, e) ↦ hit c f p w e
]

-- The payload of the first frame of a stream.
unfoldable pub first_payload : ℕ → List Frame → Option (List ℕ)
first_payload id [] = none
first_payload id (f ∷ fs) =
    let rest = first_payload id fs in if f.stream_id == id then some f.payload else rest

-- What frames do to a client.
pub record Deliveries (c : TcpClient) (fs : List Frame) : Type 0 where
  pub after : TcpClient
  pub runs : deliver_all c fs ≡ some after
  pub waiting : IsWaiting after
  pub sets :
      (id p : ℕ) → find id c.response_handlers ≡ some p → find p after.values ≡ first_payload id fs
  pub keeps : (p : ℕ) (v : List ℕ) → find p c.values ≡ some v → find p after.values ≡ some v
  pub handlers :
      (k : ℕ)
      → find k after.response_handlers
        ≡ (elim (first_payload k fs) [ none ↦ find k c.response_handlers | some v ↦ none ])

Deliveries-cons :
    (c : TcpClient) (f : Frame) (fs : List Frame) (d : Delivery c f)
    → Deliveries d.after fs
    → Deliveries c (f ∷ fs)
unfolding deliver_all first_payload
Deliveries-cons c f fs d r = record {
  after = r.after;
  runs = rw (d.runs, deliver_all) r.runs;
  waiting = r.waiting;
  sets = λ id p e. elim (ℕ_discrete id f.stream_id) [
    | yes same ↦ ground (
      arith,
      same,
      r.keeps p f.payload,
      d.sets p (ap (λ j. find j c.response_handlers) (sym same) ∙ e),
    )
    | no other ↦ ground (arith, other, r.sets id p (d.others id other ∙ e))
  ];
  keeps = λ p v e. r.keeps p v (d.keeps p v e);
  handlers = λ k. elim (ℕ_discrete k f.stream_id) [
    | yes same ↦ ground (
      arith,
      same,
      r.handlers k,
      ap (λ j. find j d.after.response_handlers) same ∙ d.gone,
      Option-cases (first_payload k fs),
    )
    | no other ↦ ground (arith, other, r.handlers k, d.others k other)
  ];
}

pub deliveries : (fs : List Frame) (c : TcpClient) → IsWaiting c → Deliveries c fs
unfolding deliver_all first_payload
deliveries [] c w = record {
  after = c;
  runs = refl;
  waiting = w;
  sets = λ id p e. w.unset id p e;
  keeps = λ p v e. e;
  handlers = λ k. refl;
}
deliveries (f ∷ fs) c w =
    Deliveries-cons c f fs (delivery c f w)
      (deliveries fs (delivery c f w).after (delivery c f w).waiting)
