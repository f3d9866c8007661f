-- ===== src/TcpClient/Waiting.antt =====
-- The response handlers, each with a promise that waits for its value.
use native.Mathlib.Decide.{ℕ_discrete}
use tcp_test.Common.{ℕ, ◌≤◌, ◌<◌, ◌≡◌, ◌≢◌, refl, sym, ◌∙◌, none, some, arith}
use tcp_test.Common.OrdMap.{
  OrdMap, find, erase, From, find-assign, find-erase_self, find-erase_ne, assign-From, erase-From,
}
use tcp_test.TcpClient.{TcpClient, new_client, get_next_stream_id, register, unregister}

-- Every handler has a promise of its own, which has been created and has no value.
pub record IsWaiting (c : TcpClient) : Type 0 where
  pub keys : From 0 c.response_handlers
  pub created : (k p : ℕ) → find k c.response_handlers ≡ some p → p < c.promises
  pub unset : (k p : ℕ) → find k c.response_handlers ≡ some p → find p c.values ≡ none
  pub own :
      (j k p : ℕ)
      → find j c.response_handlers ≡ some p
      → find k c.response_handlers ≡ some p
      → j ≡ k
  pub fresh : (p : ℕ) → c.promises ≤ p → find p c.values ≡ none

pub new_client-IsWaiting : IsWaiting new_client
unfolding find
new_client-IsWaiting = record {
  keys = tt;
  created = λ k p e. ground (arith, e);
  unset = λ k p e. refl;
  own = λ j k p e e'. ground (arith, e);
  fresh = λ p h. refl;
}

pub register-IsWaiting : (c : TcpClient) (id : ℕ) → IsWaiting c → IsWaiting (register c id).1
unfolding register
register-IsWaiting c id w = record {
  keys = assign-From 0 id c.promises c.response_handlers (omega arith) w.keys;
  created =
      λ k p e. ground (arith, find-assign id k c.promises c.response_handlers, w.created k p, e);
  unset = λ k p e.
      ground (arith, find-assign id k c.promises c.response_handlers, w.unset k p, w.fresh p, e);
  own = λ j k p e e'. ground (
    arith,
    find-assign id k c.promises c.response_handlers,
    find-assign id j c.promises c.response_handlers,
    w.own j k p,
    w.created j p,
    w.created k p,
    e,
    e',
  );
  fresh = λ p h. w.fresh p (omega arith);
}

pub find-erase :
    (id k p : ℕ) (m : OrdMap ℕ)
    → From 0 m
    → find k (erase id m) ≡ some p
    → (k ≢ id) × (find k m ≡ some p)
find-erase id k p m f e = elim (ℕ_discrete k id) [
  | yes same ↦ ground (arith, find-erase_self id 0 m f, same, e)
  | no other ↦ (other, sym (find-erase_ne id k m (λ q. other (sym q))) ∙ e)
]

pub unregister-IsWaiting : (c : TcpClient) (id : ℕ) → IsWaiting c → IsWaiting (unregister c id)
unfolding unregister
unregister-IsWaiting c id w = record {
  keys = erase-From 0 id c.response_handlers w.keys;
  created = λ k p e. w.created k p (find-erase id k p c.response_handlers w.keys e).1;
  unset = λ k p e. w.unset k p (find-erase id k p c.response_handlers w.keys e).1;
  own = λ j k p e e'.
      w.own j k p (find-erase id j p c.response_handlers w.keys e).1
        (find-erase id k p c.response_handlers w.keys e').1;
  fresh = w.fresh;
}

pub find-unregister :
    (c : TcpClient) (id : ℕ) → IsWaiting c → find id (unregister c id).response_handlers ≡ none
unfolding unregister
find-unregister c id w = find-erase_self id 0 c.response_handlers w.keys

pub get_next_stream_id-IsWaiting :
    (c : TcpClient) → IsWaiting c → IsWaiting (get_next_stream_id c).1
unfolding get_next_stream_id
get_next_stream_id-IsWaiting c w = record {
  keys = w.keys;
  created = w.created;
  unset = w.unset;
  own = w.own;
  fresh = w.fresh;
}
