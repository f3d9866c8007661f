-- ===== src/ClientHandler/Writing.antt =====
-- What the writer of a connection sends.
use tcp_test.Common.{
  ℕ, ◌+◌, ◌≡◌, refl, sym, ap, subst, ◌∙◌, true, false, inl, inr, List, [], ◌∷◌, ◌++◌, length, take,
  drop, append_assoc, append-nil, arith, ltb, if◌then◌else◌, drop_all, Bool-cases, ltb-false→le,
  take-drop-append,
}
use tcp_test.Parser.Chunks.{concat}
use tcp_test.TcpClient.{SendResult, sends, interrupted, failed}
use tcp_test.ClientHandler.{
  SendEnd, complete, broken, unfinished, send_loop, send_pending, bytes_sent, is_complete,
}

-- What an end of sending says of the data: complete, or a beginning of it.
pub data Sent (data_ : List ℕ) (e : SendEnd) : Type 0 where
  whole : is_complete e ≡ true → bytes_sent e ≡ data_ → Sent data_ e
  beginning : (rest : List ℕ) → is_complete e ≡ false → bytes_sent e ++ rest ≡ data_ → Sent data_ e

branch-Sent :
    (all_ data_ out : List ℕ) (t : ℕ) (e : SendEnd) (results : List SendResult)
    → out ++ drop t data_ ≡ all_
    → Sent all_ e
    → Sent all_ (if ltb t (length data_) then e else complete out results)
branch-Sent all_ data_ out t e results h s = elim (Bool-cases (ltb t (length data_))) [
  | inl more ↦ rw more s
  | inr end ↦ rw end (
      whole refl (
        sym (append-nil out)
        ∙ ap (◌++◌ out) (sym (drop_all t data_ (ltb-false→le t (length data_) end)))
        ∙ h))
]

send_loop-Sent :
    (all_ data_ out : List ℕ) (t : ℕ) (results : List SendResult)
    → out ++ drop t data_ ≡ all_
    → Sent all_ (send_loop data_ t out results)
unfolding send_loop
send_loop-Sent all_ data_ out t [] h =
    branch-Sent all_ data_ out t (unfinished out) [] h (beginning (drop t data_) refl h)
send_loop-Sent all_ data_ out t (sends n ∷ more) h =
    branch-Sent all_ data_ out t (send_loop data_ (t + n) (out ++ take n (drop t data_)) more)
      (sends n ∷ more) h
      (send_loop-Sent all_ data_ (out ++ take n (drop t data_)) (t + n) more (
        append_assoc out (take n (drop t data_)) (drop (t + n) data_)
        ∙ ap (◌++◌ out) (take-drop-append t n (t + n) data_ refl)
        ∙ h))
send_loop-Sent all_ data_ out t (interrupted ∷ more) h =
    branch-Sent all_ data_ out t (broken out) (interrupted ∷ more) h
      (beginning (drop t data_) refl h)
send_loop-Sent all_ data_ out t (failed ∷ more) h =
    branch-Sent all_ data_ out t (broken out) (failed ∷ more) h (beginning (drop t data_) refl h)

Sent-next :
    (data_ out tail : List ℕ) (further : List ℕ → List SendResult → SendEnd) (e : SendEnd)
    → ((out' : List ℕ) (more : List SendResult) → Sent (out' ++ tail) (further out' more))
    → Sent (out ++ data_) e
    → Sent (out ++ (data_ ++ tail)) (elim e [
      | complete out' more ↦ further out' more
      | broken out' ↦ broken out'
      | unfinished out' ↦ unfinished out'
    ])
Sent-next data_ out tail further (complete out' more) next (whole c h) =
    subst (λ (l : List ℕ). Sent l (further out' more))
      (ap (λ (l : List ℕ). l ++ tail) h ∙ append_assoc out data_ tail) (next out' more)
Sent-next data_ out tail further (complete out' more) next (beginning rest c h) =
    absurd (ground (arith, c))
Sent-next data_ out tail further (broken out') next (whole c h) = absurd (ground (arith, c))
Sent-next data_ out tail further (broken out') next (beginning rest c h) =
    beginning (rest ++ tail) refl (
      sym (append_assoc out' rest tail)
      ∙ ap (λ (l : List ℕ). l ++ tail) h
      ∙ append_assoc out data_ tail)
Sent-next data_ out tail further (unfinished out') next (whole c h) = absurd (ground (arith, c))
Sent-next data_ out tail further (unfinished out') next (beginning rest c h) =
    beginning (rest ++ tail) refl (
      sym (append_assoc out' rest tail)
      ∙ ap (λ (l : List ℕ). l ++ tail) h
      ∙ append_assoc out data_ tail)

send_pending-from :
    (pending : List (List ℕ)) (out : List ℕ) (results : List SendResult)
    → Sent (out ++ concat pending) (send_pending pending out results)
unfolding send_pending
send_pending-from [] out results = whole refl (sym (append-nil out))
send_pending-from (data_ ∷ pending) out results =
    Sent-next data_ out (concat pending) (send_pending pending) (send_loop data_ 0 out results)
      (send_pending-from pending) (send_loop-Sent (out ++ data_) data_ out 0 results refl)

-- Whatever `send` returns, the writer sends the bytes of the buffers that were queued in their order,
-- without gap or repetition: all of them if it ends without an error, and else a beginning.
pub send_pending-Sent :
    (pending : List (List ℕ)) (results : List SendResult)
    → Sent (concat pending) (send_pending pending [] results)
send_pending-Sent pending results = send_pending-from pending [] results
