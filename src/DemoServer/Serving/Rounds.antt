-- ===== src/DemoServer/Serving/Rounds.antt =====
-- One more piece for the reader, and one round of the writer.
use tcp_test.Common.{
  ℕ, ◌≡◌, refl, sym, ap, ◌∙◌, Bool, none, some, inl, inr, List, [], ◌∷◌, ◌++◌, arith, append-nil,
  append_assoc, append_snoc, Bool-cases,
}
use tcp_test.Frame.{Frame, serialize}
use tcp_test.Parser.{Received, receive}
use tcp_test.Parser.Chunks.{receive_all}
use tcp_test.StreamManager.{StreamManager, has_outgoing_frames, get_next_outgoing_frame}
use tcp_test.DemoServer.{write_round}
use tcp_test.DemoServer.Responses.{responses, all_responses}
use tcp_test.DemoServer.Serving.{Serving, give}

pub receive_all-snoc :
    (pieces : List (List ℕ)) (buffer bytes : List ℕ)
    → let r = receive_all buffer pieces in
      let later = receive r.buffer bytes in
      receive_all buffer (pieces ++ (bytes ∷ []))
      ≡ record { frames = r.frames ++ later.frames; buffer = later.buffer }
unfolding receive_all
receive_all-snoc [] buffer bytes =
    let r = receive buffer bytes in
    ap (λ (fs : List Frame). record { frames = fs; buffer = r.buffer }) (append-nil r.frames)
receive_all-snoc (piece ∷ pieces) buffer bytes =
    let first = receive buffer piece in
    let r = receive_all first.buffer pieces in
    let later = receive r.buffer bytes in
    ap (λ (o : Received). record { frames = first.frames ++ o.frames; buffer = o.buffer })
      (receive_all-snoc pieces first.buffer bytes)
    ∙ ap (λ (fs : List Frame). record { frames = fs; buffer = later.buffer })
        (sym (append_assoc first.frames r.frames later.frames))

pub all_responses-append :
    (u : ℕ) (fs gs : List Frame)
    → all_responses u (fs ++ gs) ≡ all_responses u fs ++ all_responses u gs
all_responses-append u [] gs = refl
all_responses-append u (f ∷ fs) gs =
    ap (λ (l : List Frame). responses u f ++ l) (all_responses-append u fs gs)
    ∙ sym (append_assoc (responses u f) (all_responses u fs) (all_responses u gs))

pub write-round_first :
    (enabled : Bool) (m : StreamManager) (f : Frame) (rest : List Frame)
    → m.outgoing_frames ≡ f ∷ rest
    → write_round enabled m ≡ (some (serialize enabled f), record m { outgoing_frames = rest })
unfolding write_round has_outgoing_frames get_next_outgoing_frame
write-round_first enabled m f rest e = ground (arith, e)

pub write-round_none :
    (enabled : Bool) (m : StreamManager)
    → m.outgoing_frames ≡ []
    → write_round enabled m ≡ (none, m)
unfolding write_round has_outgoing_frames get_next_outgoing_frame
write-round_none enabled m e = ground (arith, e)

pub joined : (a b c d p : List Frame) → p ≡ [] → a ++ (b ++ (c ++ d)) ≡ (a ++ (b ++ (c ++ p))) ++ d
joined a b c d p e = rw e (simp (append_assoc, append-nil))

pub moves_first :
    (a b q d p : List Frame) (f : Frame)
    → b ≡ []
    → q ≡ f ∷ d
    → (a ++ (f ∷ [])) ++ (b ++ (d ++ p)) ≡ a ++ (b ++ (q ++ p))
moves_first a b q d p f e e' = rw (e, e') (append_snoc a f (d ++ p))

pub moves_next :
    (a b q d p : List Frame) (f : Frame)
    → q ≡ f ∷ d
    → a ++ ((b ++ (f ∷ [])) ++ (d ++ p)) ≡ a ++ (b ++ (q ++ p))
moves_next a b q d p f e = rw e (ap (λ (fs : List Frame). a ++ fs) (append_snoc b f (d ++ p)))

pub give-nil : (s : Serving) → give [] s ≡ s
unfolding give
give-nil s = elim (Bool-cases s.is_open) [
  | inl on ↦ rw (append-nil s.sent_bytes) (ground (arith, on))
  | inr off ↦ rw (append-nil s.stray_bytes) (ground (arith, off))
]
