-- ===== src/DemoServer/Reading.antt =====
-- The reader's own loop finds the frames that `FrameParser::processData` finds.
use tcp_test.Common.{
  ℕ, zero, suc, ◌+◌, ◌<◌, ◌≡◌, refl, ap, sym, subst, ◌∙◌, List, [], ◌∷◌, ◌++◌, map, length, take,
  drop, All, All-append, arith, ok, length-append, take-append, drop-append, append-nil,
  append_assoc,
}
use tcp_test.Frame.{Frame, IsByte, deserialize}
use tcp_test.Frame.RoundTrip.{emit, Fits, unowned, length-word, length-emit-Fits, deserialize-emit}
use tcp_test.Parser.{Received, receive}
use tcp_test.Parser.Stream.{emits, IsPartial, Cut, cut}
use tcp_test.Parser.Chunks.{receive-cut, receive-IsByte, receive_all}
use tcp_test.StreamManager.{StreamManager}
use tcp_test.DemoServer.{waiting, handle_frame, read_loop, handle_read}

unfoldable pub handle_all : ℕ → StreamManager → List Frame → StreamManager
handle_all u m [] = m
handle_all u m (f ∷ fs) = handle_all u (handle_frame u m f) fs

handle_all-append :
    (u : ℕ) (m : StreamManager) (fs gs : List Frame)
    → handle_all u m (fs ++ gs) ≡ handle_all u (handle_all u m fs) gs
unfolding handle_all
handle_all-append u m [] gs = refl
handle_all-append u m (f ∷ fs) gs = handle_all-append u (handle_frame u m f) fs gs

read-emit :
    (u fuel : ℕ) (m : StreamManager) (f : Frame) (x : List ℕ)
    → Fits f
    → read_loop u (suc fuel) m (emit f ++ x) ≡ read_loop u fuel (handle_frame u m (unowned f)) x
unfolding read_loop
read-emit u fuel m f x v = ground (arith, length-word f x v, size, front, dropped, deserialized)
  where
    size : length (emit f ++ x) ≡ 16 + f.length + length x
    size = omega (arith, length-append (emit f) x, length-emit-Fits v)

    front : take (16 + f.length) (emit f ++ x) ≡ emit f
    front = take-append (16 + f.length) (emit f) x (sym (length-emit-Fits v))

    dropped : drop (16 + f.length) (emit f ++ x) ≡ x
    dropped = drop-append (16 + f.length) (emit f) x (sym (length-emit-Fits v))

    deserialized : deserialize (emit f) ≡ ok (unowned f)
    deserialized = rw (append-nil (emit f)) at (deserialize-emit f [] v)

read-partial :
    (u fuel : ℕ) (m : StreamManager) (x : List ℕ)
    → IsPartial x
    → read_loop u (suc fuel) m x ≡ waiting m x
unfolding read_loop
read-partial u fuel m x h = ground arith

read_loop-emits :
    (u fuel : ℕ) (m : StreamManager) (fs : List Frame) (rest : List ℕ)
    → All Fits fs
    → IsPartial rest
    → length (emits fs) < fuel
    → read_loop u fuel m (emits fs ++ rest) ≡ waiting (handle_all u m (map unowned fs)) rest
unfolding handle_all
read_loop-emits u zero m fs rest v h lt = absurd (omega arith)
read_loop-emits u (suc fuel) m [] rest v h lt = read-partial u fuel m rest h
read_loop-emits u (suc fuel) m (f ∷ fs) rest (v, vs) h lt =
    ap (read_loop u (suc fuel) m) (append_assoc (emit f) (emits fs) rest)
    ∙ read-emit u fuel m f (emits fs ++ rest) v
    ∙ read_loop-emits u fuel (handle_frame u m (unowned f)) fs rest vs h
        (omega (arith, length-append (emit f) (emits fs), length-emit-Fits v))

-- On every buffer of bytes the loop ends waiting; it has handled the frames that the parser would
-- return, in their order, and keeps what the parser would leave.
pub read_loop-receive :
    (u : ℕ) (m : StreamManager) (buffer bytes : List ℕ)
    → All IsByte (buffer ++ bytes)
    → let r = receive buffer bytes in
      read_loop u (suc (length (buffer ++ bytes))) m (buffer ++ bytes)
      ≡ waiting (handle_all u m r.frames) r.buffer
read_loop-receive u m buffer bytes b =
    subst (λ y. read_loop u (suc (length y)) m y ≡ waiting (handle_all u m c.frames) c.rest) c.whole
      (read_loop-emits u (suc (length (emits c.frames ++ c.rest))) m c.frames c.rest c.fits
          c.partial (omega (arith, length-append (emits c.frames) c.rest))
        ∙ ap (λ fs. waiting (handle_all u m fs) c.rest) c.own)
    ∙ ap (λ (r : Received). waiting (handle_all u m r.frames) r.buffer)
        (sym (receive-cut buffer bytes c))
  where
    c : Cut (buffer ++ bytes)
    c = cut (buffer ++ bytes) b

-- `handleRead` never lets an exception out and never stops early: over any pieces that arrive it handles
-- the frames that a reader with `FrameParser` would receive.
pub handle_read-receive_all :
    (u : ℕ) (pieces : List (List ℕ)) (m : StreamManager) (buffer : List ℕ)
    → All IsByte buffer
    → All (All IsByte) pieces
    → let r = receive_all buffer pieces in
      handle_read u m buffer pieces ≡ waiting (handle_all u m r.frames) r.buffer
unfolding handle_read receive_all handle_all
handle_read-receive_all u [] m buffer hb hp = refl
handle_read-receive_all u (bytes ∷ more) m buffer hb (h, hs) =
    let kept = receive-IsByte buffer bytes hb h in
    let first = receive buffer bytes in
    let rest = receive_all first.buffer more in
    rw (read_loop-receive u m buffer bytes (All-append IsByte buffer bytes hb h), handle_read)
      (handle_read-receive_all u more (handle_all u m first.frames) first.buffer kept.0 hs
        ∙ ap (λ m'. waiting m' rest.buffer) (sym (handle_all-append u m first.frames rest.frames)))
