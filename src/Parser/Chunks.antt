-- ===== src/Parser/Chunks.antt =====
-- A stream that arrives in pieces: the frames do not depend on where the network cuts it.
use tcp_test.Common.{
  ℕ, ◌≡◌, refl, ap, sym, subst, ◌∙◌, Bool, List, [], ◌∷◌, ◌++◌, map, length, drop, map-append,
  if◌then◌else◌, All, arith, ltb, append-nil, append_assoc, drop-append, All-append, All-drop,
}
use tcp_test.Frame.{Frame, IsByte, serialize}
use tcp_test.Frame.RoundTrip.{emit, Fits, unowned, sealed, serialize-emit, sealed-Fits, emit-IsByte}
use tcp_test.Parser.{Received, receive}
use tcp_test.Parser.Stream.{emits, emits-append, IsPartial, Cut, cut, process_data-cut}

-- What a reader makes of a cut buffer.
pub receive-cut :
    (buf bytes : List ℕ) (c : Cut (buf ++ bytes))
    → receive buf bytes ≡ record { frames = c.frames; buffer = c.rest }
unfolding receive
receive-cut buf bytes c =
    rw (process_data-cut c) (ap (λ (y : List ℕ). record { frames = c.frames; buffer = y }) left)
  where
    dropped : drop (length (emits c.frames)) (buf ++ bytes) ≡ c.rest
    dropped =
        subst (λ y. drop (length (emits c.frames)) y ≡ c.rest) c.whole
          (drop-append (length (emits c.frames)) (emits c.frames) c.rest refl)

    left :
        (if ltb 0 (length (emits c.frames))
          then drop (length (emits c.frames)) (buf ++ bytes)
          else (buf ++ bytes))
        ≡ c.rest
    left = ground (arith, dropped)

rest-IsByte : (x : List ℕ) → All IsByte x → (c : Cut x) → All IsByte c.rest
rest-IsByte x b c = rw (← dropped) (All-drop IsByte (length (emits c.frames)) x b)
  where
    dropped : drop (length (emits c.frames)) x ≡ c.rest
    dropped =
        subst (λ y. drop (length (emits c.frames)) y ≡ c.rest) c.whole
          (drop-append (length (emits c.frames)) (emits c.frames) c.rest refl)

All-append_frames :
    (fs gs : List Frame)
    → map unowned fs ≡ fs
    → map unowned gs ≡ gs
    → map unowned (fs ++ gs) ≡ fs ++ gs
All-append_frames fs gs p q = map-append unowned fs gs ∙ rw (p, q)

join : (buf a b : List ℕ) (c : Cut (buf ++ a)) (d : Cut (c.rest ++ b)) → Cut (buf ++ (a ++ b))
join buf a b c d = record {
  frames = c.frames ++ d.frames;
  rest = d.rest;
  fits = All-append Fits c.frames d.frames c.fits d.fits;
  own = All-append_frames c.frames d.frames c.own d.own;
  partial = d.partial;
  whole =
      rw
        (
          emits-append c.frames d.frames,
          append_assoc (emits c.frames) (emits d.frames) d.rest,
          d.whole,
          ← append_assoc (emits c.frames) c.rest b,
          c.whole,
        )
        (append_assoc buf a b);
}

-- Receiving two pieces one after the other gives the frames and the buffer of receiving them at once.
receive-append :
    (buf a b : List ℕ)
    → All IsByte buf
    → All IsByte a
    → All IsByte b
    → let first = receive buf a in
      let second = receive first.buffer b in
      receive buf (a ++ b)
      ≡ record { frames = first.frames ++ second.frames; buffer = second.buffer }
unfolding join
receive-append buf a b hbuf ha hb =
    rw (receive-cut buf a c)
      (rw (receive-cut c.rest b d) (receive-cut buf (a ++ b) (join buf a b c d)))
  where
    c : Cut (buf ++ a)
    c = cut (buf ++ a) (All-append IsByte buf a hbuf ha)

    d : Cut (c.rest ++ b)
    d =
        cut (c.rest ++ b) (
          All-append IsByte c.rest b (rest-IsByte (buf ++ a) (All-append IsByte buf a hbuf ha) c)
            hb)

-- A reader's loop over the pieces that `recv` returns, until the connection ends.
unfoldable pub receive_all : List ℕ → List (List ℕ) → Received
receive_all buf [] = record { frames = []; buffer = buf }
receive_all buf (bytes ∷ more) =
    let first = receive buf bytes in
    let others = receive_all first.buffer more in
    record { frames = first.frames ++ others.frames; buffer = others.buffer }

abbrev pub concat : List (List ℕ) → List ℕ
concat [] = []
concat (x ∷ xs) = x ++ concat xs

receive-partial :
    (buf : List ℕ)
    → All IsByte buf
    → IsPartial buf
    → receive buf [] ≡ record { frames = []; buffer = buf }
receive-partial buf b h = receive-cut buf [] (record {
  frames = [];
  rest = buf;
  fits = tt;
  own = refl;
  partial = h;
  whole = sym (append-nil buf);
})

pub receive-IsByte :
    (buf a : List ℕ)
    → All IsByte buf
    → All IsByte a
    → All IsByte (receive buf a).buffer × IsPartial (receive buf a).buffer
receive-IsByte buf a hbuf ha = rw (receive-cut buf a c) (rest-IsByte (buf ++ a) both c, c.partial)
  where
    both : All IsByte (buf ++ a)
    both = All-append IsByte buf a hbuf ha

    c : Cut (buf ++ a)
    c = cut (buf ++ a) both

-- However the network cuts a stream, the reader ends with the frames and the buffer that it would have
-- if the whole stream came in one piece; at the start its buffer holds no complete frame.
pub receive_all-concat :
    (pieces : List (List ℕ)) (buf : List ℕ)
    → All IsByte buf
    → IsPartial buf
    → All (All IsByte) pieces
    → receive_all buf pieces ≡ receive buf (concat pieces)
unfolding receive_all
receive_all-concat [] buf hbuf partial h = sym (receive-partial buf hbuf partial)
receive_all-concat (bytes ∷ more) buf hbuf partial (hb, hm) =
    let kept = receive-IsByte buf bytes hbuf hb in
    rw (receive_all-concat more (receive buf bytes).buffer kept.0 kept.1 hm)
      (sym (receive-append buf bytes (concat more) hbuf hb (concat-IsByte more hm)))
  where
    concat-IsByte : (xs : List (List ℕ)) → All (All IsByte) xs → All IsByte (concat xs)
    concat-IsByte [] h = tt
    concat-IsByte (x ∷ xs) (h, hs) = All-append IsByte x (concat xs) h (concat-IsByte xs hs)

-- What a sender writes for a list of frames.
abbrev pub serialize_all : Bool → List Frame → List ℕ
serialize_all enabled [] = []
serialize_all enabled (f ∷ fs) = serialize enabled f ++ serialize_all enabled fs

pub serialize_all-append :
    (enabled : Bool) (fs gs : List Frame)
    → serialize_all enabled (fs ++ gs) ≡ serialize_all enabled fs ++ serialize_all enabled gs
serialize_all-append enabled [] gs = refl
serialize_all-append enabled (f ∷ fs) gs =
    ap (λ (l : List ℕ). serialize enabled f ++ l) (serialize_all-append enabled fs gs)
    ∙ sym (append_assoc (serialize enabled f) (serialize_all enabled fs) (serialize_all enabled gs))

pub serialize_all-snoc :
    (enabled : Bool) (fs : List Frame) (f : Frame)
    → serialize_all enabled (fs ++ (f ∷ [])) ≡ serialize_all enabled fs ++ serialize enabled f
serialize_all-snoc enabled [] f = append-nil (serialize enabled f)
serialize_all-snoc enabled (g ∷ fs) f =
    ap (λ (l : List ℕ). serialize enabled g ++ l) (serialize_all-snoc enabled fs f)
    ∙ sym (append_assoc (serialize enabled g) (serialize_all enabled fs) (serialize enabled f))

abbrev pub sent : Bool → Frame → Frame
sent enabled f = unowned (sealed enabled f)

emits-sent :
    (enabled : Bool) (fs : List Frame) → emits (map (sent enabled) fs) ≡ serialize_all enabled fs
unfolding emit
emits-sent enabled [] = refl
emits-sent enabled (f ∷ fs) = rw (serialize-emit enabled f, ← emits-sent enabled fs)

sent-own :
    (enabled : Bool) (fs : List Frame) → map unowned (map (sent enabled) fs) ≡ map (sent enabled) fs
sent-own enabled [] = refl
sent-own enabled (f ∷ fs) = ap (◌∷◌ (sent enabled f)) (sent-own enabled fs)

unowned-Fits : {f : Frame} → Fits f → Fits (unowned f)
unowned-Fits v = record {
  length_u32 = v.length_u32;
  stream_u32 = v.stream_u32;
  sequence_u32 = v.sequence_u32;
  checksum_u32 = v.checksum_u32;
  counted = v.counted;
  bytes = v.bytes;
}

sent-Fits : (enabled : Bool) (fs : List Frame) → All Fits fs → All Fits (map (sent enabled) fs)
sent-Fits enabled [] v = tt
sent-Fits enabled (f ∷ fs) (v, vs) = (unowned-Fits (sealed-Fits enabled v), sent-Fits enabled fs vs)

pub serialize_all-IsByte :
    (enabled : Bool) (fs : List Frame) → All Fits fs → All IsByte (serialize_all enabled fs)
serialize_all-IsByte enabled [] v = tt
serialize_all-IsByte enabled (f ∷ fs) (v, vs) =
    All-append IsByte (serialize enabled f) (serialize_all enabled fs)
      (rw (serialize-emit enabled f) (emit-IsByte (sealed-Fits enabled v)))
      (serialize_all-IsByte enabled fs vs)

-- Frames that fit the wire format, serialized one after the other and cut anyhow on their way, arrive
-- complete, in order and once each, and nothing is left in the reader's buffer.
pub receive_all-serialize :
    (enabled : Bool) (fs : List Frame) (pieces : List (List ℕ))
    → All Fits fs
    → concat pieces ≡ serialize_all enabled fs
    → All (All IsByte) pieces
    → receive_all [] pieces ≡ record { frames = map (sent enabled) fs; buffer = [] }
receive_all-serialize enabled fs pieces v e h =
    receive_all-concat pieces [] tt (omega arith) h
    ∙ rw e (
        receive-cut [] (serialize_all enabled fs) (record {
          frames = map (sent enabled) fs;
          rest = [];
          fits = sent-Fits enabled fs v;
          own = sent-own enabled fs;
          partial = omega arith;
          whole = append-nil (emits (map (sent enabled) fs)) ∙ emits-sent enabled fs;
        }))
