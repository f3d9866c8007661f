-- ===== src/Parser/Stream.antt =====
-- `process_data` against the stream of frames: every buffer is some frames and the beginning of
-- another, in one way only, and those frames are what it returns.
use native.Mathlib.Decide.{dec_le}
use tcp_test.Common.{
  ℕ, zero, suc, ◌+◌, ◌-◌, ◌≤◌, ◌<◌, ◌≡◌, refl, ap, sym, subst, ◌∙◌, List, [], ◌∷◌, ◌++◌, map,
  length, take, drop, All, arith, ok, length-append, take-append, drop-append, append-nil,
  append_assoc, append_snoc, le→leb, All-drop, length-drop,
}
use tcp_test.Frame.{Frame, IsByte, get_word, frame_of, deserialize}
use tcp_test.Frame.Words.{get_word-append_right}
use tcp_test.Frame.RoundTrip.{
  emit, Fits, unowned, length-word, length-emit-Fits, deserialize-emit, emit-frame_of,
  frame_of-Fits,
}
use tcp_test.Parser.{complete, waits, parse_round, parse_loop, process_data}

-- The bytes of several frames, one after the other.
abbrev pub emits : List Frame → List ℕ
emits [] = []
emits (f ∷ fs) = emit f ++ emits fs

-- The rest of a buffer that holds no complete frame.
abbrev pub IsPartial : List ℕ → Type 0
IsPartial x = length x < 16 + get_word x 0

pub emits-append : (fs gs : List Frame) → emits (fs ++ gs) ≡ emits fs ++ emits gs
emits-append [] gs = refl
emits-append (f ∷ fs) gs =
    rw (append_assoc (emit f) (emits fs) (emits gs)) (ap (◌++◌ (emit f)) (emits-append fs gs))

-- A round at a position where a complete frame stands.
round-emit :
    (pre rest : List ℕ) (f : Frame)
    → Fits f
    → parse_round (pre ++ (emit f ++ rest)) (length pre)
      ≡ complete (unowned f) (length pre + (16 + f.length))
unfolding parse_round
round-emit pre rest f v =
    rw (at_word, le→leb 16 _ enough, le→leb (16 + f.length) _ fits, cut, deserialize-emit_nil)
      (ap (λ (k : ℕ). complete (unowned f) (length pre + (16 + k))) at_word)
  where
    size : length (pre ++ (emit f ++ rest)) ≡ length pre + (16 + f.length + length rest)
    size =
        omega (
          arith,
          length-append pre (emit f ++ rest),
          length-append (emit f) rest,
          length-emit-Fits v,
        )

    at_word : get_word (pre ++ (emit f ++ rest)) (length pre) ≡ f.length
    at_word =
        get_word-append_right pre (emit f ++ rest) (length pre) 0 (omega arith)
        ∙ length-word f rest v

    enough : 16 ≤ length (pre ++ (emit f ++ rest)) - length pre
    enough = omega (arith, size)

    fits : 16 + f.length ≤ length (pre ++ (emit f ++ rest)) - length pre
    fits = omega (arith, size)

    cut : take (16 + f.length) (drop (length pre) (pre ++ (emit f ++ rest))) ≡ emit f
    cut =
        rw (drop-append (length pre) pre (emit f ++ rest) refl)
          (take-append (16 + f.length) (emit f) rest (sym (length-emit-Fits v)))

    deserialize-emit_nil : deserialize (emit f) ≡ ok (unowned f)
    deserialize-emit_nil = rw (append-nil (emit f)) at (deserialize-emit f [] v)

round-partial :
    (pre rest : List ℕ) → IsPartial rest → parse_round (pre ++ rest) (length pre) ≡ waits
unfolding parse_round
round-partial pre rest h =
    ground
      (arith, length-append pre rest, get_word-append_right pre rest (length pre) 0 (omega arith))

loop-complete :
    (fuel : ℕ) (data_ : List ℕ) (consumed : ℕ) (found : List Frame) (f : Frame) (next : ℕ)
    → consumed < length data_
    → parse_round data_ consumed ≡ complete f next
    → parse_loop (suc fuel) data_ consumed found ≡ parse_loop fuel data_ next (found ++ (f ∷ []))
unfolding parse_loop
loop-complete fuel data_ consumed found f next h e = ground (arith, e)

loop-waits :
    (fuel : ℕ) (data_ : List ℕ) (consumed : ℕ) (found : List Frame)
    → parse_round data_ consumed ≡ waits
    → parse_loop fuel data_ consumed found ≡ record { frames = found; consumed = consumed }
unfolding parse_loop
loop-waits zero data_ consumed found e = refl
loop-waits (suc fuel) data_ consumed found e = ground (arith, e)

-- The loop at a position behind which the frames `fs` and a partial frame stand.
pub parse_loop-emits :
    (fuel : ℕ) (fs : List Frame) (pre rest : List ℕ) (found : List Frame)
    → All Fits fs
    → IsPartial rest
    → length (emits fs) ≤ fuel
    → parse_loop fuel (pre ++ (emits fs ++ rest)) (length pre) found
      ≡ record { frames = found ++ map unowned fs; consumed = length pre + length (emits fs) }
parse_loop-emits fuel [] pre rest found v h hf =
    loop-waits fuel (pre ++ rest) (length pre) found (round-partial pre rest h)
    ∙ ground (arith, append-nil found)
parse_loop-emits zero (f ∷ fs) pre rest found (v, vs) h hf =
    absurd (omega (arith, length-append (emit f) (emits fs), length-emit-Fits v))
parse_loop-emits (suc fuel) (f ∷ fs) pre rest found (v, vs) h hf = rw regroup (
    loop-complete fuel _ (length pre) found (unowned f) _ more
      (round-emit pre (emits fs ++ rest) f v)
    ∙ rw (← append_assoc pre (emit f) (emits fs ++ rest), ← moved)
        (parse_loop-emits fuel fs (pre ++ emit f) rest (found ++ (unowned f ∷ [])) vs h shorter
          ∙ rw (append_snoc found (unowned f) (map unowned fs), position)))
  where
    regroup : pre ++ ((emit f ++ emits fs) ++ rest) ≡ pre ++ (emit f ++ (emits fs ++ rest))
    regroup = ap (◌++◌ pre) (append_assoc (emit f) (emits fs) rest)

    more : length pre < length (pre ++ (emit f ++ (emits fs ++ rest)))
    more = omega (
      arith,
      length-append pre (emit f ++ (emits fs ++ rest)),
      length-append (emit f) (emits fs ++ rest),
      length-emit-Fits v,
    )

    moved : length (pre ++ emit f) ≡ length pre + (16 + f.length)
    moved = omega (arith, length-append pre (emit f), length-emit-Fits v)

    shorter : length (emits fs) ≤ fuel
    shorter = omega (arith, length-append (emit f) (emits fs), length-emit-Fits v)

    position : length (pre ++ emit f) + length (emits fs) ≡ length pre + length (emit f ++ emits fs)
    position = omega (arith, length-append pre (emit f), length-append (emit f) (emits fs))

-- On the bytes of frames that fit the wire format, followed by a beginning that holds no complete
-- frame, `process_data` returns just these frames and consumes just their bytes.
pub process_data-emits :
    (fs : List Frame) (rest : List ℕ)
    → All Fits fs
    → IsPartial rest
    → process_data (emits fs ++ rest)
      ≡ record { frames = map unowned fs; consumed = length (emits fs) }
unfolding process_data
process_data-emits fs rest v h =
    parse_loop-emits (length (emits fs ++ rest)) fs [] rest [] v h
      (omega (arith, length-append (emits fs) rest))
    ∙ ap (λ (n : ℕ). record { frames = map unowned fs; consumed = n }) (omega arith)

-- A buffer cut into frames and a partial rest.
pub record Cut (x : List ℕ) : Type 0 where
  pub frames : List Frame
  pub rest : List ℕ
  pub fits : All Fits frames
  pub own : map unowned frames ≡ frames
  pub partial : IsPartial rest
  pub whole : emits frames ++ rest ≡ x

cut_partial : (x : List ℕ) → IsPartial x → Cut x
cut_partial x h = record { frames = []; rest = x; fits = tt; own = refl; partial = h; whole = refl }

cut_more :
    (x : List ℕ)
    → All IsByte x
    → 16 + get_word x 0 ≤ length x
    → Cut (drop (16 + get_word x 0) x)
    → Cut x
cut_more x b h c = record {
  frames = frame_of x ∷ c.frames;
  rest = c.rest;
  fits = (frame_of-Fits x b h, c.fits);
  own = ap (◌∷◌ (frame_of x)) c.own;
  partial = c.partial;
  whole =
      append_assoc (emit (frame_of x)) (emits c.frames) c.rest
      ∙ ap (◌++◌ (emit (frame_of x))) c.whole
      ∙ emit-frame_of x b h;
}

cut_fuel : (fuel : ℕ) (x : List ℕ) → length x ≤ fuel → All IsByte x → Cut x
cut_fuel zero x h b = cut_partial x (omega arith)
cut_fuel (suc fuel) x h b = elim (dec_le (16 + get_word x 0) (length x)) [
  | yes long ↦ cut_more x b long (
      cut_fuel fuel (drop (16 + get_word x 0) x) (omega (arith, length-drop (16 + get_word x 0) x))
        (All-drop IsByte (16 + get_word x 0) x b))
  | no short ↦ cut_partial x (omega arith)
]

-- Every list of bytes is some frames and a partial rest.
pub cut : (x : List ℕ) → All IsByte x → Cut x
cut x b = cut_fuel (length x) x (omega arith) b

pub process_data-cut :
    {x : List ℕ} (c : Cut x)
    → process_data x ≡ record { frames = c.frames; consumed = length (emits c.frames) }
process_data-cut {x} c =
    subst (λ y. process_data y ≡ record { frames = c.frames; consumed = length (emits c.frames) })
      c.whole
      (process_data-emits c.frames c.rest c.fits c.partial
        ∙ ap (λ (fs : List Frame). record { frames = fs; consumed = length (emits c.frames) })
            c.own)

-- On every list of bytes `process_data` returns frames that fit the wire format; their bytes are the
-- front that it consumes, and what it leaves holds no complete frame.
pub process_data_lossless :
    (x : List ℕ)
    → All IsByte x
    → let parsed = process_data x in
      All Fits parsed.frames
      × (emits parsed.frames ++ drop parsed.consumed x ≡ x)
      × (parsed.consumed ≡ length (emits parsed.frames))
      × IsPartial (drop parsed.consumed x)
process_data_lossless x b =
    rw (process_data-cut c)
      (c.fits, ap (◌++◌ (emits c.frames)) left ∙ c.whole, refl, rw left c.partial)
  where
    c : Cut x
    c = cut x b

    left : drop (length (emits c.frames)) x ≡ c.rest
    left = rw (← c.whole) (drop-append (length (emits c.frames)) (emits c.frames) c.rest refl)
