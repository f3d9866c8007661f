-- ===== src/DemoServer/Responses.antt =====
-- The responses that are queued and sent: what they are, that they fit the wire format, their streams and
-- their numbers.
use tcp_test.Common.{
  ℕ, zero, suc, ◌+◌, ◌*◌, ◌^◌, ◌≤◌, ◌<◌, ◌≡◌, refl, ap, sym, subst, ◌∙◌, Bool, List, [], ◌∷◌, ◌++◌,
  map, length, All, arith, append-nil, append_assoc, replicate, length-replicate,
}
use tcp_test.Frame.{Frame, IsByte, IsU32}
use tcp_test.Frame.RoundTrip.{Fits}
use tcp_test.Parser.Chunks.{serialize_all, sent}
use tcp_test.Reorder.InOrder.{Numbered}
use tcp_test.StreamManager.{StreamManager, send_frame, has_outgoing_frames, get_next_outgoing_frame}
use tcp_test.StreamManager.Streams.{of_stream}
use tcp_test.DemoServer.{
  response_data, response_to, respond, handle_frame, write_round, write_rounds,
}
use tcp_test.DemoServer.Reading.{handle_all}

-- The five responses to one frame, and those to several.
abbrev pub responses : ℕ → Frame → List Frame
responses u f =
    response_to u f 0
    ∷ response_to u f 1
    ∷ response_to u f 2
    ∷ response_to u f 3
    ∷ response_to u f 4
    ∷ []

abbrev pub all_responses : ℕ → List Frame → List Frame
all_responses u [] = []
all_responses u (f ∷ fs) = responses u f ++ all_responses u fs

handle_frame-outgoing :
    (u : ℕ) (m : StreamManager) (f : Frame)
    → handle_frame u m f ≡ record m { outgoing_frames = m.outgoing_frames ++ responses u f }
unfolding handle_frame respond send_frame
handle_frame-outgoing u m f = ap (λ fs. record m { outgoing_frames = fs }) (simp append_assoc)

-- Handling frames appends five responses for each to the outgoing queue, in the frames' order, and
-- changes nothing else of the manager.
pub handle_all-outgoing :
    (u : ℕ) (fs : List Frame) (m : StreamManager)
    → handle_all u m fs ≡ record m { outgoing_frames = m.outgoing_frames ++ all_responses u fs }
unfolding handle_all
handle_all-outgoing u [] m =
    ap (λ fs. record m { outgoing_frames = fs }) (sym (append-nil m.outgoing_frames))
handle_all-outgoing u (f ∷ fs) m =
    ap (λ m'. handle_all u m' fs) (handle_frame-outgoing u m f)
    ∙ handle_all-outgoing u fs (record m { outgoing_frames = m.outgoing_frames ++ responses u f })
    ∙ ap (λ gs. record m { outgoing_frames = gs })
        (append_assoc m.outgoing_frames (responses u f) (all_responses u fs))

-- As many rounds of the writer as there are frames in the queue, or more, send all of them, in order,
-- and leave the queue empty.
pub write_rounds-serialize :
    (enabled : Bool) (n : ℕ) (fs : List Frame) (m : StreamManager)
    → m.outgoing_frames ≡ fs
    → length fs ≤ n
    → write_rounds n enabled m ≡ (serialize_all enabled fs, record m { outgoing_frames = [] })
unfolding write_rounds write_round has_outgoing_frames get_next_outgoing_frame
write_rounds-serialize enabled zero [] m e h = ground (arith, e)
write_rounds-serialize enabled zero (f ∷ fs) m e h = absurd (omega arith)
write_rounds-serialize enabled (suc n) [] m e h =
    ground (arith, e, write_rounds-serialize enabled n [] m)
write_rounds-serialize enabled (suc n) (f ∷ fs) m e h =
    ground (arith, e, write_rounds-serialize enabled n fs (record m { outgoing_frames = fs }))

length-response_data : length response_data ≡ 4096
unfolding response_data
length-response_data = length-replicate {A = ℕ} 4096 65

replicate-IsByte : (n b : ℕ) → IsByte b → All IsByte (replicate n b)
replicate-IsByte zero b h = tt
replicate-IsByte (suc n) b h = (h, replicate-IsByte n b h)

response_data-IsByte : All IsByte response_data
unfolding response_data
response_data-IsByte = replicate-IsByte 4096 65 (omega arith)

response_to-Fits :
    (u : ℕ) (f : Frame) (i : ℕ) → IsU32 u → IsU32 f.stream_id → Fits (response_to u f i)
unfolding response_to
response_to-Fits u f i hu hs = record {
  length_u32 = omega arith;
  stream_u32 = hs;
  sequence_u32 = omega arith;
  checksum_u32 = hu;
  counted = omega (arith, length-response_data);
  bytes = response_data-IsByte;
}

pub all_responses-Fits :
    (u : ℕ) (fs : List Frame) → IsU32 u → All Fits fs → All Fits (all_responses u fs)
all_responses-Fits u [] hu h = tt
all_responses-Fits u (f ∷ fs) hu (v, vs) =
    (fit 0, (fit 1, (fit 2, (fit 3, (fit 4, all_responses-Fits u fs hu vs)))))
  where
    fit : (i : ℕ) → Fits (response_to u f i)
    fit i = response_to-Fits u f i hu v.stream_u32

-- The responses to frames numbered from `n` on are numbered from `5 * n` on.
pub all_responses-Numbered :
    (u n : ℕ) (fs : List Frame)
    → Numbered n fs
    → 5 * (n + length fs) < 2 ^ 32
    → Numbered (5 * n) (all_responses u fs)
unfolding response_to
all_responses-Numbered u n [] num small = tt
all_responses-Numbered u n (f ∷ fs) num small =
    let five : 5 * suc n ≡ suc (suc (suc (suc (suc (5 * n))))) = omega arith in
    let later : Numbered (5 * suc n) (all_responses u fs) =
      all_responses-Numbered u (suc n) fs num.1 (omega arith) in
    (
      omega (arith, num.0),
      (
        omega (arith, num.0),
        (
          omega (arith, num.0),
          (
            omega (arith, num.0),
            (omega (arith, num.0), subst (λ k. Numbered k (all_responses u fs)) five later),
          ),
        ),
      ),
    )

pub of_stream-responses :
    (u s : ℕ) (fs : List Frame)
    → of_stream s (all_responses u fs) ≡ all_responses u (of_stream s fs)
unfolding of_stream response_to
of_stream-responses u s [] = refl
of_stream-responses u s (f ∷ fs) = ground (arith, of_stream-responses u s fs)

pub length-all_responses : (u : ℕ) (fs : List Frame) → length (all_responses u fs) ≡ 5 * length fs
length-all_responses u [] = omega arith
length-all_responses u (f ∷ fs) = omega (arith, length-all_responses u fs)

-- A received frame has the stream and the number of the frame that was sent.
pub all_responses-sent :
    (enabled : Bool) (u : ℕ) (fs : List Frame)
    → all_responses u (map (sent enabled) fs) ≡ all_responses u fs
unfolding response_to
all_responses-sent enabled u [] = refl
all_responses-sent enabled u (f ∷ fs) = ap (◌++◌ (responses u f)) (all_responses-sent enabled u fs)

pub of_stream-sent :
    (enabled : Bool) (s : ℕ) (fs : List Frame)
    → of_stream s (map (sent enabled) fs) ≡ map (sent enabled) (of_stream s fs)
unfolding of_stream
of_stream-sent enabled s [] = refl
of_stream-sent enabled s (f ∷ fs) = ground (arith, of_stream-sent enabled s fs)

pub Numbered-sent :
    (enabled : Bool) (n : ℕ) (fs : List Frame) → Numbered n fs → Numbered n (map (sent enabled) fs)
Numbered-sent enabled n [] h = tt
Numbered-sent enabled n (f ∷ fs) (h, hs) = (h, Numbered-sent enabled (suc n) fs hs)

pub length-sent : (enabled : Bool) (fs : List Frame) → length (map (sent enabled) fs) ≡ length fs
length-sent enabled [] = refl
length-sent enabled (f ∷ fs) = ap suc (length-sent enabled fs)
