-- ===== src/DemoClient/Main/Frames.antt =====
-- The frame of one message: its stream, and what the writer makes of it.
use tcp_test.Common.{ℕ, ◌+◌, ◌≡◌, ◌≢◌, refl, Bool, true, none, some, List, [], ◌∷◌, arith}
use tcp_test.Frame.{Frame, serialize}
use tcp_test.StreamManager.Streams.{of_stream}
use tcp_test.DemoClient.{Client, message_frame, write_frame}
use tcp_test.DemoClient.Sessions.{message_text}

-- The frame of a message that is queued.
abbrev pub message : ℕ → ℕ → ℕ → ℕ → Frame
message u i j sequence = message_frame u (message_text (i + 1) j) (i + 1) sequence

pub of_stream-message :
    (u i j sequence : ℕ)
    → of_stream (i + 1) (message u i j sequence ∷ []) ≡ message u i j sequence ∷ []
unfolding of_stream message_frame
of_stream-message u i j sequence = ground arith

pub of_stream-message_ne :
    (u i k j sequence : ℕ) → i ≢ k → of_stream (k + 1) (message u i j sequence ∷ []) ≡ []
unfolding of_stream message_frame
of_stream-message_ne u i k j sequence ne = ground arith

pub write-first :
    (enabled : Bool) (c : Client) (f : Frame) (rest : List Frame)
    → c.outgoing_frames ≡ f ∷ rest
    → write_frame enabled true c ≡ some (serialize enabled f, record c { outgoing_frames = rest })
unfolding write_frame
write-first enabled c f rest e = rw e refl

pub write-none :
    (enabled : Bool) (c : Client) → c.outgoing_frames ≡ [] → write_frame enabled true c ≡ none
unfolding write_frame
write-none enabled c e = rw e refl
