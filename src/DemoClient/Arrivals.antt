-- ===== src/DemoClient/Arrivals.antt =====
-- What the client prints and counts.
use mathlib.Core.List.{Perm}
use tcp_test.Common.{
  ℕ, ◌+◌, ◌^◌, ◌<◌, ◌≡◌, refl, ap, sym, ◌∙◌, Bool, true, false, List, [], ◌∷◌, ◌++◌, map, length,
  length-map, All, arith, if◌then◌else◌, Bool-cases, inl, inr,
}
use tcp_test.Frame.{Frame, IsByte, verify_checksum, calculate_checksum}
use tcp_test.Frame.RoundTrip.{Fits}
use tcp_test.Parser.{Received, receive}
use tcp_test.Parser.Chunks.{receive_all, concat, serialize_all, sent, receive_all-serialize}
use tcp_test.Reorder.InOrder.{Numbered}
use tcp_test.StreamManager.{StreamManager, new_manager, add_incoming_frame, lane_of, add_all}
use tcp_test.StreamManager.Streams.{of_stream, add_all-perm}
use tcp_test.DemoClient.{
  Reader, new_reader, print_in_order, accept_frame, accept_frames, handle_read,
}

-- The reader's maps and messages as the manager's: the code of both is the same.
abbrev as_manager : Reader → StreamManager
as_manager r = record {
  incoming_frames = r.printed;
  outgoing_frames = [];
  stream_frames = r.stream_frames;
  next_sequence = r.next_sequence;
}

-- The frames whose checksum is valid.
unfoldable pub valid : Bool → List Frame → List Frame
valid enabled [] = []
valid enabled (f ∷ fs) =
    let rest = valid enabled fs in if verify_checksum enabled f then f ∷ rest else rest

accept_valid :
    (enabled : Bool) (r : Reader) (f : Frame)
    → verify_checksum enabled f ≡ true
    → as_manager (accept_frame enabled r f) ≡ add_incoming_frame (as_manager r) f
unfolding accept_frame print_in_order add_incoming_frame lane_of
accept_valid enabled r f e = rw e refl

accept_invalid :
    (enabled : Bool) (r : Reader) (f : Frame)
    → verify_checksum enabled f ≡ false
    → as_manager (accept_frame enabled r f) ≡ as_manager r
unfolding accept_frame
accept_invalid enabled r f e = rw e refl

valid-cons :
    (enabled : Bool) (f : Frame) (fs : List Frame)
    → verify_checksum enabled f ≡ true
    → valid enabled (f ∷ fs) ≡ f ∷ valid enabled fs
unfolding valid
valid-cons enabled f fs e = rw e refl

valid-skip :
    (enabled : Bool) (f : Frame) (fs : List Frame)
    → verify_checksum enabled f ≡ false
    → valid enabled (f ∷ fs) ≡ valid enabled fs
unfolding valid
valid-skip enabled f fs e = rw e refl

accept_frames-manager :
    (enabled : Bool) (fs : List Frame) (r : Reader)
    → as_manager (accept_frames enabled r fs) ≡ add_all (as_manager r) (valid enabled fs)
unfolding accept_frames add_all valid
accept_frames-manager enabled [] r = refl
accept_frames-manager enabled (f ∷ fs) r = elim (Bool-cases (verify_checksum enabled f)) [
  | inl good ↦
      accept_frames-manager enabled fs (accept_frame enabled r f)
      ∙ ap (λ m. add_all m (valid enabled fs)) (accept_valid enabled r f good)
      ∙ ap (add_all (as_manager r)) (sym (valid-cons enabled f fs good))
  | inr bad ↦
      accept_frames-manager enabled fs (accept_frame enabled r f)
      ∙ ap (λ m. add_all m (valid enabled fs)) (accept_invalid enabled r f bad)
      ∙ ap (add_all (as_manager r)) (sym (valid-skip enabled f fs bad))
]

-- The statistics, as long as they do not wrap: every frame is counted once, as valid exactly if its
-- checksum is.
pub accept_frames-counts :
    (enabled : Bool) (fs : List Frame) (r : Reader)
    → r.total_frames + length fs < 2 ^ 32
    → r.total_frames ≡ r.valid_frames + r.invalid_frames
    → let r' = accept_frames enabled r fs in
      (r'.total_frames ≡ r.total_frames + length fs)
      × (r'.valid_frames ≡ r.valid_frames + length (valid enabled fs))
      × (r'.total_frames ≡ r'.valid_frames + r'.invalid_frames)
unfolding accept_frames valid accept_frame print_in_order
accept_frames-counts enabled [] r h e = omega arith
accept_frames-counts enabled (f ∷ fs) r h e =
    ground (arith, accept_frames-counts enabled fs (accept_frame enabled r f))

accept_frames-append :
    (enabled : Bool) (fs gs : List Frame) (r : Reader)
    → accept_frames enabled r (fs ++ gs) ≡ accept_frames enabled (accept_frames enabled r fs) gs
unfolding accept_frames
accept_frames-append enabled [] gs r = refl
accept_frames-append enabled (f ∷ fs) gs r =
    accept_frames-append enabled fs gs (accept_frame enabled r f)

-- The loop over the pieces accepts the frames that a reader receives.
handle_read-frames :
    (enabled : Bool) (pieces : List (List ℕ)) (r : Reader) (buffer : List ℕ)
    → handle_read enabled r buffer pieces
      ≡ accept_frames enabled r (receive_all buffer pieces).frames
unfolding handle_read receive_all accept_frames
handle_read-frames enabled [] r buffer = refl
handle_read-frames enabled (bytes ∷ more) r buffer =
    handle_read-frames enabled more (accept_frames enabled r (receive buffer bytes).frames)
      (receive buffer bytes).buffer
    ∙ sym (accept_frames-append enabled (receive buffer bytes).frames _ r)

-- What `serialize` has sent is valid for a reader with the same flag.
pub verify-sent : (enabled : Bool) (f : Frame) → verify_checksum enabled (sent enabled f) ≡ true
unfolding verify_checksum calculate_checksum
verify-sent enabled f = ground arith

valid-sent :
    (enabled : Bool) (fs : List Frame)
    → valid enabled (map (sent enabled) fs) ≡ map (sent enabled) fs
valid-sent enabled [] = unfold valid in refl
valid-sent enabled (f ∷ fs) =
    valid-cons enabled (sent enabled f) (map (sent enabled) fs) (verify-sent enabled f)
    ∙ ap (◌∷◌ (sent enabled f)) (valid-sent enabled fs)

-- Frames of any streams that fit the wire format are serialized in some order and cut anyhow on their
-- way to a new client with the same checksum flag. If those of one stream are, in some order, fewer than
-- 2 ^ 32 frames numbered from 0 up, the client prints just these for the stream, in the order of their
-- numbers.
pub handle_read-prints :
    (enabled : Bool) (fs : List Frame) (pieces : List (List ℕ)) (s : ℕ) (stream : List Frame)
    → All Fits fs
    → All (All IsByte) pieces
    → concat pieces ≡ serialize_all enabled fs
    → length stream < 2 ^ 32
    → Numbered 0 stream
    → Perm (of_stream s (map (sent enabled) fs)) stream
    → of_stream s (handle_read enabled new_reader [] pieces).printed ≡ stream
handle_read-prints enabled fs pieces s stream v b e small num p =
    ap (λ (m : StreamManager). of_stream s m.incoming_frames) managed
    ∙ add_all-perm (map (sent enabled) fs) stream s small num p
  where
    managed :
        as_manager (handle_read enabled new_reader [] pieces)
        ≡ add_all new_manager (map (sent enabled) fs)
    managed =
        ap as_manager (handle_read-frames enabled pieces new_reader [])
        ∙ accept_frames-manager enabled (receive_all [] pieces).frames new_reader
        ∙ ap (add_all new_manager) (
            ap (λ (r : Received). valid enabled r.frames)
              (receive_all-serialize enabled fs pieces v e b)
            ∙ valid-sent enabled fs)

-- Every frame that such a client receives counts as valid, none as invalid.
pub handle_read-counts :
    (enabled : Bool) (fs : List Frame) (pieces : List (List ℕ))
    → All Fits fs
    → All (All IsByte) pieces
    → concat pieces ≡ serialize_all enabled fs
    → length fs < 2 ^ 32
    → let r = handle_read enabled new_reader [] pieces in
      (r.total_frames ≡ length fs) × (r.valid_frames ≡ length fs) × (r.invalid_frames ≡ 0)
handle_read-counts enabled fs pieces v b e small =
    rw
      (
        handle_read-frames enabled pieces new_reader [],
        ap (λ (r : Received). r.frames) (receive_all-serialize enabled fs pieces v e b),
      )
      (omega (
        arith,
        length-map fs (sent enabled),
        ap length (valid-sent enabled fs),
        counts.0,
        counts.1,
        counts.2,
      ))
  where
    counts :
        let r' = accept_frames enabled new_reader (map (sent enabled) fs) in
        (r'.total_frames ≡ 0 + length (map (sent enabled) fs))
        × (r'.valid_frames ≡ 0 + length (valid enabled (map (sent enabled) fs)))
        × (r'.total_frames ≡ r'.valid_frames + r'.invalid_frames)
    counts =
        accept_frames-counts enabled (map (sent enabled) fs) new_reader
          (omega (arith, length-map fs (sent enabled))) refl
