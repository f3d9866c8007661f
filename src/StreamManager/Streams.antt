-- ===== src/StreamManager/Streams.antt =====
-- The streams of a connection do not disturb one another: the frames of each are handed on as if it
-- were alone.
use mathlib.Core.List.{Perm, filter}
use native.Mathlib.Decide.{ℕ_discrete}
use tcp_test.Common.{
  ℕ, ◌+◌, ◌%◌, ◌^◌, ◌<◌, ◌≡◌, ◌≢◌, refl, ap, sym, subst, ◌∙◌, List, [], ◌∷◌, ◌++◌, length, All,
  arith, ◌==◌, if◌then◌else◌, append_assoc, append-nil,
}
use tcp_test.Common.OrdMap.{OrdMap, find, insert, find_or, find_or-assign_self, find_or-assign_ne}
use tcp_test.Frame.{Frame}
use tcp_test.Reorder.{Lane, Drained, drain, lane_add, lane_run}
use tcp_test.Reorder.InOrder.{Numbered, lane_run-perm}
use tcp_test.StreamManager.{StreamManager, new_manager, lane_of, add_incoming_frame, add_all}

-- The frames of one stream, in their order.
unfoldable pub of_stream : ℕ → List Frame → List Frame
of_stream s [] = []
of_stream s (f ∷ fs) = let rest = of_stream s fs in if f.stream_id == s then f ∷ rest else rest

pub of_stream-append :
    (s : ℕ) (fs gs : List Frame) → of_stream s (fs ++ gs) ≡ of_stream s fs ++ of_stream s gs
unfolding of_stream
of_stream-append s [] gs = refl
of_stream-append s (f ∷ fs) gs = ground (arith, of_stream-append s fs gs)

pub of_stream-filter :
    (s : ℕ) (fs : List Frame) → of_stream s fs ≡ filter (λ f. ℕ_discrete f.stream_id s) fs
unfolding of_stream
of_stream-filter s [] = refl
of_stream-filter s (f ∷ fs) = ground (arith, of_stream-filter s fs)

abbrev On : ℕ → List Frame → Type 0
On s = All λ f. f.stream_id ≡ s

of_stream_own : (s : ℕ) (fs : List Frame) → On s fs → of_stream s fs ≡ fs
unfolding of_stream
of_stream_own s [] h = refl
of_stream_own s (f ∷ fs) h = ground (arith, of_stream_own s fs h.1)

of_stream_other : (s t : ℕ) (fs : List Frame) → s ≢ t → On s fs → of_stream t fs ≡ []
unfolding of_stream
of_stream_other s t [] ne h = refl
of_stream_other s t (f ∷ fs) ne h = ground (arith, of_stream_other s t fs ne h.1)

-- A queue that holds frames of one stream only.
abbrev QueueOn : ℕ → OrdMap Frame → Type 0
QueueOn s [] = Unit {0}
QueueOn s ((k, f) ∷ q) = (f.stream_id ≡ s) × QueueOn s q

insert-QueueOn :
    (s k : ℕ) (f : Frame) (q : OrdMap Frame)
    → f.stream_id ≡ s
    → QueueOn s q
    → QueueOn s (insert k f q)
unfolding insert
insert-QueueOn s k f [] e h = (e, tt)
insert-QueueOn s k f ((j, g) ∷ q) e h = ground (arith, insert-QueueOn s k f q)

drain-QueueOn :
    (s : ℕ) (q : OrdMap Frame) (next : ℕ)
    → QueueOn s q
    → On s (drain q next).delivered × QueueOn s (drain q next).lane.queue
unfolding drain
drain-QueueOn s [] next h = (tt, tt)
drain-QueueOn s ((k, f) ∷ q) next h = ground (arith, drain-QueueOn s q ((next + 1) % 2 ^ 32) h.1)

lane_add-QueueOn :
    (s : ℕ) (lane : Lane) (f : Frame)
    → f.stream_id ≡ s
    → QueueOn s lane.queue
    → On s (lane_add lane f).delivered × QueueOn s (lane_add lane f).lane.queue
unfolding lane_add
lane_add-QueueOn s lane f e h =
    drain-QueueOn s (insert f.sequence f lane.queue) lane.next
      (insert-QueueOn s f.sequence f lane.queue e h)

-- Every stream's queue holds frames of that stream.
pub record Separate (m : StreamManager) : Type 0 where
  pub own : (s : ℕ) → QueueOn s (lane_of m s).queue

lane_of-add_self :
    (m : StreamManager) (f : Frame)
    → lane_of (add_incoming_frame m f) f.stream_id ≡ (lane_add (lane_of m f.stream_id) f).lane
unfolding add_incoming_frame lane_of
lane_of-add_self m f = rw (
  find_or-assign_self [] f.stream_id (lane_add (lane_of m f.stream_id) f).lane.queue
      m.stream_frames,
  find_or-assign_self 0 f.stream_id (lane_add (lane_of m f.stream_id) f).lane.next m.next_sequence,
)

lane_of-add_ne :
    (m : StreamManager) (f : Frame) (s : ℕ)
    → f.stream_id ≢ s
    → lane_of (add_incoming_frame m f) s ≡ lane_of m s
unfolding add_incoming_frame lane_of
lane_of-add_ne m f s ne = rw (
  find_or-assign_ne [] f.stream_id s (lane_add (lane_of m f.stream_id) f).lane.queue m.stream_frames
      ne,
  find_or-assign_ne 0 f.stream_id s (lane_add (lane_of m f.stream_id) f).lane.next m.next_sequence
      ne,
)

add-Separate : (m : StreamManager) (f : Frame) → Separate m → Separate (add_incoming_frame m f)
add-Separate m f v = record { own = λ s. kept s (ℕ_discrete f.stream_id s) }
  where
    kept : (s : ℕ) → Dec (f.stream_id ≡ s) → QueueOn s (lane_of (add_incoming_frame m f) s).queue
    kept s (yes e) =
        subst (λ t. QueueOn t (lane_of (add_incoming_frame m f) t).queue) e
          (rw (lane_of-add_self m f)
            (lane_add-QueueOn f.stream_id (lane_of m f.stream_id) f refl (v.own f.stream_id)).1)
    kept s (no ne) = rw (lane_of-add_ne m f s ne) (v.own s)

-- What one frame adds to the incoming frames of a stream.
add-incoming_self :
    (m : StreamManager) (f : Frame)
    → Separate m
    → of_stream f.stream_id (add_incoming_frame m f).incoming_frames
      ≡ of_stream f.stream_id m.incoming_frames ++ (lane_add (lane_of m f.stream_id) f).delivered
unfolding add_incoming_frame
add-incoming_self m f v =
    of_stream-append f.stream_id m.incoming_frames (lane_add (lane_of m f.stream_id) f).delivered
    ∙ ap (◌++◌ (of_stream f.stream_id m.incoming_frames)) (
        of_stream_own f.stream_id _
          (lane_add-QueueOn f.stream_id (lane_of m f.stream_id) f refl (v.own f.stream_id)).0)

add-incoming_ne :
    (m : StreamManager) (f : Frame) (s : ℕ)
    → f.stream_id ≢ s
    → Separate m
    → of_stream s (add_incoming_frame m f).incoming_frames ≡ of_stream s m.incoming_frames
unfolding add_incoming_frame
add-incoming_ne m f s ne v =
    of_stream-append s m.incoming_frames (lane_add (lane_of m f.stream_id) f).delivered
    ∙ rw
        (of_stream_other f.stream_id s (lane_add (lane_of m f.stream_id) f).delivered ne
          (lane_add-QueueOn f.stream_id (lane_of m f.stream_id) f refl (v.own f.stream_id)).0)
        (append-nil (of_stream s m.incoming_frames))

-- A manager that shows, at one stream, what a lane becomes over some frames.
abbrev Shows : StreamManager → ℕ → Lane → List Frame → List Frame → Type 0
Shows m s lane before fs =
    let r = lane_run lane fs in
    (lane_of m s ≡ r.lane) × (of_stream s m.incoming_frames ≡ before ++ r.delivered)

Shows-cons :
    (m : StreamManager) (s : ℕ) (lane : Lane) (before : List Frame) (f : Frame) (fs : List Frame)
    → Shows m s (lane_add lane f).lane (before ++ (lane_add lane f).delivered) fs
    → Shows m s lane before (f ∷ fs)
unfolding lane_run
Shows-cons m s lane before f fs (e, out) =
    (e, out ∙ append_assoc before (lane_add lane f).delivered _)

pub of_stream_self :
    (f : Frame) (fs : List Frame) → of_stream f.stream_id (f ∷ fs) ≡ f ∷ of_stream f.stream_id fs
unfolding of_stream
of_stream_self f fs = ground arith

pub of_stream_skip :
    (s : ℕ) (f : Frame) (fs : List Frame) → f.stream_id ≢ s → of_stream s (f ∷ fs) ≡ of_stream s fs
unfolding of_stream
of_stream_skip s f fs ne = ground arith

Shows-add :
    (m m' : StreamManager) (f : Frame) (fs : List Frame) (s : ℕ)
    → Separate m
    → Shows m' s
        (lane_of (add_incoming_frame m f) s)
        (of_stream s (add_incoming_frame m f).incoming_frames)
        (of_stream s fs)
    → Shows m' s (lane_of m s) (of_stream s m.incoming_frames) (of_stream s (f ∷ fs))
Shows-add m m' f fs s v ih = elim (ℕ_discrete f.stream_id s) [
  | yes e ↦ subst Goal e own ih
  | no ne ↦
      rw (of_stream_skip s f fs ne, ← lane_of-add_ne m f s ne, ← add-incoming_ne m f s ne v) ih
]
  where
    Given : ℕ → Type 0
    Given t =
        Shows m' t (lane_of (add_incoming_frame m f) t)
          (of_stream t (add_incoming_frame m f).incoming_frames) (of_stream t fs)

    Goal : ℕ → Type 0
    Goal t =
        Given t → Shows m' t (lane_of m t) (of_stream t m.incoming_frames) (of_stream t (f ∷ fs))

    own : Goal f.stream_id
    own given = rw (of_stream_self f fs) (
        Shows-cons m' f.stream_id (lane_of m f.stream_id) (of_stream f.stream_id m.incoming_frames)
          f (of_stream f.stream_id fs)
          (rw (← lane_of-add_self m f, ← add-incoming_self m f v) given))

-- Seen from one stream, a manager that is given frames of any streams does what that stream's lane does
-- with its own frames: the lane's state, and the frames handed on.
pub add_all-lane :
    (fs : List Frame) (m : StreamManager) (s : ℕ)
    → Separate m
    → let r = lane_run (lane_of m s) (of_stream s fs) in
      (lane_of (add_all m fs) s ≡ r.lane)
      × (of_stream s (add_all m fs).incoming_frames ≡ of_stream s m.incoming_frames ++ r.delivered)
unfolding add_all of_stream lane_run
add_all-lane [] m s v = (refl, sym (append-nil (of_stream s m.incoming_frames)))
add_all-lane (f ∷ fs) m s v =
    Shows-add m (add_all (add_incoming_frame m f) fs) f fs s v
      (add_all-lane fs (add_incoming_frame m f) s (add-Separate m f v))

-- Frames of several streams that reach a new manager in any order: if those of one stream are, in some
-- order, frames numbered from 0 up, then the manager hands on just these, in the order of their numbers.
pub add_all-perm :
    (arrived sent : List Frame) (s : ℕ)
    → length sent < 2 ^ 32
    → Numbered 0 sent
    → Perm (of_stream s arrived) sent
    → of_stream s (add_all new_manager arrived).incoming_frames ≡ sent
unfolding find_or find of_stream lane_of
add_all-perm arrived sent s small num p =
    (add_all-lane arrived new_manager s (record { own = λ t. tt })).1
    ∙ ap (λ (d : Drained). d.delivered) (lane_run-perm sent (of_stream s arrived) small num p)
