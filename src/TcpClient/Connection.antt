-- ===== src/TcpClient/Connection.antt =====
-- Connecting and disconnecting: which descriptors are open, and the reader's thread.
use tcp_test.Common.{
  ◌≡◌, refl, ◌∙◌, Bool, true, false, not, ◌||◌, List, [], ◌∷◌, ◌++◌, arith, ◌==◌, if◌then◌else◌, ℤ,
  pos, negsuc, is_negative,
}
use tcp_test.TcpClient.{
  TcpClient, new_client, Call, opens, closes, shuts, spawns, joins, terminates, connect, disconnect,
}

-- Calls of `connect`, with what the system calls return, and of `disconnect`.
pub data Use : Type 0 where
  connects : ℤ → Bool → ℤ → Use
  disconnects : Use

unfoldable pub use_client : TcpClient → Use → TcpClient × List Call
use_client c (connects descriptor address connected) =
    let (success, c', calls) = connect c descriptor address connected in (c', calls)
use_client c disconnects = disconnect c

unfoldable pub use_all : TcpClient → List Use → TcpClient × List Call
use_all c [] = (c, [])
use_all c (u ∷ us) =
    let (c', calls) = use_client c u in let (c'', later) = use_all c' us in (c'', calls ++ later)

abbrev pub same : ℤ → ℤ → Bool
same (pos m) (pos n) = m == n
same (negsuc m) (negsuc n) = m == n
same (pos m) (negsuc n) = false
same (negsuc m) (pos n) = false

unfoldable pub release : ℤ → List ℤ → List ℤ
release d [] = []
release d (e ∷ es) = let rest = release d es in if same d e then es else e ∷ rest

-- The descriptors that are open after some calls.
unfoldable pub open_after : List ℤ → List Call → List ℤ
open_after held [] = held
open_after held (opens d ∷ calls) = open_after (d ∷ held) calls
open_after held (closes d ∷ calls) = open_after (release d held) calls
open_after held (shuts d ∷ calls) = open_after held calls
open_after held (spawns ∷ calls) = open_after held calls
open_after held (joins ∷ calls) = open_after held calls
open_after held (terminates ∷ calls) = open_after held calls

-- Whether a thread object is overwritten while its thread runs.
unfoldable pub is_terminated : List Call → Bool
is_terminated [] = false
is_terminated (opens d ∷ calls) = is_terminated calls
is_terminated (closes d ∷ calls) = is_terminated calls
is_terminated (shuts d ∷ calls) = is_terminated calls
is_terminated (spawns ∷ calls) = is_terminated calls
is_terminated (joins ∷ calls) = is_terminated calls
is_terminated (terminates ∷ calls) = true

abbrev pub own_descriptor : TcpClient → List ℤ
own_descriptor c = if is_negative c.socket then [] else c.socket ∷ []

open_after-append :
    (xs ys : List Call) (held : List ℤ)
    → open_after held (xs ++ ys) ≡ open_after (open_after held xs) ys
unfolding open_after
open_after-append [] ys held = refl
open_after-append (opens d ∷ xs) ys held = open_after-append xs ys (d ∷ held)
open_after-append (closes d ∷ xs) ys held = open_after-append xs ys (release d held)
open_after-append (shuts d ∷ xs) ys held = open_after-append xs ys held
open_after-append (spawns ∷ xs) ys held = open_after-append xs ys held
open_after-append (joins ∷ xs) ys held = open_after-append xs ys held
open_after-append (terminates ∷ xs) ys held = open_after-append xs ys held

is_terminated-append :
    (xs ys : List Call) → is_terminated (xs ++ ys) ≡ (is_terminated xs || is_terminated ys)
unfolding is_terminated
is_terminated-append [] ys = refl
is_terminated-append (opens d ∷ xs) ys = is_terminated-append xs ys
is_terminated-append (closes d ∷ xs) ys = is_terminated-append xs ys
is_terminated-append (shuts d ∷ xs) ys = is_terminated-append xs ys
is_terminated-append (spawns ∷ xs) ys = is_terminated-append xs ys
is_terminated-append (joins ∷ xs) ys = is_terminated-append xs ys
is_terminated-append (terminates ∷ xs) ys = refl

-- The reader's thread belongs to an open socket.
abbrev pub IsPaired : TcpClient → Type 0
IsPaired c = c.joinable ≡ not (is_negative c.socket)

abbrev Tracked : TcpClient → TcpClient × List Call → Type 0
Tracked c r =
    IsPaired r.0
    × (open_after (own_descriptor c) r.1 ≡ own_descriptor r.0)
    × (is_terminated r.1 ≡ false)

use_client-Tracked : (c : TcpClient) (u : Use) → IsPaired c → Tracked c (use_client c u)
unfolding use_client connect disconnect open_after is_terminated release
use_client-Tracked c (connects (pos n) true (pos m)) h = ground arith
use_client-Tracked c (connects (pos n) true (negsuc m)) h = ground arith
use_client-Tracked c (connects (pos n) false r) h = ground arith
use_client-Tracked c (connects (negsuc n) a r) h = ground arith
use_client-Tracked c disconnects h = ground arith

use_all-Tracked : (us : List Use) (c : TcpClient) → IsPaired c → Tracked c (use_all c us)
unfolding use_all open_after is_terminated
use_all-Tracked [] c h = (h, refl, refl)
use_all-Tracked (u ∷ us) c h =
    let (paired, opened, alive) = use_client-Tracked c u h in
    let (paired', opened', alive') = use_all-Tracked us (use_client c u).0 paired in
    (
      paired',
      open_after-append (use_client c u).1 _ (own_descriptor c) ∙ rw opened opened',
      is_terminated-append (use_client c u).1 _ ∙ rw (alive, alive') refl,
    )

-- However calls of `connect`, whatever the system answers them, and of `disconnect` follow one another
-- on a new client: the one descriptor that is open afterwards is the client's own, if it has one, and
-- no thread was overwritten while it ran.
pub use_all-new_client :
    (us : List Use)
    → let (c, calls) = use_all new_client us in
      (open_after [] calls ≡ (if is_negative c.socket then [] else c.socket ∷ []))
      × (is_terminated calls ≡ false)
      × (c.joinable ≡ not (is_negative c.socket))
use_all-new_client us =
    let (paired, opened, alive) = use_all-Tracked us new_client refl in (opened, alive, paired)
