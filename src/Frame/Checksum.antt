-- ===== src/Frame/Checksum.antt =====
-- The checksum: a sum modulo 2 ^ 32 of three header words and the payload's bytes.
use tcp_test.Common.{
  ℕ, ◌+◌, ◌%◌, ◌^◌, ◌<◌, ◌≡◌, ◌≢◌, ap, List, [], ◌∷◌, ◌++◌, arith, Bool, true, false,
}
use tcp_test.Frame.{Frame, IsByte, accumulate, calculate_checksum, verify_checksum}

unfoldable pub sum : List ℕ → ℕ
sum [] = 0
sum (b ∷ bs) = b + sum bs

pub sum-append : (xs ys : List ℕ) → sum (xs ++ ys) ≡ sum xs + sum ys
unfolding sum
sum-append [] ys = omega arith
sum-append (x ∷ xs) ys = omega (arith, sum-append xs ys)

-- The wrap at every step is one wrap at the end.
accumulate-sum :
    (bs : List ℕ) (acc : ℕ) → acc < 2 ^ 32 → accumulate bs acc ≡ (acc + sum bs) % 2 ^ 32
unfolding accumulate sum
accumulate-sum [] acc h = omega arith
accumulate-sum (b ∷ bs) acc h = omega (arith, accumulate-sum bs ((acc + b) % 2 ^ 32) (omega arith))

-- With the flag set the checksum is the sum of the three other header fields and of the payload's
-- bytes, modulo 2 ^ 32.
pub calculate_checksum-sum :
    (f : Frame)
    → calculate_checksum true f ≡ (f.length + f.stream_id + f.sequence + sum f.payload) % 2 ^ 32
unfolding calculate_checksum sum
calculate_checksum-sum f = ground (arith, accumulate-sum f.payload 0)

pub calculate_checksum-lt : (enabled : Bool) (f : Frame) → calculate_checksum enabled f < 2 ^ 32
calculate_checksum-lt true f = omega (arith, calculate_checksum-sum f)
calculate_checksum-lt false f = unfold calculate_checksum in omega arith

-- With the flag set, a frame whose stored checksum matches stops matching when one byte of its payload
-- is replaced by another byte, wherever it stands.
pub verify_checksum_detects :
    (f : Frame) (front back : List ℕ) (x y : ℕ)
    → f.payload ≡ front ++ (x ∷ back)
    → IsByte x
    → IsByte y
    → x ≢ y
    → verify_checksum true f ≡ true
    → verify_checksum true (record f { payload = front ++ (y ∷ back) }) ≡ false
unfolding verify_checksum sum
verify_checksum_detects f front back x y e hx hy ne ok = ground (
  arith,
  ap sum e,
  sum-append front (x ∷ back),
  sum-append front (y ∷ back),
  calculate_checksum-sum f,
  calculate_checksum-sum (record f { payload = front ++ (y ∷ back) }),
)
