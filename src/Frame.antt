-- ===== src/Frame.antt =====
-- include/frame.h, struct Frame: one message on the wire. Bytes are numbers below 256 and the
-- uint32_t fields numbers below 2 ^ 32; the static flag `enable_checksum` is an argument.
pub mod Words
pub mod RoundTrip
pub mod Checksum
mod Tests
use tcp_test.Common.{
  ℕ, zero, suc, ◌+◌, ◌*◌, ◌/◌, ◌%◌, ◌^◌, ◌≤◌, ◌<◌, bit_or, ◌≡◌, Bool, true, false, not, Option,
  none, some, List, [], ◌∷◌, ◌++◌, length, get_or, take, drop, All, ltb, ◌==◌, if◌then◌else◌,
  Result, ok, err, ℤ, minus_one,
}

abbrev pub header_size : ℕ
header_size = 16

abbrev pub IsByte : ℕ → Type 0
IsByte b = b < 256

abbrev pub IsU32 : ℕ → Type 0
IsU32 v = v < 2 ^ 32

pub record Frame : Type 0 where
  pub length : ℕ
  pub stream_id : ℕ
  pub sequence : ℕ
  pub checksum : ℕ
  pub payload : List ℕ
  pub client_id : ℤ

-- What the two `throw`s of `deserialize` report.
pub data FrameError : Type 0 where
  short_header short_payload : FrameError

-- `std::accumulate` from 0u: the sum wraps at 32 bits at every step.
unfoldable pub accumulate : List ℕ → ℕ → ℕ
accumulate [] sum = sum
accumulate (b ∷ bs) sum = accumulate bs ((sum + b) % 2 ^ 32)

abbrev pub is_empty {ℓ} : {A : Type ℓ} → List A → Bool
is_empty [] = true
is_empty (x ∷ xs) = false

unfoldable pub calculate_checksum : Bool → Frame → ℕ
calculate_checksum enabled f =
    let sum = (f.length + f.stream_id + f.sequence) % 2 ^ 32 in
    if not enabled
    then 0
    else if not (is_empty f.payload)
    then (sum + accumulate f.payload 0) % 2 ^ 32
    else sum

unfoldable pub verify_checksum : Bool → Frame → Bool
verify_checksum enabled f =
    if not enabled then true else (f.checksum == calculate_checksum enabled f)

-- `(v >> 24) & 0xFF` and so on: four bytes, the highest first.
unfoldable pub put_word : ℕ → List ℕ
put_word v = v / 2 ^ 24 % 256 ∷ v / 2 ^ 16 % 256 ∷ v / 2 ^ 8 % 256 ∷ v % 256 ∷ []

-- The header of four words, and the payload behind it. The stored checksum is not written.
unfoldable pub serialize : Bool → Frame → List ℕ
serialize enabled f =
    put_word f.length
    ++ (put_word f.stream_id
        ++ (put_word f.sequence ++ (put_word (calculate_checksum enabled f) ++ f.payload)))

-- `(data[i] << 24) | (data[i + 1] << 16) | (data[i + 2] << 8) | data[i + 3]`, where the caller has
-- checked that the four bytes are there.
unfoldable pub get_word : List ℕ → ℕ → ℕ
get_word data_ i =
    bit_or
      (bit_or (bit_or (get_or data_ i 0 * 2 ^ 24) (get_or data_ (i + 1) 0 * 2 ^ 16))
        (get_or data_ (i + 2) 0 * 2 ^ 8))
      (get_or data_ (i + 3) 0)

-- The frame that the four header words and the payload behind them make.
abbrev pub frame_of : List ℕ → Frame
frame_of data_ = record {
  length = get_word data_ 0;
  stream_id = get_word data_ 4;
  sequence = get_word data_ 8;
  checksum = get_word data_ 12;
  payload = take (get_word data_ 0) (drop header_size data_);
  client_id = minus_one;
}

unfoldable pub deserialize : List ℕ → Result FrameError Frame
deserialize data_ =
    if ltb (length data_) header_size
    then err short_header
    else if ltb (length data_) (header_size + get_word data_ 0)
    then err short_payload
    else ok (frame_of data_)

-- The header as the four words that `parse_header` stores through its reference arguments.
pub record Header : Type 0 where
  pub length : ℕ
  pub stream_id : ℕ
  pub sequence : ℕ
  pub checksum : ℕ

-- `none` where it returns false and leaves its arguments alone.
pub parse_header : List ℕ → Option Header
parse_header data_ =
    if ltb (length data_) header_size
    then none
    else some (record {
      length = get_word data_ 0;
      stream_id = get_word data_ 4;
      sequence = get_word data_ 8;
      checksum = get_word data_ 12;
    })
