-- ===== src/Samples.antt =====
-- Frames for the tests: "Hello" on stream 1, as in tests/frame_test.cpp, and small numbered frames.
use tcp_test.Common.{ℕ, ◌<◌, refl, List, [], ◌∷◌, arith, minus_one}
use tcp_test.Frame.{Frame}
use tcp_test.Frame.RoundTrip.{Fits}

abbrev pub hello : Frame
hello = record {
  length = 5;
  stream_id = 1;
  sequence = 1;
  checksum = 507;
  payload = 72 ∷ 101 ∷ 108 ∷ 108 ∷ 111 ∷ [];
  client_id = minus_one;
}

abbrev pub hello_bytes : List ℕ
hello_bytes =
    0 ∷ 0 ∷ 0 ∷ 5 ∷ 0 ∷ 0 ∷ 0 ∷ 1 ∷ 0 ∷ 0 ∷ 0 ∷ 1 ∷ 0 ∷ 0 ∷ 1 ∷ 251 ∷ 72 ∷ 101 ∷ 108 ∷ 108 ∷ 111
    ∷ []

pub hello-Fits : Fits hello
hello-Fits = record {
  length_u32 = omega arith;
  stream_u32 = omega arith;
  sequence_u32 = omega arith;
  checksum_u32 = omega arith;
  counted = refl;
  bytes = omega arith;
}

-- The frame number `i` of stream `s`, with the byte `i` for its payload.
abbrev pub numbered : ℕ → ℕ → Frame
numbered s i = record {
  length = 1;
  stream_id = s;
  sequence = i;
  checksum = 0;
  payload = i ∷ [];
  client_id = minus_one;
}

pub numbered-Fits : (s i : ℕ) → s < 256 → i < 256 → Fits (numbered s i)
numbered-Fits s i hs hi = record {
  length_u32 = omega arith;
  stream_u32 = omega arith;
  sequence_u32 = omega arith;
  checksum_u32 = omega arith;
  counted = refl;
  bytes = omega arith;
}
