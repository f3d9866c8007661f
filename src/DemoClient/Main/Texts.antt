-- ===== src/DemoClient/Main/Texts.antt =====
-- The messages of main: their frames fit the wire format.
use tcp_test.Common.{
  ℕ, zero, suc, ◌+◌, ◌^◌, ◌<◌, ◌≡◌, refl, ap, ◌∙◌, List, [], ◌∷◌, ◌++◌, All, length, arith,
}
use tcp_test.Common.Decimal.{to_string, digits}
use tcp_test.Frame.{Frame, IsByte, IsU32}
use tcp_test.Frame.RoundTrip.{Fits}
use tcp_test.DemoClient.{message_frame}
use tcp_test.DemoClient.Sessions.{message_text, from_stream, message_number}
use tcp_test.DemoClient.Messages.{frames_from}

to_string_digit : (n : ℕ) → n < 10 → to_string n ≡ (48 + n) ∷ []
unfolding to_string digits
to_string_digit n h = ground (arith, h)

text-length : (s j : ℕ) → s < 10 → j < 10 → length (message_text s j) ≡ 27
unfolding message_text from_stream message_number
text-length s j hs hj = rw (to_string_digit s hs, to_string_digit j hj) refl

text-IsByte : (s j : ℕ) → s < 10 → j < 10 → All IsByte (message_text s j)
unfolding message_text from_stream message_number
text-IsByte s j hs hj = rw (to_string_digit s hs, to_string_digit j hj) (ground (arith, hs, hj))

pub message-Fits :
    (u s j n : ℕ)
    → IsU32 u
    → s < 10
    → j < 10
    → n < 2 ^ 32
    → Fits (message_frame u (message_text s j) s n)
unfolding message_frame
message-Fits u s j n hu hs hj hn = record {
  length_u32 = omega arith;
  stream_u32 = omega arith;
  sequence_u32 = hn;
  checksum_u32 = hu;
  counted = omega (arith, text-length s j hs hj);
  bytes = text-IsByte s j hs hj;
}

-- One message more.
pub frames_from-snoc :
    (u stream_id k j n j' n' : ℕ)
    → j' ≡ j + k
    → n' ≡ n + k
    → frames_from u stream_id (suc k) j n
      ≡ frames_from u stream_id k j n
        ++ (message_frame u (message_text stream_id j') stream_id n' ∷ [])
unfolding frames_from
frames_from-snoc u stream_id zero j n j' n' e e' =
    ap (λ (i : ℕ). message_frame u (message_text stream_id i) stream_id n ∷ []) (omega (arith, e))
    ∙ ap (λ (i : ℕ). message_frame u (message_text stream_id j') stream_id i ∷ [])
        (omega (arith, e'))
frames_from-snoc u stream_id (suc k) j n j' n' e e' =
    ap (λ (fs : List Frame). message_frame u (message_text stream_id j) stream_id n ∷ fs)
      (frames_from-snoc u stream_id k (j + 1) (n + 1) j' n' (omega (arith, e)) (omega (arith, e')))
