-- ===== src/Frame/Tests.antt =====
-- include/frame.h and tests/frame_test.cpp: the frame that carries "Hello" on stream 1.
use tcp_test.Common.{List, ℕ, ◌≡◌, ◌↔◌, refl, true, false, [], ◌∷◌, ◌++◌, arith, ok, err}
use tcp_test.Frame.{
  short_header, put_word, get_word, serialize, deserialize, calculate_checksum, verify_checksum,
  accumulate,
}
use tcp_test.Frame.RoundTrip.{
  unowned, sealed, deserialize-serialize, deserialize-accepts, emit, Fits,
}
use tcp_test.Samples.{hello, hello_bytes, hello-Fits}
use tcp_test.Frame.Checksum.{verify_checksum_detects}

serialize-hello : serialize true hello ≡ hello_bytes
unfolding serialize put_word calculate_checksum accumulate
serialize-hello = refl

deserialize-hello : deserialize hello_bytes ≡ ok hello
unfolding deserialize get_word
deserialize-hello = refl

deserialize_cut : deserialize (0 ∷ 0 ∷ []) ≡ err short_header
unfolding deserialize
deserialize_cut = refl

deserialize-serialize_example :
    deserialize (serialize true hello ++ (9 ∷ [])) ≡ ok (unowned (sealed true hello))
deserialize-serialize_example = deserialize-serialize true hello (9 ∷ []) hello-Fits

deserialize-accepts_example : (deserialize hello_bytes ≡ ok hello) ↔ (
    Fits hello × (hello ≡ unowned hello) × ((rest : List ℕ) × (hello_bytes ≡ emit hello ++ rest)))
deserialize-accepts_example = deserialize-accepts hello_bytes hello (ground arith)

verify_hello : verify_checksum true hello ≡ true
unfolding verify_checksum calculate_checksum accumulate
verify_hello = refl

detects_example :
    verify_checksum true (record hello { payload = 88 ∷ 101 ∷ 108 ∷ 108 ∷ 111 ∷ [] }) ≡ false
detects_example =
    verify_checksum_detects hello [] (101 ∷ 108 ∷ 108 ∷ 111 ∷ []) 72 88 refl (omega arith)
      (omega arith) (omega arith) verify_hello
