-- ===== src/Parser/Tests.antt =====
-- Two frames and the beginning of a third, whole and in pieces.
use tcp_test.Common.{ℕ, ◌≡◌, refl, false, List, [], ◌∷◌, ◌++◌, map, length, take, drop, All, arith}
use tcp_test.Frame.{Frame, put_word, get_word, serialize, deserialize, calculate_checksum}
use tcp_test.Frame.RoundTrip.{Fits}
use tcp_test.Samples.{numbered, numbered-Fits, hello, hello_bytes, hello-Fits}
use tcp_test.Parser.{parse_round, parse_loop, process_data}
use tcp_test.Parser.Stream.{emits, IsPartial, process_data_lossless}
use tcp_test.Parser.Chunks.{receive_all, receive_all-serialize, sent}

abbrev two : List Frame
two = hello ∷ numbered 2 7 ∷ []

abbrev two_bytes : List ℕ
two_bytes = hello_bytes ++ (0 ∷ 0 ∷ 0 ∷ 1 ∷ 0 ∷ 0 ∷ 0 ∷ 2 ∷ 0 ∷ 0 ∷ 0 ∷ 7 ∷ 0 ∷ 0 ∷ 0 ∷ 0 ∷ 7 ∷ [])

two-Fits : All Fits two
two-Fits = (hello-Fits, (numbered-Fits 2 7 (omega arith) (omega arith), tt))

runs : process_data (two_bytes ++ (0 ∷ 0 ∷ [])) ≡ record { frames = two; consumed = 38 }
unfolding process_data parse_loop parse_round deserialize get_word
runs = refl

process_data_lossless_example :
    let parsed = process_data hello_bytes in
    All Fits parsed.frames
    × (emits parsed.frames ++ drop parsed.consumed hello_bytes ≡ hello_bytes)
    × (parsed.consumed ≡ length (emits parsed.frames))
    × IsPartial (drop parsed.consumed hello_bytes)
process_data_lossless_example = process_data_lossless hello_bytes (omega arith)

abbrev front : List ℕ
front = take 18 hello_bytes

abbrev back : List ℕ
back = drop 18 hello_bytes

abbrev one : List Frame
one = numbered 2 7 ∷ []

pieces : List (List ℕ)
unfolding serialize put_word
pieces = take 3 (serialize false (numbered 2 7)) ∷ drop 3 (serialize false (numbered 2 7)) ∷ []

receive_all-serialize_example :
    receive_all [] pieces ≡ record { frames = map (sent false) one; buffer = [] }
unfolding pieces serialize put_word calculate_checksum
receive_all-serialize_example =
    receive_all-serialize false one pieces (numbered-Fits 2 7 (omega arith) (omega arith), tt) refl
      (omega arith)
