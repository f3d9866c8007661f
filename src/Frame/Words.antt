-- ===== src/Frame/Words.antt =====
-- Words on the wire: what `get_word` reads is what `put_word` wrote, and the other way round.
use tcp_test.Common.{
  ℕ, ◌+◌, ◌*◌, ◌/◌, ◌%◌, ◌^◌, ◌≤◌, bit_or, ◌≡◌, refl, List, [], ◌∷◌, ◌++◌, length, take, drop,
  get_or-drop, All-drop, length-drop, All, arith, get_or-append_right,
}
use tcp_test.Common.Bits.{bit_or_add}
use tcp_test.Frame.{IsByte, IsU32, put_word, get_word}

-- The shifted bytes do not overlap, so `|` adds them.
word_sum :
    (a b c d : ℕ)
    → IsByte b
    → IsByte c
    → IsByte d
    → bit_or (bit_or (bit_or (a * 2 ^ 24) (b * 2 ^ 16)) (c * 2 ^ 8)) d
      ≡ a * 2 ^ 24 + b * 2 ^ 16 + c * 2 ^ 8 + d
word_sum a b c d hb hc hd = rw one (rw two (rw three refl))
  where
    one : bit_or (a * 2 ^ 24) (b * 2 ^ 16) ≡ (a * 2 ^ 8 + b) * 2 ^ 16
    one = omega (arith, bit_or_add 24 a (b * 2 ^ 16) (omega arith))

    two : bit_or ((a * 2 ^ 8 + b) * 2 ^ 16) (c * 2 ^ 8) ≡ (a * 2 ^ 16 + b * 2 ^ 8 + c) * 2 ^ 8
    two = omega (arith, bit_or_add 16 (a * 2 ^ 8 + b) (c * 2 ^ 8) (omega arith))

    three :
        bit_or ((a * 2 ^ 16 + b * 2 ^ 8 + c) * 2 ^ 8) d ≡ a * 2 ^ 24 + b * 2 ^ 16 + c * 2 ^ 8 + d
    three = omega (arith, bit_or_add 8 (a * 2 ^ 16 + b * 2 ^ 8 + c) d hd)

pub length-put_word : (v : ℕ) → length (put_word v) ≡ 4
unfolding put_word
length-put_word v = refl

pub put_word-IsByte : (v : ℕ) → All IsByte (put_word v)
unfolding put_word
put_word-IsByte v = omega arith

-- Reading a word back at the front of a list.
pub get_word-put_word : (v : ℕ) (rest : List ℕ) → IsU32 v → get_word (put_word v ++ rest) 0 ≡ v
unfolding get_word put_word
get_word-put_word v rest h = omega (
  arith,
  word_sum (v / 2 ^ 24 % 256) (v / 2 ^ 16 % 256) (v / 2 ^ 8 % 256) (v % 256) (omega arith)
      (omega arith) (omega arith),
)

-- A reading position moves with what is put in front.
pub get_word-append_right :
    (xs ys : List ℕ) (n i : ℕ) → n ≡ length xs + i → get_word (xs ++ ys) n ≡ get_word ys i
unfolding get_word
get_word-append_right xs ys n i e = rw (
  get_or-append_right xs ys n i 0 e,
  get_or-append_right xs ys (n + 1) (i + 1) 0 (omega arith),
  get_or-append_right xs ys (n + 2) (i + 2) 0 (omega arith),
  get_or-append_right xs ys (n + 3) (i + 3) 0 (omega arith),
)

-- Four bytes are the four bytes of the word that they make.
pub put_word-get_word :
    (a b c d : ℕ) (rest : List ℕ)
    → IsByte a
    → IsByte b
    → IsByte c
    → IsByte d
    → put_word (get_word (a ∷ b ∷ c ∷ d ∷ rest) 0) ≡ a ∷ b ∷ c ∷ d ∷ []
unfolding get_word put_word
put_word-get_word a b c d rest ha hb hc hd = rw (word_sum a b c d hb hc hd) (ground arith)

pub get_word-IsU32 :
    (a b c d : ℕ) (rest : List ℕ)
    → IsByte a
    → IsByte b
    → IsByte c
    → IsByte d
    → IsU32 (get_word (a ∷ b ∷ c ∷ d ∷ rest) 0)
unfolding get_word
get_word-IsU32 a b c d rest ha hb hc hd = omega (arith, word_sum a b c d hb hc hd)

-- The same at the front of any list of bytes that is long enough.
pub put_word-get_word_front :
    (x : List ℕ) → 4 ≤ length x → All IsByte x → put_word (get_word x 0) ≡ take 4 x
put_word-get_word_front [] h b = absurd (omega arith)
put_word-get_word_front (a ∷ []) h b = absurd (omega arith)
put_word-get_word_front (a ∷ b ∷ []) h bs = absurd (omega arith)
put_word-get_word_front (a ∷ b ∷ c ∷ []) h bs = absurd (omega arith)
put_word-get_word_front (a ∷ b ∷ c ∷ d ∷ rest) h (ha, (hb, (hc, (hd, _)))) =
    put_word-get_word a b c d rest ha hb hc hd

get_word-IsU32_front : (x : List ℕ) → All IsByte x → IsU32 (get_word x 0)
unfolding get_word
get_word-IsU32_front [] b = omega arith
get_word-IsU32_front (a ∷ []) (ha, _) =
    get_word-IsU32 a 0 0 0 [] ha (omega arith) (omega arith) (omega arith)
get_word-IsU32_front (a ∷ b ∷ []) (ha, (hb, _)) =
    get_word-IsU32 a b 0 0 [] ha hb (omega arith) (omega arith)
get_word-IsU32_front (a ∷ b ∷ c ∷ []) (ha, (hb, (hc, _))) =
    get_word-IsU32 a b c 0 [] ha hb hc (omega arith)
get_word-IsU32_front (a ∷ b ∷ c ∷ d ∷ rest) (ha, (hb, (hc, (hd, _)))) =
    get_word-IsU32 a b c d rest ha hb hc hd

pub get_word-drop : (n i k : ℕ) (x : List ℕ) → k ≡ n + i → get_word (drop n x) i ≡ get_word x k
unfolding get_word
get_word-drop n i k x e = rw (
  get_or-drop n i k x 0 e,
  get_or-drop n (i + 1) (k + 1) x 0 (omega arith),
  get_or-drop n (i + 2) (k + 2) x 0 (omega arith),
  get_or-drop n (i + 3) (k + 3) x 0 (omega arith),
)

pub get_word-IsU32_at : (n : ℕ) (x : List ℕ) → All IsByte x → IsU32 (get_word x n)
get_word-IsU32_at n x b =
    rw (← get_word-drop n 0 n x (omega arith))
      (get_word-IsU32_front (drop n x) (All-drop IsByte n x b))

pub put_word-get_word_at :
    (n : ℕ) (x : List ℕ)
    → n + 4 ≤ length x
    → All IsByte x
    → put_word (get_word x n) ≡ take 4 (drop n x)
put_word-get_word_at n x h b =
    rw (← get_word-drop n 0 n x (omega arith))
      (put_word-get_word_front (drop n x) (omega (arith, length-drop n x)) (All-drop IsByte n x b))
