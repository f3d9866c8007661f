-- ===== src/Frame/RoundTrip.antt =====
-- What `serialize` writes, `deserialize` and `parse_header` read back.
use tcp_test.Common.{
  ℕ, ◌+◌, ◌≤◌, ◌≡◌, ◌↔◌, refl, ap, sym, ◌∙◌, List, ◌++◌, length, take, drop, All, arith,
  append_assoc, length-append, take-append, take-append-drop, length-drop, take-drop-append,
  length-take, Bool, ok, some, minus_one, All-append, le→ltb-false, All-take, All-drop,
}
use tcp_test.Frame.{
  Frame, IsByte, IsU32, header_size, put_word, get_word, serialize, deserialize, parse_header,
  calculate_checksum, frame_of,
}
use tcp_test.Frame.Checksum.{calculate_checksum-lt}
use tcp_test.Frame.Words.{
  get_word-put_word, put_word-get_word_at, get_word-IsU32_at, put_word-IsByte,
}

-- The bytes of a frame as it travels: the stored checksum, not a new one.
unfoldable pub emit : Frame → List ℕ
emit f =
    put_word f.length
    ++ (put_word f.stream_id ++ (put_word f.sequence ++ (put_word f.checksum ++ f.payload)))

-- A frame that fits the wire format: 32-bit words, and a length field that counts the payload.
pub record Fits (f : Frame) : Type 0 where
  pub length_u32 : IsU32 f.length
  pub stream_u32 : IsU32 f.stream_id
  pub sequence_u32 : IsU32 f.sequence
  pub checksum_u32 : IsU32 f.checksum
  pub counted : length f.payload ≡ f.length
  pub bytes : All IsByte f.payload

-- A frame as the parser makes it: it belongs to no client yet.
abbrev pub unowned : Frame → Frame
unowned f = record f { client_id = minus_one }

-- The frame whose stored checksum is the one that `serialize` writes.
abbrev pub sealed : Bool → Frame → Frame
sealed enabled f = record f { checksum = calculate_checksum enabled f }

pub serialize-emit : (enabled : Bool) (f : Frame) → serialize enabled f ≡ emit (sealed enabled f)
unfolding serialize emit
serialize-emit enabled f = refl

pub length-emit : (f : Frame) → length (emit f) ≡ 16 + length f.payload
unfolding emit put_word
length-emit f = omega arith

pub length-emit-Fits : {f : Frame} → Fits f → length (emit f) ≡ 16 + f.length
length-emit-Fits {f} v = omega (arith, length-emit f, v.counted)

pub emit-IsByte : {f : Frame} → Fits f → All IsByte (emit f)
unfolding emit put_word
emit-IsByte {f} v =
    put f.length
      (put_word f.stream_id ++ (put_word f.sequence ++ (put_word f.checksum ++ f.payload)))
      (put f.stream_id (put_word f.sequence ++ (put_word f.checksum ++ f.payload))
        (put f.sequence (put_word f.checksum ++ f.payload) (put f.checksum f.payload v.bytes)))
  where
    put : (w : ℕ) (rest : List ℕ) → All IsByte rest → All IsByte (put_word w ++ rest)
    put w rest h = All-append IsByte (put_word w) rest (put_word-IsByte w) h

module _ (f : Frame) (rest : List ℕ) (v : Fits f) where
  pub length-word : get_word (emit f ++ rest) 0 ≡ f.length
  unfolding emit put_word get_word
  length-word =
      get_word-put_word f.length
        (put_word f.stream_id
          ++ (put_word f.sequence ++ (put_word f.checksum ++ (f.payload ++ rest))))
        v.length_u32

  stream-word : get_word (emit f ++ rest) 4 ≡ f.stream_id
  unfolding emit put_word get_word
  stream-word =
      get_word-put_word f.stream_id
        (put_word f.sequence ++ (put_word f.checksum ++ (f.payload ++ rest))) v.stream_u32

  sequence-word : get_word (emit f ++ rest) 8 ≡ f.sequence
  unfolding emit put_word get_word
  sequence-word =
      get_word-put_word f.sequence (put_word f.checksum ++ (f.payload ++ rest)) v.sequence_u32

  checksum-word : get_word (emit f ++ rest) 12 ≡ f.checksum
  unfolding emit put_word get_word
  checksum-word = get_word-put_word f.checksum (f.payload ++ rest) v.checksum_u32

  header-dropped : drop header_size (emit f ++ rest) ≡ f.payload ++ rest
  unfolding emit put_word
  header-dropped = refl

  payload-part : take (get_word (emit f ++ rest) 0) (drop header_size (emit f ++ rest)) ≡ f.payload
  payload-part =
      rw length-word (rw header-dropped (take-append f.length f.payload rest (sym v.counted)))

  pub frame_of-emit : frame_of (emit f ++ rest) ≡ unowned f
  frame_of-emit = λ i. record {
    length = length-word i;
    stream_id = stream-word i;
    sequence = sequence-word i;
    checksum = checksum-word i;
    payload = payload-part i;
    client_id = minus_one;
  }

-- Sixteen bytes or more are a header and what follows; the five parts add up to the front.
module _ (x : List ℕ) (b : All IsByte x) (whole : 16 + get_word x 0 ≤ length x) where
  pub emit-frame_of : emit (frame_of x) ++ drop (16 + get_word x 0) x ≡ x
  unfolding emit
  emit-frame_of =
      rw
        (
          put_word-get_word_at 0 x (omega arith) b,
          put_word-get_word_at 4 x (omega arith) b,
          put_word-get_word_at 8 x (omega arith) b,
          put_word-get_word_at 12 x (omega arith) b,
        )
        (simp append_assoc (
          rw
            (
              take-drop-append 16 (get_word x 0) (16 + get_word x 0) x refl,
              take-drop-append 12 4 16 x refl,
              take-drop-append 8 4 12 x refl,
              take-drop-append 4 4 8 x refl,
            )
            (take-append-drop 4 x)))

  pub frame_of-Fits : Fits (frame_of x)
  frame_of-Fits = record {
    length_u32 = get_word-IsU32_at 0 x b;
    stream_u32 = get_word-IsU32_at 4 x b;
    sequence_u32 = get_word-IsU32_at 8 x b;
    checksum_u32 = get_word-IsU32_at 12 x b;
    counted = omega (arith, length-take (get_word x 0) (drop 16 x), length-drop 16 x);
    bytes = All-take IsByte (get_word x 0) (drop 16 x) (All-drop IsByte 16 x b);
  }

pub deserialize_whole :
    (x : List ℕ) → 16 + get_word x 0 ≤ length x → deserialize x ≡ ok (frame_of x)
unfolding deserialize
deserialize_whole x h =
    rw (le→ltb-false (length x) 16 (omega arith), le→ltb-false (length x) (16 + get_word x 0) h)

pub deserialize-emit :
    (f : Frame) (rest : List ℕ) → Fits f → deserialize (emit f ++ rest) ≡ ok (unowned f)
deserialize-emit f rest v =
    deserialize_whole (emit f ++ rest) (rw (length-word f rest v) long)
    ∙ ap ok (frame_of-emit f rest v)
  where
    long : 16 + f.length ≤ length (emit f ++ rest)
    long = omega (arith, length-append (emit f) rest, length-emit-Fits v)

pub sealed-Fits : (enabled : Bool) {f : Frame} → Fits f → Fits (sealed enabled f)
sealed-Fits enabled {f} v = record {
  length_u32 = v.length_u32;
  stream_u32 = v.stream_u32;
  sequence_u32 = v.sequence_u32;
  checksum_u32 = calculate_checksum-lt enabled f;
  counted = v.counted;
  bytes = v.bytes;
}

-- Reading what `serialize` wrote for a frame that fits the wire format gives the frame again, with
-- the checksum that was written and the client id -1, whatever bytes follow it.
pub deserialize-serialize :
    (enabled : Bool) (f : Frame) (rest : List ℕ)
    → Fits f
    → deserialize (serialize enabled f ++ rest) ≡ ok (unowned (sealed enabled f))
deserialize-serialize enabled f rest v =
    rw (serialize-emit enabled f) (deserialize-emit (sealed enabled f) rest (sealed-Fits enabled v))

deserialize_ok :
    (x : List ℕ) (f : Frame)
    → deserialize x ≡ ok f
    → (16 + get_word x 0 ≤ length x) × (frame_of x ≡ f)
unfolding deserialize
deserialize_ok x f e = ground arith

-- Where `deserialize` returns a frame on a list of bytes, the frame fits the wire format, and its bytes
-- followed by what stands behind them are the input.
pub deserialize_lossless :
    (x : List ℕ) (f : Frame)
    → All IsByte x
    → deserialize x ≡ ok f
    → Fits f × (emit f ++ drop (16 + f.length) x ≡ x)
deserialize_lossless x f b e =
    let (whole, found) = deserialize_ok x f e in
    rw (← found) (frame_of-Fits x b whole, emit-frame_of x b whole)

-- `deserialize` returns a frame on a list of bytes exactly if the frame fits the wire format, has no
-- client id yet, and the list begins with its bytes.
pub deserialize-accepts :
    (x : List ℕ) (f : Frame)
    → All IsByte x
    → (deserialize x ≡ ok f) ↔ (Fits f × (f ≡ unowned f) × ((rest : List ℕ) × (x ≡ emit f ++ rest)))
deserialize-accepts x f b = (
  (λ e.
      let (fits, whole) = deserialize_lossless x f b e in
      (
        fits,
        sym (deserialize_ok x f e).1 ∙ ap unowned (deserialize_ok x f e).1,
        (drop (16 + f.length) x, sym whole),
      )),
  (λ (fits, none_yet, (rest, whole)).
      ap deserialize whole ∙ deserialize-emit f rest fits ∙ ap ok (sym none_yet)),
)

-- `parse_header` answers the first four fields of what `deserialize` answers, and none where there are
-- fewer than sixteen bytes.
pub parse_header-deserialize :
    (x : List ℕ) (f : Frame)
    → deserialize x ≡ ok f
    → parse_header x
      ≡ some (record {
        length = f.length;
        stream_id = f.stream_id;
        sequence = f.sequence;
        checksum = f.checksum;
      })
unfolding deserialize parse_header
parse_header-deserialize x f e = ground arith
