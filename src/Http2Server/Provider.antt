-- ===== src/Http2Server/Provider.antt =====
-- The data provider: what it sends, and when its string is deleted.
use tcp_test.Common.{
  ℤ, pos, ℕ, ◌+◌, ◌≡◌, ◌≤◌, ◌<◌, refl, sym, ap, ◌∙◌, true, false, some, List, [], ◌∷◌, length, take,
  drop, min, arith, if◌then◌else◌, leb, Bool-cases, inl, inr, leb→le, leb-false→lt, lt→leb-false,
  le→leb, take_all, drop_all, drop-drop, take-add, length-drop,
}
use tcp_test.Common.Text.{Text}
use tcp_test.Common.Decimal.{spelled, spelled-to_string}
use tcp_test.Frame.{is_empty}
use tcp_test.Http2Server.{
  Buffer, live, deleted, read_callback, Provided, provide, response_text, response_headers,
  handle_post_data,
}

abbrev pub total : List ℕ → ℕ
total [] = 0
total (n ∷ ns) = n + total ns

-- What is left of a string after some bytes; the last one takes the string with it.
unfoldable pub remaining : ℕ → Text → Buffer
remaining n s = if leb (length s) n then deleted else live (drop n s)

remaining_all : (n : ℕ) (s : Text) → leb (length s) n ≡ true → remaining n s ≡ deleted
unfolding remaining
remaining_all n s h = rw h refl

remaining_part : (n : ℕ) (s : Text) → leb (length s) n ≡ false → remaining n s ≡ live (drop n s)
unfolding remaining
remaining_part n s h = rw h refl

leb-drop : (n m : ℕ) (s : Text) → n < length s → leb (length (drop n s)) m ≡ leb (length s) (n + m)
leb-drop n m s h = ground (arith, length-drop n s)

remaining-drop : (n m : ℕ) (s : Text) → n < length s → remaining m (drop n s) ≡ remaining (n + m) s
unfolding remaining
remaining-drop n m s h = rw (leb-drop n m s h, drop-drop m n (n + m) s refl) refl

is_empty-length : (s : Text) → is_empty s ≡ leb (length s) 0
is_empty-length [] = refl
is_empty-length (c ∷ s) = ground arith

read-live :
    (size : ℕ) (s : Text)
    → 0 < length s
    → read_callback size (live s)
      ≡ some (record { bytes = take size s; eof = leb (length s) size; buffer = remaining size s })
unfolding read_callback
read-live size [] h = absurd (omega arith)
read-live size (c ∷ s) h = elim (Bool-cases (leb (length (c ∷ s)) size)) [
  | inl all_ ↦
      let fits : length (c ∷ s) ≤ size = leb→le (length (c ∷ s)) size all_ in
      let m : min size (length (c ∷ s)) ≡ length (c ∷ s) = omega (arith, fits) in
      rw
        (
          m,
          all_,
          remaining_all size (c ∷ s) all_,
          take_all (length (c ∷ s)) (c ∷ s) (omega arith),
          take_all size (c ∷ s) fits,
          drop_all (length (c ∷ s)) (c ∷ s) (omega arith),
        )
        refl
  | inr part ↦
      let short : size < length (c ∷ s) = leb-false→lt (length (c ∷ s)) size part in
      let m : min size (length (c ∷ s)) ≡ size = omega (arith, short) in
      let more : is_empty (drop size (c ∷ s)) ≡ false =
        is_empty-length (drop size (c ∷ s))
        ∙ lt→leb-false (length (drop size (c ∷ s))) 0
            (omega (arith, length-drop size (c ∷ s), short)) in
      rw (m, part, remaining_part size (c ∷ s) part, more) refl
]

-- The provider of a string that is not empty, called for frames of any sizes until it reports the end:
-- it never touches a deleted string, its bytes are the front of the string as long as the sizes allow,
-- and it reports the end, and has deleted the string, exactly when all of it is sent.
pub provide-live :
    (sizes : List ℕ) (s : Text)
    → 0 < length s
    → provide sizes (live s)
      ≡ some (record {
        body = take (total sizes) s;
        finished = leb (length s) (total sizes);
        left = remaining (total sizes) s;
      })
unfolding provide
provide-live [] s h =
    rw (remaining_part 0 s (lt→leb-false (length s) 0 h), lt→leb-false (length s) 0 h) refl
provide-live (size ∷ sizes) s h = elim (Bool-cases (leb (length s) size)) [
  | inl all_ ↦
      let fits : length s ≤ size = leb→le (length s) size all_ in
      rw
        (
          provide,
          read-live size s h,
          all_,
          remaining_all size s all_,
          remaining_all (size + total sizes) s
              (le→leb (length s) (size + total sizes) (omega (arith, fits))),
          le→leb (length s) (size + total sizes) (omega (arith, fits)),
          take_all size s fits,
          take_all (size + total sizes) s (omega (arith, fits)),
        )
        refl
  | inr part ↦
      let short : size < length s = leb-false→lt (length s) size part in
      let rest : 0 < length (drop size s) = omega (arith, length-drop size s, short) in
      rw
        (
          provide,
          read-live size s h,
          part,
          remaining_part size s part,
          provide-live sizes (drop size s) rest,
          ← take-add s size (total sizes) (size + total sizes) refl,
          leb-drop size (total sizes) s short,
          remaining-drop size (total sizes) s short,
        )
        refl
]

not_empty : 0 < length response_text
unfolding response_text
not_empty = omega arith

post-live : (sent : ℤ) → (handle_post_data (pos 0) sent).1 ≡ live response_text
unfolding handle_post_data
post-live sent = ground arith

-- The response is submitted with a content-length that spells the number of bytes which the provider
-- sends in all, if it may send as many; it has then deleted its string.
pub response-provided :
    (sizes : List ℕ) (sent : ℤ)
    → length response_text ≤ total sizes
    → (p : Provided) × (provide sizes (handle_post_data (pos 0) sent).1 ≡ some p)
      × (p.body ≡ response_text)
      × (length p.body ≡ spelled 0 response_headers.content_length)
      × (p.finished ≡ true)
      × (p.left ≡ deleted)
unfolding handle_post_data response_headers
response-provided sizes sent h = (
  record { body = response_text; finished = true; left = deleted },
  ap (provide sizes) (post-live sent)
      ∙ provide-live sizes response_text not_empty
      ∙ rw
          (
            remaining_all (total sizes) response_text enough,
            enough,
            take_all (total sizes) response_text h,
          )
          refl,
  refl,
  sym (spelled-to_string (length response_text)),
  refl,
  refl,
)
  where
    enough : leb (length response_text) (total sizes) ≡ true
    enough = le→leb (length response_text) (total sizes) h
