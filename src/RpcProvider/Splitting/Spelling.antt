-- ===== src/RpcProvider/Splitting/Spelling.antt =====
-- Names that are spelled with spaces and delimiters, and split again.
use tcp_test.Common.{
  ℕ, ◌≡◌, ◌≢◌, refl, sym, ap, ◌∙◌, true, false, List, [], ◌∷◌, ◌++◌, All, arith, Bool-cases,
  append-nil, append_snoc, map, ==_refl, ==_of_ne, All-append,
}
use tcp_test.Common.Text.{Text}
use tcp_test.RpcProvider.Splitting.{
  is_space, erase_front, erase_back, add_token, split_from, split, Lacks, first_solid, last_solid,
  IsToken,
}

-- A name with spaces around it.
pub record Padded : Type 0 where
  pub before : Text
  pub name : Text
  pub after : Text

abbrev pub Spaces : Text → Type 0
Spaces s = All (λ c. is_space c ≡ true) s

pub record IsPadded (delimiter : ℕ) (p : Padded) : Type 0 where
  pub before_spaces : Spaces p.before
  pub token : IsToken delimiter p.name
  pub after_spaces : Spaces p.after

abbrev pub padded_text : Padded → Text
padded_text p = p.before ++ (p.name ++ p.after)

-- The names as a macro's arguments spell them, with a delimiter between.
unfoldable pub spell : ℕ → List Padded → Text
spell delimiter [] = []
spell delimiter (p ∷ []) = padded_text p
spell delimiter (p ∷ q ∷ ps) = padded_text p ++ (delimiter ∷ spell delimiter (q ∷ ps))

front-Spaces : (pad s : Text) → Spaces pad → erase_front (pad ++ s) ≡ erase_front s
unfolding erase_front
front-Spaces [] s h = refl
front-Spaces (c ∷ pad) s h = rw (h.0) (front-Spaces pad s h.1)

front-first : (s t : Text) → first_solid s ≡ true → erase_front (s ++ t) ≡ s ++ t
unfolding erase_front
front-first [] t h = absurd (ground (arith, h))
front-first (c ∷ s) t h = ground (arith, h, Bool-cases (is_space c))

back-Spaces : (pad : Text) → Spaces pad → erase_back pad ≡ []
unfolding erase_back
back-Spaces [] h = refl
back-Spaces (c ∷ pad) h = ground (arith, h.0, back-Spaces pad h.1)

back-last : (s pad : Text) → last_solid s ≡ true → Spaces pad → erase_back (s ++ pad) ≡ s
unfolding erase_back
back-last [] pad h k = absurd (ground (arith, h))
back-last (c ∷ []) pad h k = ground (arith, h, back-Spaces pad k, Bool-cases (is_space c))
back-last (c ∷ d ∷ s) pad h k = rw (back-last (d ∷ s) pad h k) refl

split_from-append :
    (delimiter : ℕ) (x token rest : Text)
    → Lacks delimiter x
    → split_from token delimiter (x ++ rest) ≡ split_from (token ++ x) delimiter rest
unfolding split_from
split_from-append delimiter [] token rest h = rw (append-nil token) refl
split_from-append delimiter (c ∷ x) token rest h = rw (==_of_ne h.0) (
    split_from-append delimiter x (token ++ (c ∷ [])) rest h.1
    ∙ ap (λ (t : Text). split_from t delimiter rest) (append_snoc token c x))

Spaces-Lacks :
    (delimiter : ℕ) (pad : Text) → is_space delimiter ≡ false → Spaces pad → Lacks delimiter pad
Spaces-Lacks delimiter [] h k = tt
Spaces-Lacks delimiter (c ∷ pad) h k =
    (λ e. cc (ap is_space e, k.0, h), Spaces-Lacks delimiter pad h k.1)

padded-Lacks :
    (delimiter : ℕ) (p : Padded)
    → is_space delimiter ≡ false
    → IsPadded delimiter p
    → Lacks delimiter (padded_text p)
padded-Lacks delimiter p h v =
    All-append (λ c. c ≢ delimiter) p.before (p.name ++ p.after)
      (Spaces-Lacks delimiter p.before h v.before_spaces)
      (All-append (λ c. c ≢ delimiter) p.name p.after v.token.lacks
        (Spaces-Lacks delimiter p.after h v.after_spaces))

padded-trimmed :
    (delimiter : ℕ) (p : Padded)
    → IsPadded delimiter p
    → erase_back (erase_front (padded_text p)) ≡ p.name
padded-trimmed delimiter p v =
    ap erase_back (
      front-Spaces p.before (p.name ++ p.after) v.before_spaces
      ∙ front-first p.name p.after v.token.starts)
    ∙ back-last p.name p.after v.token.ends v.after_spaces

add_token-padded :
    (delimiter : ℕ) (p : Padded) (tokens : List Text)
    → IsPadded delimiter p
    → add_token (padded_text p) tokens ≡ p.name ∷ tokens
unfolding add_token
add_token-padded delimiter p tokens v =
    rw (add_token, padded-trimmed delimiter p v) (kept p.name v.token.starts)
  where
    kept :
        (r : Text)
        → first_solid r ≡ true
        → (elim r [ [] ↦ tokens | c ∷ s ↦ (c ∷ s) ∷ tokens ]) ≡ r ∷ tokens
    kept [] h = absurd (ground (arith, h))
    kept (c ∷ s) h = refl

-- The names come back as they were written, in order, whatever spaces stand around them, if the
-- delimiter is no space.
pub split-spell :
    (delimiter : ℕ) (names : List Padded)
    → is_space delimiter ≡ false
    → All (IsPadded delimiter) names
    → split (spell delimiter names) delimiter ≡ map (λ p. p.name) names
unfolding split spell split_from add_token erase_back erase_front
split-spell delimiter [] h v = refl
split-spell delimiter (p ∷ []) h v =
    ap (λ (t : Text). split_from [] delimiter t) (sym (append-nil (padded_text p)))
    ∙ split_from-append delimiter (padded_text p) [] [] (padded-Lacks delimiter p h v.0)
    ∙ add_token-padded delimiter p [] v.0
split-spell delimiter (p ∷ q ∷ ps) h v =
    split_from-append delimiter (padded_text p) [] (delimiter ∷ spell delimiter (q ∷ ps))
      (padded-Lacks delimiter p h v.0)
    ∙ cut_at_delimiter
    ∙ add_token-padded delimiter p (split (spell delimiter (q ∷ ps)) delimiter) v.0
    ∙ ap (◌∷◌ p.name) (split-spell delimiter (q ∷ ps) h v.1)
  where
    cut_at_delimiter :
        split_from (padded_text p) delimiter (delimiter ∷ spell delimiter (q ∷ ps))
        ≡ add_token (padded_text p) (split (spell delimiter (q ∷ ps)) delimiter)
    cut_at_delimiter = rw (==_refl delimiter) refl
