-- ===== src/RpcProvider/Splitting.antt =====
-- detail::split, by which the macro PARAM_NAMES takes the parameters' names apart, and what it finds.
pub mod Spelling
use native.Mathlib.Decide.{ℕ_discrete}
use tcp_test.Common.{
  ℕ, ◌≡◌, ◌≢◌, refl, sym, ap, ◌∙◌, Bool, true, false, not, ◌||◌, ◌⊎◌, List, [], ◌∷◌, ◌++◌, All,
  arith, ◌==◌, if◌then◌else◌, Bool-cases, inl, inr, append-nil, append_snoc, map, ==_refl, ==_of_eq,
  ==_of_ne, All-append,
}
use tcp_test.Common.Text.{Text}

-- The characters of " \t\n\r\f\v".
unfoldable pub is_space : ℕ → Bool
is_space c = (c == 32) || ((c == 9) || ((c == 10) || ((c == 13) || ((c == 12) || (c == 11)))))

-- `token.erase(0, token.find_first_not_of(…))`: all of it where there is no other character.
unfoldable pub erase_front : Text → Text
erase_front [] = []
erase_front (c ∷ s) = let rest = erase_front s in if is_space c then rest else c ∷ s

-- `token.erase(token.find_last_not_of(…) + 1)`
unfoldable pub erase_back : Text → Text
erase_back [] = []
erase_back (c ∷ s) = elim (erase_back s) [
  | [] ↦ if is_space c then [] else c ∷ []
  | d ∷ t ↦ c ∷ d ∷ t
]

-- `if (!token.empty()) tokens.push_back(token)`
unfoldable pub add_token : Text → List Text → List Text
add_token token tokens = elim (erase_back (erase_front token)) [
  | [] ↦ tokens
  | c ∷ s ↦ (c ∷ s) ∷ tokens
]

-- The loop over `std::getline`, with the characters of the line so far. At the end of the text a line is
-- read only if it has a character; an empty one would not be kept either.
unfoldable pub split_from : Text → ℕ → Text → List Text
split_from token delimiter [] = add_token token []
split_from token delimiter (c ∷ s) =
    let cut = split_from [] delimiter s in
    let longer = split_from (token ++ (c ∷ [])) delimiter s in
    if c == delimiter then add_token token cut else longer

unfoldable pub split : Text → ℕ → List Text
split s delimiter = split_from [] delimiter s

-- A name: a first character, and a last one, that is no space, and no delimiter inside.
abbrev pub Lacks : ℕ → Text → Type 0
Lacks delimiter s = All (λ c. c ≢ delimiter) s

abbrev pub first_solid : Text → Bool
first_solid [] = false
first_solid (c ∷ s) = not (is_space c)

abbrev pub last_solid : Text → Bool
last_solid [] = false
last_solid (c ∷ []) = not (is_space c)
last_solid (c ∷ d ∷ s) = last_solid (d ∷ s)

pub record IsToken (delimiter : ℕ) (s : Text) : Type 0 where
  pub lacks : Lacks delimiter s
  pub starts : first_solid s ≡ true
  pub ends : last_solid s ≡ true

All-front : (P : ℕ → Type 0) (s : Text) → All P s → All P (erase_front s)
unfolding erase_front
All-front P [] h = tt
All-front P (c ∷ s) h = elim (Bool-cases (is_space c)) [
  | inl e ↦ rw e (All-front P s h.1)
  | inr e ↦ rw e h
]

All-back : (P : ℕ → Type 0) (s : Text) → All P s → All P (erase_back s)
unfolding erase_back
All-back P [] h = tt
All-back P (c ∷ s) h = further (erase_back s) (All-back P s h.1)
  where
    further :
        (r : Text)
        → All P r
        → All P (elim r [ [] ↦ if is_space c then [] else c ∷ [] | d ∷ t ↦ c ∷ d ∷ t ])
    further [] k = elim (Bool-cases (is_space c)) [ inl e ↦ rw e tt | inr e ↦ rw e (h.0, tt) ]
    further (d ∷ t) k = (h.0, k)

-- What is left of a text without the spaces around it.
front-solid : (s : Text) → (erase_front s ≡ []) ⊎ (first_solid (erase_front s) ≡ true)
unfolding erase_front
front-solid [] = inl refl
front-solid (c ∷ s) = ground (arith, front-solid s, Bool-cases (is_space c))

back-first : (s : Text) → first_solid s ≡ true → first_solid (erase_back s) ≡ true
unfolding erase_back
back-first [] h = h
back-first (c ∷ s) h = ground (arith, h)

back-solid : (s : Text) → (erase_back s ≡ []) ⊎ (last_solid (erase_back s) ≡ true)
unfolding erase_back
back-solid [] = inl refl
back-solid (c ∷ s) = ground (arith, back-solid s, Bool-cases (is_space c))

trimmed-IsToken :
    (delimiter : ℕ) (token : Text)
    → Lacks delimiter token
    → (erase_back (erase_front token) ≡ []) ⊎ IsToken delimiter (erase_back (erase_front token))
unfolding erase_back
trimmed-IsToken delimiter token h = elim (front-solid token) [
  | inl nothing ↦ inl (rw nothing refl)
  | inr begun ↦ elim (back-solid (erase_front token)) [
    | inl nothing ↦ inl nothing
    | inr ended ↦ inr (record {
      lacks =
          All-back (λ c. c ≢ delimiter) (erase_front token)
            (All-front (λ c. c ≢ delimiter) token h);
      starts = back-first (erase_front token) begun;
      ends = ended;
    })
  ]
]

add_token-All :
    (delimiter : ℕ) (token : Text) (tokens : List Text)
    → Lacks delimiter token
    → All (IsToken delimiter) tokens
    → All (IsToken delimiter) (add_token token tokens)
unfolding add_token
add_token-All delimiter token tokens h hs =
    further (erase_back (erase_front token)) (trimmed-IsToken delimiter token h)
  where
    further :
        (r : Text)
        → (r ≡ []) ⊎ IsToken delimiter r
        → All (IsToken delimiter) (elim r [ [] ↦ tokens | c ∷ s ↦ (c ∷ s) ∷ tokens ])
    further [] k = hs
    further (c ∷ s) (inl e) = absurd (ground (arith, e))
    further (c ∷ s) (inr k) = (k, hs)

split_from-All :
    (delimiter : ℕ) (s token : Text)
    → Lacks delimiter token
    → All (IsToken delimiter) (split_from token delimiter s)
unfolding split_from
split_from-All delimiter [] token h = add_token-All delimiter token [] h tt
split_from-All delimiter (c ∷ s) token h = elim (ℕ_discrete c delimiter) [
  | yes same ↦ rw (==_of_eq same) (
      add_token-All delimiter token (split_from [] delimiter s) h
        (split_from-All delimiter s [] tt))
  | no other ↦ rw (==_of_ne other) (
      split_from-All delimiter s (token ++ (c ∷ []))
        (All-append (λ d. d ≢ delimiter) token (c ∷ []) h (other, tt)))
]

-- Whatever the text: what `split` finds has no delimiter in it, no space at either end, and is not empty.
pub split-IsToken : (s : Text) (delimiter : ℕ) → All (IsToken delimiter) (split s delimiter)
unfolding split
split-IsToken s delimiter = split_from-All delimiter s [] tt
