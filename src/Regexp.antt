-- ===== src/Regexp.antt =====
-- What the parsers use of Go's regexp: patterns over classes of bytes, with greedy repetition and
-- submatches, and the leftmost match that prefers the first alternative and the longest repetition.
-- The patterns test ASCII characters only, so a match of bytes is one of runes.
pub mod Matching
pub mod Soundness
pub mod Greedy
pub mod Completeness
pub mod Growing
use ekanite.Prelude.{
  ℕ, zero, suc, ◌-◌, Bool, true, false, List, [], ◌∷◌, ◌++◌, Option, none, some, Bytes, ◌==◌, leb,
  ◌||◌, ◌&&◌, length, take, if◌then◌else◌,
}

-- `rep p lo hi` is `[…]{lo,hi}`, with no upper bound if `hi` is `none`; `end` is `$`.
pub data Regexp : Type 0 where
  chr : (ℕ → Bool) → Regexp
  seq alt : Regexp → Regexp → Regexp
  rep : (ℕ → Bool) → ℕ → Option ℕ → Regexp
  group : Regexp → Regexp
  end : Regexp

-- `\s`, `\w` and `[^ ]`
abbrev pub is_space : ℕ → Bool
is_space c = c == b' ' || c == b'\t' || c == b'\n' || c == b'\r' || c == 12

abbrev pub is_word : ℕ → Bool
is_word c =
    leb b'0' c && leb c b'9' || leb b'A' c && leb c b'Z' || leb b'a' c && leb c b'z' || c == b'_'

abbrev pub may_take : Option ℕ → Bool
may_take none = true
may_take (some zero) = false
may_take (some (suc n)) = true

abbrev pub one_less : Option ℕ → Option ℕ
one_less none = none
one_less (some n) = some (n - 1)

-- What remains to be matched behind a place, from the submatches so far.
abbrev pub Rest {ℓ} : Type ℓ → Type ℓ
Rest A = Bytes → List Bytes → Option A

module _ {ℓ} {A : Type ℓ} where
  abbrev pub or_else : Option A → Option A → Option A
  or_else none b = b
  or_else (some a) b = some a

  -- A repetition tries one more byte before it stops.
  unfoldable pub repeat : (ℕ → Bool) → ℕ → Option ℕ → Bytes → (Bytes → Option A) → Option A
  repeat p lo hi [] k = if lo == 0 then k [] else none
  repeat p lo hi (x ∷ s) k =
      let stop = if lo == 0 then k (x ∷ s) else none in
      let more = or_else (repeat p (lo - 1) (one_less hi) s k) stop in
      if p x && may_take hi then more else stop

  unfoldable pub match : Regexp → Bytes → List Bytes → Rest A → Option A
  unfolding repeat
  match (chr p) [] c k = none
  match (chr p) (x ∷ s) c k = if p x then k s c else none
  match (seq a b) s c k = match a s c (λ t d. match b t d k)
  match (alt a b) s c k = or_else (match a s c k) (match b s c k)
  match (rep p lo hi) s c k = repeat p lo hi s (λ t. k t c)
  match (group a) s c k = match a s c (λ t d. k t (d ++ take (length s - length t) s ∷ []))
  match end [] c k = k [] c
  match end (x ∷ s) c k = none

-- The match that begins at the front of the text, and its submatches.
unfoldable pub match_here : Regexp → Bytes → Option (List Bytes)
unfolding match
match_here e s = match e s [] (λ t d. some (take (length s - length t) s ∷ d))

-- `FindStringSubmatch`: that of the first place that has one.
unfoldable pub find_string_submatch : Regexp → Bytes → Option (List Bytes)
unfolding match_here
find_string_submatch e [] = match_here e []
find_string_submatch e (x ∷ s) = or_else (match_here e (x ∷ s)) (find_string_submatch e s)

-- `FindIndex`, as the text before the match and the text from where it begins.
unfoldable pub find_index : Regexp → Bytes → Option (Bytes × Bytes)
unfolding match_here
find_index e [] = elim (match_here e []) [ none ↦ none | some m ↦ some ([], []) ]
find_index e (x ∷ s) =
    let later = find_index e s in
    elim (match_here e (x ∷ s)) [
      | some m ↦ some ([], x ∷ s)
      | none ↦ elim later [ none ↦ none | some (before, from) ↦ some (x ∷ before, from) ]
    ]
