-- ===== src/Regexp/Soundness.antt =====
-- What the searches find is a match.
use mathlib.Core.Option.{some-injective}
use ekanite.Prelude.{
  ◌-◌, ◌≡◌, sym, ap, ◌∙◌, subst, List, [], ◌∷◌, ◌++◌, some, Bytes, length, take, inl, inr,
}
use ekanite.Regexp.{Regexp, match_here, find_string_submatch}
use ekanite.Regexp.Matching.{Matches, take-split, or_else-cases, match-Found}

-- What is found, with what stands before it.
pub record FoundIn (e : Regexp) (s : Bytes) (m : List Bytes) : Type 0 where
  pub before : Bytes
  pub text : Bytes
  pub after : Bytes
  pub submatches : List Bytes
  pub split : s ≡ before ++ (text ++ after)
  pub matched : Matches e text after submatches
  pub are : m ≡ text ∷ submatches

pub record FoundHere (e : Regexp) (s : Bytes) (m : List Bytes) : Type 0 where
  pub text : Bytes
  pub after : Bytes
  pub submatches : List Bytes
  pub split : s ≡ text ++ after
  pub matched : Matches e text after submatches
  pub are : m ≡ text ∷ submatches

pub match_here-FoundHere :
    (e : Regexp) (s : Bytes) {m : List Bytes} → match_here e s ≡ some m → FoundHere e s m
unfolding match_here
match_here-FoundHere e s {m} h =
    let f = match-Found e s [] (λ t d. some (take (length s - length t) s ∷ d)) h in
    let w : take (length s - length f.left) s ≡ f.text =
      subst (λ l. take (length l - length f.left) l ≡ f.text) (sym f.split)
        (take-split f.text f.left) in
    record {
      text = f.text;
      after = f.left;
      submatches = f.submatches;
      split = f.split;
      matched = f.matched;
      are = sym (some-injective _ _ f.then_some) ∙ ap (λ l. l ∷ f.submatches) w;
    }

match_here-FoundIn :
    (e : Regexp) (s : Bytes) {m : List Bytes} → match_here e s ≡ some m → FoundIn e s m
match_here-FoundIn e s h =
    let f = match_here-FoundHere e s h in
    record {
      before = [];
      text = f.text;
      after = f.after;
      submatches = f.submatches;
      split = f.split;
      matched = f.matched;
      are = f.are;
    }

pub find_string_submatch-FoundIn :
    (e : Regexp) (s : Bytes) {m : List Bytes} → find_string_submatch e s ≡ some m → FoundIn e s m
unfolding find_string_submatch
find_string_submatch-FoundIn e [] h = match_here-FoundIn e [] h
find_string_submatch-FoundIn e (x ∷ s) {m} h =
    elim (or_else-cases (match_here e (x ∷ s)) (find_string_submatch e s) h) [
      | inl here ↦ match_here-FoundIn e (x ∷ s) here
      | inr later ↦
          let f = find_string_submatch-FoundIn e s later in
          record {
            before = x ∷ f.before;
            text = f.text;
            after = f.after;
            submatches = f.submatches;
            split = ap (◌∷◌ x) f.split;
            matched = f.matched;
            are = f.are;
          }
    ]
