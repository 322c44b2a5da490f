-- ===== src/Regexp/Completeness.antt =====
-- Where a text matches, the search finds a match.
use mathlib.Core.List.{tail}
use ekanite.Prelude.{
  ℕ, ◌-◌, ◌≡◌, ◌≢◌, refl, sym, ap, ◌∙◌, subst, Bool, List, [], ◌∷◌, ◌++◌, append_assoc, append-nil,
  Option, none, some, Bytes, length, take, arith, inl, inr,
}
use ekanite.Regexp.{
  Regexp, chr, seq, alt, rep, group, end, one_less, Rest, repeat, match, match_here, find_index,
}
use ekanite.Regexp.Matching.{Run, Matches, take-split}
use ekanite.Regexp.Soundness.{match_here-FoundHere}

module _ {ℓ} {A : Type ℓ} where
  repeat-ne-none :
      (p : ℕ → Bool) (lo : ℕ) (hi : Option ℕ) (w t : Bytes) (k : Bytes → Option A)
      → Run p lo hi w
      → k t ≢ none
      → repeat p lo hi (w ++ t) k ≢ none
  unfolding repeat
  repeat-ne-none p lo hi [] [] k h g = ground arith
  repeat-ne-none p lo hi [] (x ∷ t) k h g = ground arith
  repeat-ne-none p lo hi (x ∷ w) t k (px, m, h) g =
      let ih = repeat-ne-none p (lo - 1) (one_less hi) w t k h g in ground arith

  without :
      (k : Rest A) (t : Bytes) (c d : List Bytes) → d ≡ [] → k t (c ++ d) ≢ none → k t c ≢ none
  without k t c d e g = subst (λ l. k t l ≢ none) (ap (λ l. c ++ l) e ∙ append-nil c) g

  pub match-ne-none :
      (e : Regexp) (w t : Bytes) (d c : List Bytes) (k : Rest A)
      → Matches e w t d
      → k t (c ++ d) ≢ none
      → match e (w ++ t) c k ≢ none
  unfolding match
  match-ne-none (chr p) w t d c k (x, ew, px, ed) g =
      subst (λ l. match (chr p) (l ++ t) c k ≢ none) (sym ew) (rw (px) (without k t c d ed g))
  match-ne-none (seq a b) w t d c k (u, v, d₁, d₂, ew, ha, hb, ed) g =
      subst (λ l. match (seq a b) l c k ≢ none) (sym (ap (λ l. l ++ t) ew ∙ append_assoc u v t))
        (match-ne-none a u (v ++ t) d₁ c (λ s' d'. match b s' d' k) ha
          (match-ne-none b v t d₂ (c ++ d₁) k hb
            (subst (λ l. k t l ≢ none) (ap (λ l. c ++ l) ed ∙ sym (append_assoc c d₁ d₂)) g)))
  match-ne-none (alt a b) w t d c k (inl h) g =
      let ih = match-ne-none a w t d c k h g in ground arith
  match-ne-none (alt a b) w t d c k (inr h) g =
      let ih = match-ne-none b w t d c k h g in ground arith
  match-ne-none (rep p lo hi) w t d c k (h, ed) g =
      repeat-ne-none p lo hi w t (λ u. k u c) h (without k t c d ed g)
  match-ne-none (group a) w t d c k (d₁, h, ed) g =
      match-ne-none a w t d₁ c (λ u e. k u (e ++ take (length (w ++ t) - length u) (w ++ t) ∷ [])) h
        (subst (λ l. k t l ≢ none)
          (ap (λ l. c ++ l) ed
            ∙ sym (append_assoc c d₁ (w ∷ []))
            ∙ ap (λ z. (c ++ d₁) ++ z ∷ []) (sym (take-split w t)))
          g)
  match-ne-none end w t d c k (ew, et, ed) g =
      subst (λ l. match end (l ++ t) c k ≢ none) (sym ew)
        (subst (λ u. match end u c k ≢ none) (sym et)
          (subst (λ u. k u c ≢ none) et (without k t c d ed g)))

pub match_here-ne-none :
    (e : Regexp) (w t : Bytes) (d : List Bytes) → Matches e w t d → match_here e (w ++ t) ≢ none
unfolding match_here
match_here-ne-none e w t d h =
    match-ne-none e w t d [] (λ u c. some (take (length (w ++ t) - length u) (w ++ t) ∷ c)) h
      (λ n. ground arith)

-- No part of the text matches.
abbrev pub Nowhere : Regexp → Bytes → Type 0
Nowhere e s = (before w t : Bytes) (d : List Bytes) → s ≡ before ++ (w ++ t) → ¬ Matches e w t d

-- A place with a match.
pub record IsPlace (e : Regexp) (s before from : Bytes) : Type 0 where
  pub split : s ≡ before ++ from
  pub text : Bytes
  pub after : Bytes
  pub submatches : List Bytes
  pub here : from ≡ text ++ after
  pub matched : Matches e text after submatches

-- What `find_index` gives: a place with a match, or nothing where there is none.
abbrev pub IsSearch : Regexp → Bytes → Option (Bytes × Bytes) → Type 0
IsSearch e s none = Nowhere e s
IsSearch e s (some (before, from)) = IsPlace e s before from

not_here :
    (e : Regexp) (s w t : Bytes) (d : List Bytes)
    → match_here e s ≡ none
    → s ≡ w ++ t
    → ¬ Matches e w t d
not_here e s w t d h eq m = match_here-ne-none e w t d m (subst (λ l. match_here e l ≡ none) eq h)

Nowhere-nil : (e : Regexp) → match_here e [] ≡ none → Nowhere e []
Nowhere-nil e h [] w t d eq m = not_here e [] w t d h eq m
Nowhere-nil e h (x ∷ before) w t d eq m = cc

Nowhere-cons :
    (e : Regexp) (x : ℕ) (s : Bytes) → match_here e (x ∷ s) ≡ none → Nowhere e s → Nowhere e (x ∷ s)
Nowhere-cons e x s h n [] w t d eq m = not_here e (x ∷ s) w t d h eq m
Nowhere-cons e x s h n (y ∷ before) w t d eq m = n before w t d (ap tail eq) m

IsPlace-here :
    (e : Regexp) (s : Bytes) {m : List Bytes} → match_here e s ≡ some m → IsPlace e s [] s
IsPlace-here e s h =
    let f = match_here-FoundHere e s h in
    record {
      split = refl;
      text = f.text;
      after = f.after;
      submatches = f.submatches;
      here = f.split;
      matched = f.matched;
    }

pub find_index-IsSearch : (e : Regexp) (s : Bytes) → IsSearch e s (find_index e s)
unfolding find_index
find_index-IsSearch e [] = go (match_here e []) refl
  where
    go :
        (o : Option (List Bytes))
        → match_here e [] ≡ o
        → IsSearch e [] (elim o [ none ↦ none | some m ↦ some ([], []) ])
    go none h = Nowhere-nil e h
    go (some m) h = IsPlace-here e [] h
find_index-IsSearch e (x ∷ s) =
    go (match_here e (x ∷ s)) (find_index e s) refl (find_index-IsSearch e s)
  where
    go :
        (o : Option (List Bytes)) (later : Option (Bytes × Bytes))
        → match_here e (x ∷ s) ≡ o
        → IsSearch e s later
        → IsSearch e (x ∷ s) (elim o [
          | some m ↦ some ([], x ∷ s)
          | none ↦ elim later [ none ↦ none | some (before, from) ↦ some (x ∷ before, from) ]
        ])
    go (some m) later h i = IsPlace-here e (x ∷ s) h
    go none none h i = Nowhere-cons e x s h i
    go none (some (before, from)) h i = record {
      split = ap (◌∷◌ x) i.split;
      text = i.text;
      after = i.after;
      submatches = i.submatches;
      here = i.here;
      matched = i.matched;
    }
