-- ===== src/Regexp/Growing.antt =====
-- Searches in a text that grows by a byte at a time.
use ekanite.Prelude.{
  ℕ, ◌≡◌, refl, sym, ap, ◌∙◌, List, [], ◌∷◌, ◌++◌, append_assoc, append-nil, Bytes, ◌⊎◌, inl, inr,
}
use ekanite.Regexp.{Regexp, seq, end}
use ekanite.Regexp.Matching.{Matches}
use ekanite.Regexp.Completeness.{Nowhere}

-- All but the last byte.
abbrev pub init : Bytes → Bytes
init [] = []
init (x ∷ []) = []
init (x ∷ y ∷ s) = x ∷ init (y ∷ s)

pub init-snoc : (s : Bytes) (x : ℕ) → init (s ++ x ∷ []) ≡ s
init-snoc [] x = refl
init-snoc (y ∷ []) x = refl
init-snoc (y ∷ z ∷ s) x = ap (◌∷◌ y) (init-snoc (z ∷ s) x)

pub snoc-injective : (a b : Bytes) (x y : ℕ) → a ++ x ∷ [] ≡ b ++ y ∷ [] → a ≡ b
snoc-injective a b x y e = sym (init-snoc a x) ∙ ap init e ∙ init-snoc b y

pub Snoc-cases : (s : Bytes) → (s ≡ []) ⊎ ((a : Bytes) × (x : ℕ) × (s ≡ a ++ x ∷ []))
Snoc-cases [] = inl refl
Snoc-cases (y ∷ s) = elim (Snoc-cases s) [
  | inl e ↦ inr ([], y, ap (◌∷◌ y) e)
  | inr (a, x, e) ↦ inr (y ∷ a, x, ap (◌∷◌ y) e)
]

-- A pattern that does not look at what follows a match.
module _ (e : Regexp)
    (stable : (w t t' : Bytes) (d : List Bytes) → Matches e w t d → Matches e w t' d) where
  pub Nowhere-prefix : (a b : Bytes) → Nowhere e (a ++ b) → Nowhere e a
  Nowhere-prefix a b n before w t d eq m =
      n before w (t ++ b) d
        (ap (λ l. l ++ b) eq
          ∙ append_assoc before (w ++ t) b
          ∙ ap (λ l. before ++ l) (append_assoc w t b))
        (stable w t (t ++ b) d m)

  -- The first match ends at the last byte.
  pub last-match :
      (s : Bytes) (b : ℕ) (before w t : Bytes) (d : List Bytes)
      → Nowhere e s
      → s ++ b ∷ [] ≡ before ++ (w ++ t)
      → Matches e w t d
      → t ≡ []
  last-match s b before w t d n eq m = elim (Snoc-cases t) [
    | inl none_left ↦ none_left
    | inr (a, x, et) ↦
        let here : s ++ b ∷ [] ≡ (before ++ (w ++ a)) ++ x ∷ [] =
          eq
          ∙ ap (λ l. before ++ (w ++ l)) et
          ∙ ap (λ l. before ++ l) (sym (append_assoc w a (x ∷ [])))
          ∙ sym (append_assoc before (w ++ a) (x ∷ [])) in
        absurd (n before w a d (snoc-injective s (before ++ (w ++ a)) b x here) (stable w t a d m))
  ]

  -- No match anywhere if none ends with the last byte.
  pub Nowhere-snoc :
      (s : Bytes) (b : ℕ)
      → Nowhere e s
      → Nowhere (seq e end) (s ++ b ∷ [])
      → Nowhere e (s ++ b ∷ [])
  Nowhere-snoc s b n at_end before w t d eq m =
      let none_left = last-match s b before w t d n eq m in
      at_end before w [] d (eq ∙ ap (λ l. before ++ (w ++ l)) none_left) (
        w,
        [],
        d,
        [],
        sym (append-nil w),
        stable w t [] d m,
        (refl, refl, refl),
        sym (append-nil d),
      )
