-- ===== src/Regexp/Matching.antt =====
-- What it means for a text to match a pattern, with no order of search in it.
use ekanite.Prelude.{
  ℕ, ◌-◌, ◌≡◌, refl, sym, ap, ◌∙◌, subst, Bool, true, List, [], ◌∷◌, ◌++◌, append_assoc, append-nil,
  Option, none, some, Bytes, ◌&&◌, length, length-append, take, take-append, arith, Bool-cases, ◌⊎◌,
  inl, inr,
}
use ekanite.Regexp.{
  Regexp, chr, seq, alt, rep, group, end, may_take, one_less, Rest, or_else, repeat, match,
}

abbrev pub Run : (ℕ → Bool) → ℕ → Option ℕ → Bytes → Type 0
Run p lo hi [] = lo ≡ 0
Run p lo hi (x ∷ w) = (p x ≡ true) × (may_take hi ≡ true) × Run p (lo - 1) (one_less hi) w

-- The pattern matches the text `w` in front of `t`, with the submatches `d`.
abbrev pub Matches : Regexp → (w t : Bytes) → List Bytes → Type 0
Matches (chr p) w t d = (x : ℕ) × (w ≡ x ∷ []) × (p x ≡ true) × (d ≡ [])
Matches (seq a b) w t d =
    (u v : Bytes) × (d₁ d₂ : List Bytes) × (w ≡ u ++ v)
    × Matches a u (v ++ t) d₁
    × Matches b v t d₂
    × (d ≡ d₁ ++ d₂)
Matches (alt a b) w t d = Matches a w t d ⊎ Matches b w t d
Matches (rep p lo hi) w t d = Run p lo hi w × (d ≡ [])
Matches (group a) w t d = (d₁ : List Bytes) × Matches a w t d₁ × (d ≡ d₁ ++ w ∷ [])
Matches end w t d = (w ≡ []) × (t ≡ []) × (d ≡ [])

pub take-split : (w t : Bytes) → take (length (w ++ t) - length t) (w ++ t) ≡ w
take-split w t =
    let n : length (w ++ t) - length t ≡ length w = omega (arith, length-append w t) in
    rw (n) (take-append w t)

module _ {ℓ} {A : Type ℓ} where
  pub or_else-cases : (a b : Option A) {r : A} → or_else a b ≡ some r → (a ≡ some r) ⊎ (b ≡ some r)
  or_else-cases none b h = inr h
  or_else-cases (some a) b h = inl h

  record Stops (p : ℕ → Bool) (lo : ℕ) (hi : Option ℕ) (s : Bytes) (k : Bytes → Option A) (r : A)
      : Type ℓ where
    run : Bytes
    left : Bytes
    split : s ≡ run ++ left
    runs : Run p lo hi run
    then_some : k left ≡ some r

  repeat-Stops :
      (p : ℕ → Bool) (lo : ℕ) (hi : Option ℕ) (s : Bytes) (k : Bytes → Option A) {r : A}
      → repeat p lo hi s k ≡ some r
      → Stops p lo hi s k r
  unfolding repeat
  repeat-Stops p lo hi [] k h = record {
    run = [];
    left = [];
    split = refl;
    runs = ground arith;
    then_some = ground arith;
  }
  repeat-Stops p lo hi (x ∷ s) k {r} h = elim (Bool-cases (p x && may_take hi)) [
    | inl go ↦ elim (or_else-cases (repeat p (lo - 1) (one_less hi) s k) _ (rw (go) at h)) [
      | inl more ↦
          let i = repeat-Stops p (lo - 1) (one_less hi) s k more in
          record {
            run = x ∷ i.run;
            left = i.left;
            split = ap (◌∷◌ x) i.split;
            runs = (ground arith, ground arith, i.runs);
            then_some = i.then_some;
          }
      | inr stop ↦ record {
        run = [];
        left = x ∷ s;
        split = refl;
        runs = ground arith;
        then_some = ground arith;
      }
    ]
    | inr stop ↦ record {
      run = [];
      left = x ∷ s;
      split = refl;
      runs = ground arith;
      then_some = ground arith;
    }
  ]

  pub record Found (e : Regexp) (s : Bytes) (c : List Bytes) (k : Rest A) (r : A) : Type ℓ where
    pub text : Bytes
    pub left : Bytes
    pub submatches : List Bytes
    pub split : s ≡ text ++ left
    pub matched : Matches e text left submatches
    pub then_some : k left (c ++ submatches) ≡ some r

  at_once :
      (k : Rest A) (t : Bytes) (c : List Bytes) {r : A} → k t c ≡ some r → k t (c ++ []) ≡ some r
  at_once k t c h = rw (append-nil c) h

  -- A match that is found is one.
  pub match-Found :
      (e : Regexp) (s : Bytes) (c : List Bytes) (k : Rest A) {r : A}
      → match e s c k ≡ some r
      → Found e s c k r
  unfolding match
  match-Found (chr p) [] c k h = ground arith
  match-Found (chr p) (x ∷ s) c k h = elim (Bool-cases (p x)) [
    | inl yes' ↦ record {
      text = x ∷ [];
      left = s;
      submatches = [];
      split = refl;
      matched = (x, refl, yes', refl);
      then_some = at_once k s c (rw (yes') at h);
    }
    | inr no' ↦ ground arith
  ]
  match-Found (seq a b) s c k {r} h =
      let f = match-Found a s c (λ t d. match b t d k) h in
      let g = match-Found b f.left (c ++ f.submatches) k f.then_some in
      record {
        text = f.text ++ g.text;
        left = g.left;
        submatches = f.submatches ++ g.submatches;
        split = f.split ∙ ap (λ l. f.text ++ l) g.split ∙ sym (append_assoc f.text g.text g.left);
        matched = (
          f.text,
          g.text,
          f.submatches,
          g.submatches,
          refl,
          subst (λ l. Matches a f.text l f.submatches) g.split f.matched,
          g.matched,
          refl,
        );
        then_some =
            subst (λ l. k g.left l ≡ some r) (append_assoc c f.submatches g.submatches) g.then_some;
      }
  match-Found (alt a b) s c k h = elim (or_else-cases (match a s c k) (match b s c k) h) [
    | inl ha ↦
        let f = match-Found a s c k ha in
        record {
          text = f.text;
          left = f.left;
          submatches = f.submatches;
          split = f.split;
          matched = inl f.matched;
          then_some = f.then_some;
        }
    | inr hb ↦
        let f = match-Found b s c k hb in
        record {
          text = f.text;
          left = f.left;
          submatches = f.submatches;
          split = f.split;
          matched = inr f.matched;
          then_some = f.then_some;
        }
  ]
  match-Found (rep p lo hi) s c k h =
      let f = repeat-Stops p lo hi s (λ t. k t c) h in
      record {
        text = f.run;
        left = f.left;
        submatches = [];
        split = f.split;
        matched = (f.runs, refl);
        then_some = at_once k f.left c f.then_some;
      }
  match-Found (group a) s c k {r} h =
      let f = match-Found a s c (λ t d. k t (d ++ take (length s - length t) s ∷ [])) h in
      let e : take (length s - length f.left) s ≡ f.text =
        subst (λ l. take (length l - length f.left) l ≡ f.text) (sym f.split)
          (take-split f.text f.left) in
      record {
        text = f.text;
        left = f.left;
        submatches = f.submatches ++ f.text ∷ [];
        split = f.split;
        matched = (f.submatches, f.matched, refl);
        then_some =
            subst (λ l. k f.left l ≡ some r) (append_assoc c f.submatches (f.text ∷ []))
              (subst (λ w. k f.left ((c ++ f.submatches) ++ w ∷ []) ≡ some r) e f.then_some);
      }
  match-Found end [] c k h = record {
    text = [];
    left = [];
    submatches = [];
    split = refl;
    matched = (refl, refl, refl);
    then_some = at_once k [] c h;
  }
  match-Found end (x ∷ s) c k h = ground arith
