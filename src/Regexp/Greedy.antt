-- ===== src/Regexp/Greedy.antt =====
-- Where the first try of a pattern is the match that is found.
use ekanite.Prelude.{
  ℕ, zero, suc, ◌-◌, ◌≤◌, ◌≡◌, refl, sym, ap, subst, Bool, true, false, List, [], ◌∷◌, ◌++◌,
  append_assoc, append-nil, Option, none, some, Bytes, length, take, All, arith,
}
use ekanite.Regexp.{
  Regexp, chr, seq, alt, rep, group, end, one_less, Rest, or_else, repeat, match, match_here,
  find_string_submatch,
}
use ekanite.Regexp.Matching.{Run, take-split}

-- The text does not go on with a byte of the class.
abbrev pub Ends : (ℕ → Bool) → Bytes → Type 0
Ends p [] = Unit
Ends p (x ∷ t) = p x ≡ false

module _ {ℓ} {A : Type ℓ} where
  repeat-Run :
      (p : ℕ → Bool) (lo : ℕ) (hi : Option ℕ) (w t : Bytes) (k : Bytes → Option A) {r : A}
      → Run p lo hi w
      → Ends p t
      → k t ≡ some r
      → repeat p lo hi (w ++ t) k ≡ some r
  unfolding repeat
  repeat-Run p lo hi [] [] k h e g = ground arith
  repeat-Run p lo hi [] (x ∷ t) k h e g = ground arith
  repeat-Run p lo hi (x ∷ w) t k (px, m, h) e g =
      rw (px, m, repeat-Run p (lo - 1) (one_less hi) w t k h e g) refl

-- The pattern takes `w` in front of `t` first, with the submatches `d`.
abbrev pub Takes : Regexp → (w t : Bytes) → List Bytes → Type 0
Takes e w t d =
    (c : List Bytes) (k : Rest (List Bytes)) (r : List Bytes)
    → k t (c ++ d) ≡ some r
    → match e (w ++ t) c k ≡ some r

pub chr-Takes : (p : ℕ → Bool) (x : ℕ) (t : Bytes) → p x ≡ true → Takes (chr p) (x ∷ []) t []
unfolding match
chr-Takes p x t h c k r g = rw (h) (rw (append-nil c) at g)

pub rep-Takes :
    (p : ℕ → Bool) (lo : ℕ) (hi : Option ℕ) (w t : Bytes)
    → Run p lo hi w
    → Ends p t
    → Takes (rep p lo hi) w t []
unfolding match
rep-Takes p lo hi w t h e c k r g = repeat-Run p lo hi w t (λ t. k t c) h e (rw (append-nil c) at g)

pub seq-Takes :
    (a b : Regexp) (u v t : Bytes) (d₁ d₂ : List Bytes)
    → Takes a u (v ++ t) d₁
    → Takes b v t d₂
    → Takes (seq a b) (u ++ v) t (d₁ ++ d₂)
unfolding match
seq-Takes a b u v t d₁ d₂ ha hb c k r g =
    rw (append_assoc u v t)
      (ha c (λ t d. match b t d k) r (hb (c ++ d₁) k r (rw (append_assoc c d₁ d₂) g)))

pub group-Takes :
    (a : Regexp) (w t : Bytes) (d : List Bytes) → Takes a w t d → Takes (group a) w t (d ++ w ∷ [])
unfolding match
group-Takes a w t d h c k r g =
    h c (λ u e. k u (e ++ take (length (w ++ t) - length u) (w ++ t) ∷ [])) r
      (rw (take-split w t, append_assoc c d (w ∷ [])) g)

pub end-Takes : Takes end [] [] []
unfolding match
end-Takes c k r g = rw (append-nil c) at g

pub Takes-match_here :
    (e : Regexp) (w t : Bytes) (d : List Bytes)
    → Takes e w t d
    → match_here e (w ++ t) ≡ some (w ∷ d)
unfolding match_here
Takes-match_here e w t d h =
    h [] (λ u c. some (take (length (w ++ t) - length u) (w ++ t) ∷ c)) (w ∷ d)
      (rw (take-split w t) refl)

pub alt_left-Takes :
    (a b : Regexp) (w t : Bytes) (d : List Bytes) → Takes a w t d → Takes (alt a b) w t d
unfolding match
alt_left-Takes a b w t d h c k r g = rw (h c k r g) refl

pub alt_right-Takes :
    (a b : Regexp) (w t : Bytes) (d : List Bytes)
    → ((c : List Bytes) (k : Rest (List Bytes)) → match a (w ++ t) c k ≡ none)
    → Takes b w t d
    → Takes (alt a b) w t d
unfolding match
alt_right-Takes a b w t d n h c k r g = rw (n c k) (h c k r g)

Takes-match_all :
    (e : Regexp) (w : Bytes) (d : List Bytes) → Takes e w [] d → match_here e w ≡ some (w ∷ d)
Takes-match_all e w d h =
    subst (λ l. match_here e l ≡ some (w ∷ d)) (append-nil w) (Takes-match_here e w [] d h)

pub Takes-find :
    (e : Regexp) (w : Bytes) (d : List Bytes)
    → Takes e w [] d
    → find_string_submatch e w ≡ some (w ∷ d)
unfolding find_string_submatch
Takes-find e [] d h = Takes-match_all e [] d h
Takes-find e (x ∷ w) d h =
    ap (λ o. or_else o (find_string_submatch e w)) (Takes-match_all e (x ∷ w) d h)

-- A run within a bound, from the number of its bytes.
abbrev pub AtMost : ℕ → Option ℕ → Type 0
AtMost n none = Unit
AtMost n (some m) = n ≤ m

pub All-Run :
    (p : ℕ → Bool) (lo : ℕ) (hi : Option ℕ) (w : Bytes)
    → All (λ x. p x ≡ true) w
    → lo ≤ length w
    → AtMost (length w) hi
    → Run p lo hi w
All-Run p lo hi [] a l m = omega (arith, l)
All-Run p lo none (x ∷ w) (px, a) l m =
    (px, refl, All-Run p (lo - 1) none w a (omega (arith, l)) tt)
All-Run p lo (some zero) (x ∷ w) (px, a) l m = absurd (omega (arith, m))
All-Run p lo (some (suc n)) (x ∷ w) (px, a) l m =
    (px, refl, All-Run p (lo - 1) (some (suc n - 1)) w a (omega (arith, l)) (omega (arith, m)))

-- A byte, or a submatch, in front of what the rest of the pattern takes up to the end.
pub chr_then :
    (p : ℕ → Bool) (x : ℕ) (b : Regexp) (v : Bytes) (d : List Bytes)
    → p x ≡ true
    → Takes b v [] d
    → Takes (seq (chr p) b) (x ∷ v) [] d
chr_then p x b v d h hb = seq-Takes (chr p) b (x ∷ []) v [] [] d (chr-Takes p x (v ++ []) h) hb

pub group_then :
    (a b : Regexp) (u v : Bytes) (d : List Bytes)
    → Takes a u v []
    → Takes b v [] d
    → Takes (seq (group a) b) (u ++ v) [] (u ∷ d)
group_then a b u v d ha hb =
    seq-Takes (group a) b u v [] (u ∷ []) d
      (group-Takes a u (v ++ []) [] (subst (λ t. Takes a u t []) (sym (append-nil v)) ha)) hb

pub rep_then :
    (p : ℕ → Bool) (lo : ℕ) (hi : Option ℕ) (b : Regexp) (u v : Bytes) (d : List Bytes)
    → Run p lo hi u
    → Ends p v
    → Takes b v [] d
    → Takes (seq (group (rep p lo hi)) b) (u ++ v) [] (u ∷ d)
rep_then p lo hi b u v d h e hb = group_then (rep p lo hi) b u v d (rep-Takes p lo hi u v h e) hb

-- `(.+$)`
pub rest-Takes :
    (p : ℕ → Bool) (lo : ℕ) (hi : Option ℕ) (u : Bytes)
    → Run p lo hi u
    → Takes (group (seq (rep p lo hi) end)) u [] (u ∷ [])
rest-Takes p lo hi u h =
    subst (λ w. Takes (group (seq (rep p lo hi) end)) w [] (w ∷ [])) (append-nil u)
      (group-Takes (seq (rep p lo hi) end) (u ++ []) [] []
        (seq-Takes (rep p lo hi) end u [] [] [] [] (rep-Takes p lo hi u [] h tt) end-Takes))
