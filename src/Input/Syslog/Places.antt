-- ===== src/Input/Syslog/Places.antt =====
-- Where the patterns of input/delimiter_syslog.go match.
use ekanite.Prelude.{
  ℕ, zero, suc, ◌-◌, ◌≤◌, ◌≡◌, ◌≢◌, refl, sym, ap, ◌∙◌, subst, Bool, true, List, [], ◌∷◌, ◌++◌,
  append-nil, Option, some, Bytes, ==_iff, length, arith, All, All-append, All-imp,
}
use ekanite.Strings.{is_digit}
use ekanite.Regexp.Matching.{Run, Matches}
use ekanite.Regexp.Completeness.{Nowhere}
use ekanite.Input.Syslog.{syslog_regex, start_regex, run_regex}

-- `<`, one to three digits and `>`.
pub record IsHeader (h : Bytes) : Type 0 where
  pub digits : Bytes
  pub are_digits : All (λ x. is_digit x ≡ true) digits
  pub some_digits : 1 ≤ length digits
  pub few_digits : length digits ≤ 3
  pub is : h ≡ b'<' ∷ digits ++ b'>' ∷ []

Run-All :
    (p : ℕ → Bool) (lo : ℕ) (hi : Option ℕ) (w : Bytes) → Run p lo hi w → All (λ x. p x ≡ true) w
Run-All p lo hi [] h = tt
Run-All p lo hi (x ∷ w) (px, m, h) = (px, Run-All p (lo - 1) _ w h)

Run-least : (p : ℕ → Bool) (lo : ℕ) (hi : Option ℕ) (w : Bytes) → Run p lo hi w → lo ≤ length w
Run-least p lo hi [] h = omega (arith, h)
Run-least p lo hi (x ∷ w) (px, m, h) = omega (arith, Run-least p (lo - 1) _ w h)

Run-most : (p : ℕ → Bool) (lo m : ℕ) (w : Bytes) → Run p lo (some m) w → length w ≤ m
Run-most p lo m [] h = omega arith
Run-most p lo zero (x ∷ w) (px, h, _) = cc
Run-most p lo (suc m) (x ∷ w) (px, h, r) = omega (arith, Run-most p (lo - 1) (suc m - 1) w r)

-- The bytes of a match of `<[0-9]{1,3}>`.
pub Matches-IsHeader : (w t : Bytes) (d : List Bytes) → Matches syslog_regex w t d → IsHeader w
Matches-IsHeader w t d
      (u, v, _, _, ew, (x, eu, hx, _), (ds, v', _, _, ev, (run, _), (y, ey, hy, _), _), _) =
    record {
      digits = ds;
      are_digits = Run-All is_digit 1 (some 3) ds run;
      some_digits = Run-least is_digit 1 (some 3) ds run;
      few_digits = Run-most is_digit 1 3 ds run;
      is = rw (ew, eu, ev, ey, (==_iff x b'<').0 hx, (==_iff y b'>').0 hy) refl;
    }

-- A match of `\n<[0-9]{1,3}>`.
pub record IsBreak (w : Bytes) : Type 0 where
  pub header : Bytes
  pub is_header : IsHeader header
  pub is : w ≡ b'\n' ∷ header

pub Matches-IsBreak : (w t : Bytes) (d : List Bytes) → Matches run_regex w t d → IsBreak w
Matches-IsBreak w t d (u, v, _, _, ew, (x, eu, hx, _), m, _) = record {
  header = v;
  is_header = Matches-IsHeader v t _ m;
  is = rw (ew, eu, (==_iff x b'\n').0 hx) refl;
}

digit-ne-newline : (x : ℕ) → is_digit x ≡ true → x ≢ b'\n'
unfolding is_digit
digit-ne-newline x e n = ground arith

pub not_newline : (h : Bytes) → IsHeader h → All (λ x. x ≢ b'\n') h
not_newline h i = subst (All (λ x. x ≢ b'\n')) (sym i.is) (
  (λ e. ground arith),
  All-append (λ x. x ≢ b'\n') i.digits (b'>' ∷ []) (All-imp digit-ne-newline i.digits i.are_digits)
      ((λ e. ground arith), tt),
)

pub All-at : (P : ℕ → Type 0) (a : Bytes) (x : ℕ) (b : Bytes) → All P (a ++ x ∷ b) → P x
All-at P [] x b h = h.0
All-at P (y ∷ a) x b h = All-at P a x b h.1

-- A header has no newline in it.
pub IsHeader-Nowhere : (h : Bytes) → IsHeader h → Nowhere run_regex h
IsHeader-Nowhere h i before w t d eq m =
    let k = Matches-IsBreak w t d m in
    All-at (λ x. x ≢ b'\n') before b'\n' (k.header ++ t)
      (subst (All (λ x. x ≢ b'\n')) (eq ∙ ap (λ l. before ++ (l ++ t)) k.is) (not_newline h i)) refl

-- A match of `<[0-9]{1,3}>$`.
pub Matches-AtEnd :
    (w t : Bytes) (d : List Bytes) → Matches start_regex w t d → IsHeader w × (t ≡ [])
Matches-AtEnd w t d (u, v, d₁, _, ew, m, (ev, et, _), _) = (
  subst IsHeader (sym (append-nil u) ∙ ap (λ l. u ++ l) (sym ev) ∙ sym ew)
      (Matches-IsHeader u (v ++ t) d₁ m),
  et,
)
