-- ===== src/DocId/Chronology.antt =====
-- index.go and event.go: the order of the identifiers of events, and what they encode.
use native.Mathlib.Nat.{div-add-mod}
use mathlib.Core.Option.{some-injective}
use ekanite.Prelude.{
  ℕ, zero, suc, ◌+◌, ◌/◌, ◌%◌, ◌^◌, ◌≤◌, ◌<◌, ◌≡◌, refl, ap, sym, ◌∙◌, false, ◌&&◌, ◌||◌, [], ◌∷◌,
  ◌++◌, Option, some, Bytes, ltb, ◌==◌, length, take, drop, arith, append_assoc, append-nil, subst,
  length-append, take-append, drop-append, take-length,
}
use ekanite.DocId.{
  ℤ, pos, negsuc, uint64, hex_digit, hex, id, digit_value, parse_hex, must_parse, slice, words,
  less,
}

pub length-hex : (w n : ℕ) → length (hex w n) ≡ w
unfolding hex
length-hex zero n = refl
length-hex (suc w) n =
    length-append (hex w (n / 16)) _ ∙ ap (◌+ 1) (length-hex w (n / 16)) ∙ omega arith

digit_value-hex_digit : (d : ℕ) → d < 16 → digit_value (hex_digit d) ≡ some d
unfolding digit_value
digit_value-hex_digit d h = ground arith

parse_hex-hex :
    (w n : ℕ) (rest : Bytes) → n < 16 ^ w → parse_hex 0 (hex w n ++ rest) ≡ parse_hex n rest
unfolding hex parse_hex
parse_hex-hex zero n rest h = ap (λ k. parse_hex k rest) (omega arith)
parse_hex-hex (suc w) n rest h =
    ap (parse_hex 0) (append_assoc (hex w (n / 16)) (hex_digit (n % 16) ∷ []) rest)
    ∙ parse_hex-hex w (n / 16) _ (omega arith)
    ∙ rw (digit_value-hex_digit (n % 16) (omega arith), parse_hex)
        (ap (λ k. parse_hex k rest) (omega (arith, div-add-mod n 16)))

must_parse-value :
    (s : Bytes) (n : ℕ) → 1 ≤ length s → parse_hex 0 s ≡ some n → n < 2 ^ 64 → must_parse s ≡ some n
unfolding must_parse
must_parse-value [] n l h lt = absurd (omega (arith, l))
must_parse-value (c ∷ cs) n l h lt = rw (h, must_parse) (ground arith)

must_parse-hex : (n : ℕ) → n < 2 ^ 64 → must_parse (hex 16 n) ≡ some n
unfolding parse_hex
must_parse-hex n h =
    must_parse-value (hex 16 n) n (omega (arith, length-hex 16 n))
      (ap (parse_hex 0) (sym (append-nil (hex 16 n))) ∙ parse_hex-hex 16 n [] (omega arith)) h

slice-front : (a b : Bytes) → length a ≡ 16 → slice 0 16 (a ++ b) ≡ some a
slice-front a b h =
    let t : take 16 (a ++ b) ≡ a = subst (λ k. take k (a ++ b) ≡ a) h (take-append a b) in
    let l = length-append a b in ground arith

slice-back : (a b : Bytes) → length a ≡ 16 → length b ≡ 16 → slice 16 32 (a ++ b) ≡ some b
slice-back a b h k =
    let t : drop 16 (a ++ b) ≡ b = subst (λ k. drop k (a ++ b) ≡ b) h (drop-append a b) in
    let u : take 16 b ≡ b = take-length 16 b (sym k) in let l = length-append a b in ground arith

words-hex : (t s : ℕ) → t < 2 ^ 64 → s < 2 ^ 64 → words (hex 16 t ++ hex 16 s) ≡ some (t, s)
words-hex t s ht hs =
    rw
      (
        slice-front (hex 16 t) (hex 16 s) (length-hex 16 t),
        slice-back (hex 16 t) (hex 16 s) (length-hex 16 t) (length-hex 16 s),
        must_parse-hex t ht,
        must_parse-hex s hs,
      )
      refl

uint64-lt : (x : ℤ) → uint64 x < 2 ^ 64
unfolding uint64
uint64-lt (pos n) = omega arith
uint64-lt (negsuc n) = omega arith

-- `Less` on the identifiers of two events does not panic and compares their times, and on equal
-- times their sequence numbers, as unsigned numbers of 64 bits.
pub less-id :
    (t s t' s' : ℤ)
    → less (id t s) (id t' s')
      ≡ some (ltb (uint64 t) (uint64 t') || (uint64 t == uint64 t' && ltb (uint64 s) (uint64 s')))
unfolding less id
less-id t s t' s' =
    rw
      (
        words-hex (uint64 t) (uint64 s) (uint64-lt t) (uint64-lt s),
        words-hex (uint64 t') (uint64 s') (uint64-lt t') (uint64-lt s'),
      )
      (ground arith)

-- Two events have the same identifier only if their times agree, and their sequence numbers, as
-- unsigned numbers of 64 bits.
pub id-injective :
    (t s t' s' : ℤ) → id t s ≡ id t' s' → (uint64 t ≡ uint64 t') × (uint64 s ≡ uint64 s')
unfolding id
id-injective t s t' s' h =
    let e : ◌≡◌ {A = Option (ℕ × ℕ)} (some (uint64 t, uint64 s)) (some (uint64 t', uint64 s')) =
      sym (words-hex (uint64 t) (uint64 s) (uint64-lt t) (uint64-lt s))
      ∙ ap words h
      ∙ words-hex (uint64 t') (uint64 s') (uint64-lt t') (uint64-lt s') in
    let p = some-injective _ _ e in (ap (λ x. x.0) p, ap (λ x. x.1) p)

-- An event of a time before 1970 is never less than one of a time since then, although it is
-- earlier: the times are nanoseconds that an `int64` holds.
pub less-id_before_1970 :
    (n m : ℕ) (s s' : ℤ)
    → n < 2 ^ 63
    → m < 2 ^ 63
    → less (id (negsuc n) s) (id (pos m) s') ≡ some false
unfolding uint64
less-id_before_1970 n m s s' hn hm = less-id (negsuc n) s (pos m) s' ∙ ground arith
