-- ===== src/Engine/Closing/Totals.antt =====
-- engine.go: what `Total` of an `Engine` counts.
use ekanite.Prelude.{
  ℕ, ◌+◌, ◌%◌, ◌^◌, ◌<◌, ◌≡◌, refl, sym, ap, ◌∙◌, List, [], ◌∷◌, ◌++◌, Option, none, some, arith,
}
use ekanite.Index.Documents.{Bleve, total}
use ekanite.Engine.Closing.{total_of_indexes}

-- A sum in 64 bits, in front of what is still to be counted.
abbrev pub shift : ℕ → Option ℕ → Option ℕ
shift a none = none
shift a (some n) = some ((a + n) % 2 ^ 64)

abbrev pub plus : Option ℕ → Option ℕ → Option ℕ
plus none o = none
plus (some n) none = none
plus (some n) (some m) = some (n + m)

plus_assoc : (a b c : Option ℕ) → plus a (plus b c) ≡ plus (plus a b) c
plus_assoc none b c = refl
plus_assoc (some n) none c = refl
plus_assoc (some n) (some m) none = refl
plus_assoc (some n) (some m) (some k) = ap some (omega arith)

shift-plus : (a n : ℕ) (o : Option ℕ) → shift ((a + n) % 2 ^ 64) o ≡ shift a (plus (some n) o)
shift-plus a n none = refl
shift-plus a n (some m) = ap some (omega arith)

shift-nested :
    (a n : ℕ) (o : Option ℕ) → shift ((a + (0 + n) % 2 ^ 64) % 2 ^ 64) o ≡ shift a (plus (some n) o)
shift-nested a n none = refl
shift-nested a n (some m) = ap some (omega arith)

-- All the shards of the indexes.
abbrev pub shards_of : {Store : Type 0} → List (List Store) → List Store
shards_of [] = []
shards_of (i ∷ is) = i ++ shards_of is

module _ {Store : Type 0} (bleve : Bleve Store) where
  -- The documents of all shards, if each can be counted.
  abbrev pub count : List Store → Option ℕ
  count [] = some 0
  count (s ∷ ss) = plus (bleve.doc_count s) (count ss)

  count-append : (xs ys : List Store) → count (xs ++ ys) ≡ plus (count xs) (count ys)
  count-append [] ys = go (count ys)
    where
      go : (o : Option ℕ) → o ≡ plus (some 0) o
      go none = refl
      go (some n) = ap some (omega arith)
  count-append (x ∷ xs) ys =
      ap (plus (bleve.doc_count x)) (count-append xs ys)
      ∙ plus_assoc (bleve.doc_count x) (count xs) (count ys)

  total-count : (a : ℕ) (ss : List Store) → a < 2 ^ 64 → total bleve a ss ≡ shift a (count ss)
  unfolding total
  total-count a [] h = ap some (omega (arith, h))
  total-count a (s ∷ ss) h = go (bleve.doc_count s) (λ b l. total-count b ss l)
    where
      go :
          (o : Option ℕ)
          → ((b : ℕ) → b < 2 ^ 64 → total bleve b ss ≡ shift b (count ss))
          → ◌≡◌ {A = Option ℕ}
              (elim o [ none ↦ none | some n ↦ total bleve ((a + n) % 2 ^ 64) ss ])
              (shift a (plus o (count ss)))
      go none ih = refl
      go (some n) ih = ih ((a + n) % 2 ^ 64) (omega arith) ∙ shift-plus a n (count ss)

  totals :
      (a : ℕ) (is : List (List Store))
      → a < 2 ^ 64
      → total_of_indexes bleve a is ≡ shift a (count (shards_of is))
  unfolding total_of_indexes
  totals a [] h = ap some (omega (arith, h))
  totals a (i ∷ is) h =
      go (total bleve 0 i) (count i) (total-count 0 i (omega arith)) (λ b l. totals b is l)
      ∙ ap (shift a) (sym (count-append i (shards_of is)))
    where
      go :
          (o c : Option ℕ)
          → o ≡ shift 0 c
          → ((b : ℕ) → b < 2 ^ 64 → total_of_indexes bleve b is ≡ shift b (count (shards_of is)))
          → ◌≡◌ {A = Option ℕ}
              (elim o [ none ↦ none | some n ↦ total_of_indexes bleve ((a + n) % 2 ^ 64) is ])
              (shift a (plus c (count (shards_of is))))
      go o none e ih = rw (e) refl
      go o (some n) e ih = rw (e) (
          ih ((a + (0 + n) % 2 ^ 64) % 2 ^ 64) (omega arith)
          ∙ shift-nested a n (count (shards_of is)))

  -- The total of an engine is the number of the documents in all shards of its indexes, in 64 bits, and
  -- it is an error where one of the shards cannot be counted.
  pub total_of_indexes-count :
      (is : List (List Store)) → total_of_indexes bleve 0 is ≡ shift 0 (count (shards_of is))
  total_of_indexes-count is = totals 0 is (omega arith)
