-- ===== src/Engine/Search/Tests.antt =====
-- A search of two indexes, and an instance of each theorem.
use mathlib.Core.List.{Perm}
use mathlib.Core.List.Perm
use ekanite.Prelude.{
  ℕ, ◌≡◌, refl, List, [], ◌∷◌, Option, none, some, Bytes, arith, leb, Bool-cases, inl, inr, map,
  subst, if◌then◌else◌,
}
use mathlib.Core.Option.{some-injective}
use ekanite.Index.{Index}
use ekanite.Engine.{Engine}
use ekanite.Engine.Search.{search}
use ekanite.Engine.Search.Chronology.{Ascend, IsLatestFirst, IsSortedInRange, Sends, search-Sends}
use ekanite.Engine.Search.Completeness.{all_texts, search-all}

abbrev range : ℕ → ℕ → Index (Unit {0})
range start end = record { path = []; start_time = start; end_time = end; shards = [] }

abbrev engine : Engine (Unit {0})
engine = record {
  path = [];
  num_shards = 2;
  index_duration = 10;
  retention_period = 15;
  indexes = range 20 30 ∷ range 10 20 ∷ [];
  deletions = 0;
}

-- An identifier is its time, and each index holds its start time and the time behind it.
abbrev ids : Index (Unit {0}) → List Bytes
ids i = (i.start_time ∷ []) ∷ []

abbrev time : Bytes → ℕ
time [] = 0
time (t ∷ ts) = t

abbrev same : List Bytes → List Bytes
same l = l

abbrev text : Index (Unit {0}) → Bytes → Bytes
text i id = b'#' ∷ id

search_two_indexes :
    search (λ i. some (ids i)) same (λ i id. some (text i id)) engine
    ≡ (b'#' ∷ 10 ∷ []) ∷ (b'#' ∷ 20 ∷ []) ∷ []
unfolding search
search_two_indexes = refl

search-all_example :
    Perm
      (search (λ i. some (ids i)) same (λ i id. some (text i id)) engine)
      ((b'#' ∷ 20 ∷ []) ∷ (b'#' ∷ 10 ∷ []) ∷ [])
unfolding all_texts
search-all_example =
    search-all ids text (λ i. some (ids i)) same (λ i id. some (text i id)) (λ l. Perm.rfl) engine
      (λ i m. (refl, λ id k. refl))

-- Each index that has a range holds one event, of its start time.
abbrev hits : Index (Unit {0}) → Option (List Bytes)
hits i = if leb i.start_time i.end_time then some ((i.start_time ∷ []) ∷ []) else none

hits-IsSortedInRange : IsSortedInRange hits same (λ i id. some id) time
unfolding Ascend
hits-IsSortedInRange i l h = elim (Bool-cases (leb i.start_time i.end_time)) [
  | inl le ↦
      let e : some ((i.start_time ∷ []) ∷ []) ≡ some l = cc in
      subst (λ k. Ascend i.start_time i.end_time (map time k)) (some-injective _ _ e)
        (omega arith, ground arith)
  | inr gt ↦ ground arith
]

search-Sends_example :
    Sends hits same
      (λ i id. some id)
      time
      engine.indexes
      10
      30
      (search hits same (λ i id. some id) engine)
unfolding IsLatestFirst
search-Sends_example =
    search-Sends hits same (λ i id. some id) time engine 10 30 (λ l. Perm.rfl) hits-IsSortedInRange
      (omega arith, omega arith, (omega arith, omega arith, omega arith))
