-- ===== src/Engine/Search/Chronology.antt =====
-- The order in which a search sends the documents.
use mathlib.Core.List.{
  Mem, Perm, reverse, reverse-cons, map-append, mem-cons_self, mem-cons_of_mem, reverse_perm,
}
use mathlib.Core.List.Perm
use ekanite.Prelude.{
  ℕ, ◌≤◌, ◌≡◌, refl, sym, ap, ap₂, ◌∙◌, subst, List, [], ◌∷◌, ◌++◌, map, Option, none, some, Bytes,
  arith, All, All-append,
}
use ekanite.Index.{Index}
use ekanite.Engine.{Engine}
use ekanite.Engine.Search.{index_search, send_documents, search_indexes, search}

-- Times in ascending order, none before `lo` and none behind `hi`.
unfoldable pub Ascend : (lo hi : ℕ) → List ℕ → Type 0
Ascend lo hi [] = lo ≤ hi
Ascend lo hi (t ∷ ts) = (lo ≤ t) × Ascend t hi ts

Ascend-le : (lo hi : ℕ) (ts : List ℕ) → Ascend lo hi ts → lo ≤ hi
unfolding Ascend
Ascend-le lo hi [] h = h
Ascend-le lo hi (t ∷ ts) (le, h) = omega (arith, le, Ascend-le t hi ts h)

Ascend-append :
    (lo mid hi : ℕ) (ts us : List ℕ) → Ascend lo mid ts → Ascend mid hi us → Ascend lo hi (ts ++ us)
unfolding Ascend
Ascend-append lo mid hi [] [] h k = omega (arith, h, k)
Ascend-append lo mid hi [] (u ∷ us) h (le, k) = (omega (arith, h, le), k)
Ascend-append lo mid hi (t ∷ ts) us (le, h) k = (le, Ascend-append t mid hi ts us h k)

module _ {Db : Type 0} where
  -- Indexes with the latest first, in ranges that do not overlap, from `lo` to `hi`.
  unfoldable pub IsLatestFirst : (lo hi : ℕ) → List (Index Db) → Type 0
  IsLatestFirst lo hi [] = lo ≤ hi
  IsLatestFirst lo hi (i ∷ is) =
      (i.end_time ≤ hi) × (i.start_time ≤ i.end_time) × IsLatestFirst lo i.start_time is

  -- The same with the earliest first.
  IsEarliestFirst : (lo hi : ℕ) → List (Index Db) → Type 0
  IsEarliestFirst lo hi [] = lo ≤ hi
  IsEarliestFirst lo hi (i ∷ is) =
      (lo ≤ i.start_time) × (i.start_time ≤ i.end_time) × IsEarliestFirst i.end_time hi is

  earliest-append :
      (lo hi : ℕ) (is : List (Index Db)) (i : Index Db)
      → IsEarliestFirst lo i.start_time is
      → i.start_time ≤ i.end_time
      → i.end_time ≤ hi
      → IsEarliestFirst lo hi (is ++ i ∷ [])
  unfolding IsEarliestFirst
  earliest-append lo hi [] i h le le' = (h, le, le')
  earliest-append lo hi (j ∷ is) i (l, l', h) le le' =
      (l, l', earliest-append j.end_time hi is i h le le')

  reverse-IsEarliestFirst :
      (lo hi : ℕ) (is : List (Index Db))
      → IsLatestFirst lo hi is
      → IsEarliestFirst lo hi (reverse is)
  unfolding IsLatestFirst IsEarliestFirst
  reverse-IsEarliestFirst lo hi [] h = h
  reverse-IsEarliestFirst lo hi (i ∷ is) (l, l', h) =
      subst (IsEarliestFirst lo hi) (sym (reverse-cons i is))
        (earliest-append lo hi (reverse is) i (reverse-IsEarliestFirst lo i.start_time is h) l' l)

module _ {Db : Type 0} (hits : Index Db → Option (List Bytes)) (sort_ids : List Bytes → List Bytes)
    (document : Index Db → Bytes → Option Bytes) (time : Bytes → ℕ) where
  -- What the search of an index finds are events of its range, and `sort.Sort` orders them by time.
  abbrev pub IsSortedInRange : Type 0
  IsSortedInRange =
      (i : Index Db) (ids : List Bytes)
      → hits i ≡ some ids
      → Ascend i.start_time i.end_time (map time (sort_ids ids))

  -- One text that is sent, with the identifier of its document and the index that has it.
  pub record Sent : Type 0 where
    pub index : Index Db
    pub id : Bytes
    pub text : Bytes

  -- The search of the index has found the identifier, under which the index has the text.
  abbrev pub IsFound : List (Index Db) → Sent → Type 0
  IsFound is x =
      Mem x.index is
      × (document x.index x.id ≡ some x.text)
      × ((ids : List Bytes) × (hits x.index ≡ some ids) × Mem x.id ids)

  -- The texts are those of documents that were found, with identifiers in ascending order of time.
  pub record Sends (is : List (Index Db)) (lo hi : ℕ) (texts : List Bytes) : Type 0 where
    pub sent : List Sent
    pub are : texts ≡ map (λ (x : Sent). x.text) sent
    pub ordered : Ascend lo hi (map (λ (x : Sent). time x.id) sent)
    pub found : All (IsFound is) sent

  module _ (all : List (Index Db)) where
    documents-Sends :
        (lo hi : ℕ) (i : Index Db) (hit ids : List Bytes)
        → Mem i all
        → hits i ≡ some hit
        → ((id : Bytes) → Mem id ids → Mem id hit)
        → Ascend lo hi (map time ids)
        → Sends all lo hi (send_documents hits sort_ids document i ids)
    unfolding send_documents Ascend
    documents-Sends lo hi i hit [] m e sub h = record {
      sent = [];
      are = refl;
      ordered = h;
      found = tt;
    }
    documents-Sends lo hi i hit (id ∷ ids) m e sub (le, h) =
        go (document i id) refl
          (documents-Sends (time id) hi i hit ids m e (λ x k. sub x (mem-cons_of_mem id k)) h)
      where
        go :
            (o : Option Bytes)
            → document i id ≡ o
            → Sends all (time id) hi (send_documents hits sort_ids document i ids)
            → Sends all lo hi (elim o [
              | none ↦ []
              | some text ↦ text ∷ send_documents hits sort_ids document i ids
            ])
        go none d rest = record {
          sent = [];
          are = refl;
          ordered = omega (arith, le, Ascend-le (time id) hi (map time ids) h);
          found = tt;
        }
        go (some text) d rest = record {
          sent = record { index = i; id = id; text = text } ∷ rest.sent;
          are = ap (◌∷◌ text) rest.are;
          ordered = (le, rest.ordered);
          found = ((m, d, (hit, e, sub id mem-cons_self)), rest.found);
        }

    Sends-append :
        (lo mid hi : ℕ) (a b : List Bytes)
        → Sends all lo mid a
        → Sends all mid hi b
        → Sends all lo hi (a ++ b)
    Sends-append lo mid hi a b s t = record {
      sent = s.sent ++ t.sent;
      are = ap₂ (◌++◌) s.are t.are ∙ sym (map-append (λ (x : Sent). x.text) s.sent t.sent);
      ordered =
          subst (Ascend lo hi) (sym (map-append (λ (x : Sent). time x.id) s.sent t.sent))
            (Ascend-append lo mid hi _ _ s.ordered t.ordered);
      found = All-append (IsFound all) s.sent t.sent s.found t.found;
    }

    weaken : (lo lo' hi : ℕ) (a : List Bytes) → lo ≤ lo' → Sends all lo' hi a → Sends all lo hi a
    unfolding Ascend
    weaken lo lo' hi a le s = record {
      sent = s.sent;
      are = s.are;
      ordered = Ascend-append lo lo' hi [] (map (λ (x : Sent). time x.id) s.sent) le s.ordered;
      found = s.found;
    }

    module _ (sorts : (l : List Bytes) → Perm (sort_ids l) l) (w : IsSortedInRange) where
      indexes-Sends :
          (lo hi : ℕ) (is : List (Index Db))
          → ((j : Index Db) → Mem j is → Mem j all)
          → IsEarliestFirst lo hi is
          → Sends all lo hi (search_indexes hits sort_ids document is)
      unfolding search_indexes index_search IsEarliestFirst Ascend
      indexes-Sends lo hi [] sub h = record { sent = []; are = refl; ordered = h; found = tt }
      indexes-Sends lo hi (i ∷ is) sub (l, l', h) =
          go (hits i) refl (indexes-Sends i.end_time hi is (λ j m. sub j (mem-cons_of_mem i m)) h)
        where
          go :
              (o : Option (List Bytes))
              → hits i ≡ o
              → Sends all i.end_time hi (search_indexes hits sort_ids document is)
              → Sends all lo hi (
                  let sorted : Option (List Bytes) = (elim o [
                    | none ↦ none
                    | some ids ↦ some (sort_ids ids)
                  ]) in
                  elim sorted [
                    | none ↦ []
                    | some ids ↦
                        send_documents hits sort_ids document i ids
                        ++ search_indexes hits sort_ids document is
                  ])
          go none e rest = record {
            sent = [];
            are = refl;
            ordered = omega (arith, l, l', Ascend-le i.end_time hi _ rest.ordered);
            found = tt;
          }
          go (some ids) e rest =
              Sends-append lo i.end_time hi _ _
                (weaken lo i.start_time i.end_time _ l (
                  documents-Sends i.start_time i.end_time i ids (sort_ids ids) (sub i mem-cons_self)
                    e (λ id m. (Perm.mem_iff (sorts ids)).0 m) (w i ids e)))
                rest

  -- While the indexes lie one behind the other in time, the latest first, and the search of each
  -- finds events of its range, which are sorted by time: a search sends texts that are each the
  -- document of an identifier that was found in its index, in ascending order of the times of the
  -- identifiers, the earliest first, from all the indexes together, whichever searches and documents
  -- fail.
  pub search-Sends :
      (e : Engine Db) (lo hi : ℕ)
      → ((l : List Bytes) → Perm (sort_ids l) l)
      → IsSortedInRange
      → IsLatestFirst lo hi e.indexes
      → Sends e.indexes lo hi (search hits sort_ids document e)
  unfolding search
  search-Sends e lo hi sorts w h =
      indexes-Sends e.indexes sorts w lo hi (reverse e.indexes)
        (λ j m. (Perm.mem_iff (reverse_perm e.indexes)).0 m)
        (reverse-IsEarliestFirst lo hi e.indexes h)
