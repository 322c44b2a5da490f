-- ===== src/Engine/Search.antt =====
-- engine.go: `Search` of an `Engine`; index.go: `Search` of an `Index`. `hits` is the search of the
-- index's alias, `sort_ids` is `sort.Sort` of `DocIDs`, and `document` is `Index.Document`; each is
-- an error where it gives `none`. What is sent on the channel is the list of the texts. The goroutine
-- of `Search` reads the engine's indexes without the lock, behind its return: here they are those
-- that the engine has at the call, and nothing changes them before the channel is closed.
pub mod Chronology
pub mod Completeness
mod Tests
use ekanite.Prelude.{List, [], ◌∷◌, ◌++◌, Option, none, some, Bytes}
use mathlib.Core.List.{reverse}
use ekanite.Index.{Index}
use ekanite.Engine.{Engine}

module _ {Db : Type 0} (hits : Index Db → Option (List Bytes)) (sort_ids : List Bytes → List Bytes)
    (document : Index Db → Bytes → Option Bytes) where
  -- `Index.Search`
  unfoldable pub index_search : Index Db → Option (List Bytes)
  index_search i = elim (hits i) [ none ↦ none | some ids ↦ some (sort_ids ids) ]

  -- The loop over the identifiers, up to the first document that is not there.
  unfoldable pub send_documents : Index Db → List Bytes → List Bytes
  send_documents i [] = []
  send_documents i (id ∷ ids) = elim (document i id) [
    | none ↦ []
    | some text ↦ text ∷ send_documents i ids
  ]

  -- The loop over the indexes, up to the first whose search fails.
  unfoldable pub search_indexes : List (Index Db) → List Bytes
  unfolding index_search send_documents
  search_indexes [] = []
  search_indexes (i ∷ is) = elim (index_search i) [
    | none ↦ []
    | some ids ↦ send_documents i ids ++ search_indexes is
  ]

  -- `Engine.Search`: the loop starts with the last index.
  unfoldable pub search : Engine Db → List Bytes
  unfolding search_indexes
  search e = search_indexes (reverse e.indexes)
