-- ===== src/Engine/Ingest.antt =====
-- engine.go: the whole of `Index` of an `Engine`, over the stores of the shards; event.go: the document
-- that an `Event` is. The goroutines of `Index` write to indexes that differ.
pub mod Batches
pub mod Sources
pub mod Tests
use ekanite.Prelude.{
  ℕ, Bool, true, false, List, [], ◌∷◌, ◌++◌, Option, none, some, map, Bytes, if◌then◌else◌,
}
use ekanite.System.{System, Result, ok, err, panic, M}
use ekanite.DocId.{ℤ, id}
use ekanite.Index.{Index}
use ekanite.Index.Routing.{Document}
use ekanite.Index.Documents.{Bleve, index_documents}
use ekanite.Engine.{Engine, Sort}
use ekanite.Engine.Demux.{SubBatches, sub_batches}

-- What is used of an event: its reference time, in nanoseconds since 1970 (`unix_nano`) and as the
-- engine compares it, its number, and its text.
pub record EventData (E : Type 0) : Type 0 where
  pub reference_time : E → ℕ
  pub unix_nano : E → ℤ
  pub sequence : E → ℤ
  pub text : E → Bytes

module _ {E : Type 0} (data_of : EventData E) where
  -- `ID` and `Source` of an `Event`.
  abbrev pub document_of : E → Document
  document_of ev = record {
    id = id (data_of.unix_nano ev) (data_of.sequence ev);
    source = data_of.text ev;
  }

  module _ {Db Store : Type 0} (bleve : Bleve Store) (sum32 : Bytes → ℕ)
      (same : Index Db → Index Db → Bool) where
    abbrev pub Stores : Type 0
    Stores = Index Db → ℕ → Store

    -- `i.Index(b)`, on the stores of all indexes; `none` is a panic.
    unfoldable pub index_batch : Index Db → List E → Stores → Option Stores
    unfolding index_documents
    index_batch i evs stores =
        elim (index_documents bleve sum32 i (stores i) (map document_of evs)) [
          | none ↦ none
          | some left ↦ some (λ j. if same i j then left else stores j)
        ]

    -- The loop over the batches.
    unfoldable pub index_batches : SubBatches Db E → Stores → Option Stores
    unfolding index_batch
    index_batches [] stores = some stores
    index_batches ((i, evs) ∷ rest) stores = elim (index_batch i evs stores) [
      | none ↦ none
      | some left ↦ index_batches rest left
    ]

module _ (sys : System) (sort : Sort (sys.Db))
    (others : Engine (sys.Db) → sys.Disk → Engine (sys.Db) × sys.Disk) {E Store : Type 0}
    (data_of : EventData E) (bleve : Bleve Store) (sum32 : Bytes → ℕ)
    (same : Index (sys.Db) → Index (sys.Db) → Bool)
    (meanwhile : sys.Disk → (Index (sys.Db) → ℕ → Store) → Index (sys.Db) → ℕ → Store) where
  open sys use {Disk, Db}

  -- `Index`, with the engine and the stores behind it: it returns no error. What is written to are
  -- the stores as others have left them `meanwhile`, where they may have closed or deleted some. A
  -- panic of a goroutine ends the process.
  unfoldable pub index_events :
      Engine Db → (Index Db → ℕ → Store) → List E → M Disk (Engine Db × (Index Db → ℕ → Store))
  unfolding sub_batches index_batches
  index_events e stores evs d =
      let (r, d') = sub_batches sys sort others same data_of.reference_time e [] evs d in
      elim r [
        | ok (batches, e') ↦
            let left = index_batches data_of bleve sum32 same batches (meanwhile d' stores) in
            (elim left [ none ↦ panic | some stores' ↦ ok (e', stores') ], d')
        | err ↦ (err, d')
        | panic ↦ (panic, d')
      ]
