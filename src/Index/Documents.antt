-- ===== src/Index/Documents.antt =====
-- index.go: how an `Index` stores documents in its shards and gives their sources back, over bleve. A
-- shard is named by its position; each goroutine of `Index` works on a shard of its own, so what it
-- leaves there is a function of what was there.
pub mod Sources
pub mod Tests
use ekanite.Prelude.{
  ℕ, ◌+◌, ◌%◌, ◌^◌, Bool, true, false, List, [], ◌∷◌, Option, none, some, Bytes, all_of,
  if◌then◌else◌,
}
use ekanite.Index.{Index}
use ekanite.Index.Routing.{Document, shard_number, shard, shard_batches, batch_of}
use ekanite.System.{Result, ok, err, panic}

-- What is used of a `bleve.Index` whose contents are a `Store`: whether `Batch.Index` takes a
-- document; `Batch` with the documents of a batch, each indexed and set as an internal value, `none`
-- being an error; `GetInternal`, an error or else a value that may be nil; and `DocCount`.
pub record Bleve (Store : Type 0) : Type 0 where
  pub accepts : Document → Bool
  pub batch : Store → List Document → Option Store
  pub get_internal : Store → Bytes → Option (Option Bytes)
  pub doc_count : Store → Option ℕ

module _ {Store : Type 0} (bleve : Bleve Store) where
  -- `Shard.Index`, with whether it failed.
  unfoldable pub shard_index : Store → List Document → Store × Bool
  shard_index s ds =
      let written : Store × Bool = elim (bleve.batch s ds) [
        | none ↦ (s, true)
        | some s' ↦ (s', false)
      ] in
      if all_of bleve.accepts ds then written else (s, true)

  -- `Shard.Document`
  unfoldable pub shard_document : Store → Bytes → Result (Option Bytes)
  shard_document s id = elim (bleve.get_internal s id) [ none ↦ err | some value ↦ ok value ]

  module _ (sum32 : Bytes → ℕ) {Db : Type 0} (i : Index Db) where
    -- What the goroutines of `Index.Index` leave of the stores, from the batches.
    abbrev pub index_shards : (ℕ → Store) → List (ℕ × List Document) → ℕ → Store
    index_shards stores batches v = elim (batch_of v batches) [
      | [] ↦ stores v
      | d ∷ batch ↦ (shard_index (stores v) (d ∷ batch)).0
    ]

    -- `Index.Index`, which drops the error of each shard; `none` is the panic of `Shard`.
    unfoldable pub index_documents : (ℕ → Store) → List Document → Option (ℕ → Store)
    unfolding shard_index shard_batches batch_of
    index_documents stores ds = elim (shard_batches sum32 i [] ds) [
      | none ↦ none
      | some batches ↦ some (index_shards stores batches)
    ]

    -- `Index.Document`; `Shard` panics or gives a shard, never nil.
    unfoldable pub document : (ℕ → Store) → Bytes → Result (Option Bytes)
    unfolding shard shard_document
    document stores id = elim (shard sum32 i id) [
      | none ↦ panic
      | some s ↦ shard_document (stores (shard_number sum32 i id)) id
    ]

  -- `Index.Total` of the stores of the shards: the sum, in 64 bits.
  unfoldable pub total : ℕ → List Store → Option ℕ
  total sum [] = some sum
  total sum (s ∷ ss) = elim (bleve.doc_count s) [
    | none ↦ none
    | some n ↦ total ((sum + n) % 2 ^ 64) ss
  ]
