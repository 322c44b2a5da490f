-- ===== src/Index/Routing.antt =====
-- index.go: how an `Index` routes a document to one of its shards, in `Shard` and in the loop of
-- `Index`. `sum32` is the FNV-1a hash of hash/fnv. A shard is named by its position in `Shards`,
-- since every shard there is a pointer of its own; a map of batches is a list of pairs.
pub mod Batches
mod Tests
use ekanite.Prelude.{
  ℕ, ◌%◌, ◌^◌, List, [], ◌∷◌, ◌++◌, Option, none, some, Bytes, ◌==◌, if◌then◌else◌, length,
  get_elem?,
}
use ekanite.Index.{Shard, Index}

-- What is used of a `Document`.
pub record Document : Type 0 where
  pub id : Bytes
  pub source : Bytes

module _ (sum32 : Bytes → ℕ) {Db : Type 0} where
  -- The position `v`, where there are shards.
  abbrev pub shard_number : Index Db → Bytes → ℕ
  shard_number i id = sum32 id % (length i.shards % 2 ^ 32)

  -- `Index.Shard`: the remainder of a division by 0 is a panic, and so is an index out of range.
  unfoldable pub shard : Index Db → Bytes → Option (Shard Db)
  shard i id =
      if length i.shards % 2 ^ 32 == 0 then none else get_elem? i.shards (shard_number i id)

-- `shardBatches[shard] = append(shardBatches[shard], d)`
unfoldable pub add_to : ℕ → Document → List (ℕ × List Document) → List (ℕ × List Document)
add_to v d [] = (v, d ∷ []) ∷ []
add_to v d ((k, batch) ∷ rest) =
    let others = add_to v d rest in
    if k == v then (k, batch ++ d ∷ []) ∷ rest else (k, batch) ∷ others

module _ (sum32 : Bytes → ℕ) {Db : Type 0} where
  -- The loop over the documents in `Index.Index`, with the batches so far; `none` is the panic.
  unfoldable pub shard_batches :
      Index Db → List (ℕ × List Document) → List Document → Option (List (ℕ × List Document))
  unfolding shard add_to
  shard_batches i batches [] = some batches
  shard_batches i batches (d ∷ ds) = elim (shard sum32 i d.id) [
    | none ↦ none
    | some s ↦ shard_batches i (add_to (shard_number sum32 i d.id) d batches) ds
  ]

-- What the map holds for a shard.
unfoldable pub batch_of : ℕ → List (ℕ × List Document) → List Document
batch_of v [] = []
batch_of v ((k, batch) ∷ rest) = let others = batch_of v rest in if k == v then batch else others
