-- ===== src/Index/Routing/Tests.antt =====
-- Three documents over two shards, with the length of an identifier as its hash.
use ekanite.Prelude.{ℕ, ◌≡◌, refl, List, [], ◌∷◌, none, some, Bytes, length}
use ekanite.Index.{Shard, Index}
use ekanite.Index.Routing.{Document, shard, shard_batches, batch_of}

abbrev shard_at : ℕ → Shard (Unit {0})
shard_at n = record { path = (n ∷ []) ∷ []; b = none }

abbrev index : Index (Unit {0})
index = record { path = []; start_time = 10; end_time = 20; shards = shard_at 0 ∷ shard_at 1 ∷ [] }

abbrev doc : Bytes → Document
doc id = record { id = id; source = [] }

abbrev documents : List Document
documents = doc (1 ∷ []) ∷ doc (1 ∷ 2 ∷ []) ∷ doc (3 ∷ []) ∷ []

routed :
    shard_batches length index [] documents
    ≡ some ((1, doc (1 ∷ []) ∷ doc (3 ∷ []) ∷ []) ∷ (0, doc (1 ∷ 2 ∷ []) ∷ []) ∷ [])
unfolding batch_of shard_batches shard
routed = refl

-- Without shards it divides by 0.
no_shards : shard_batches length (record index { shards = [] }) [] documents ≡ none
unfolding shard_batches shard
no_shards = refl
