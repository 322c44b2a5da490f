-- ===== src/Engine/Ingest/Tests.antt =====
-- A batch of three events for two indexes, one of which is new, over stores in memory.
use mathlib.Core.List.{Perm}
use ekanite.Prelude.{
  ℕ, ◌≡◌, refl, ap, Bool, true, List, [], ◌∷◌, Option, none, some, Bytes, equal, equal_iff, arith,
  ==_iff,
}
use ekanite.System.{Result, ok, panic}
use ekanite.DocId.{pos, id, hex, uint64}
use ekanite.Index.{Shard, Index}
use ekanite.Index.Routing
use ekanite.Index.Routing.{Document, shard_batches, add_to, batch_of}
use ekanite.Index.Documents.{Bleve, index_documents, shard_index, shard_document}
use ekanite.Index.Documents.Sources.{IsReliable}
use ekanite.Index.Documents.Tests.{memory, memory-IsReliable}
use ekanite.Engine.{Engine}
use ekanite.Engine.Demux.{SubBatches}
use ekanite.Engine.Demux.Batches.{events_of, Fitting}
use ekanite.Engine.Demux.Tests
use ekanite.Engine.Demux.Tests.{same, same_path, same_shard, same_list, same_db, same_sound, others}
use ekanite.Engine.Ingest.{EventData, index_batch, index_batches, index_events}
use ekanite.Engine.Ingest.Batches.{GivesAll}
use ekanite.Engine.Ingest.Sources.{index_events-GivesAll}
use ekanite.Engine.Tests.{machine, insertion, insertion-Permutes, engine, slot, shard}

abbrev patient : Bleve (List Document)
patient = record memory { accepts = λ d. true }

patient-IsReliable : IsReliable patient
unfolding shard_document
patient-IsReliable = record { writes = memory-IsReliable.writes; gets = memory-IsReliable.gets }

-- An event is its time, which is its number too and the text of which it has.
abbrev data_of : EventData ℕ
data_of = record {
  reference_time = λ t. t;
  unix_nano = λ t. pos t;
  sequence = λ t. pos t;
  text = λ t. hex 4 (uint64 (pos t));
}

module _ {A : Type 0} (eq : A → A → Bool) (itself : (x : A) → eq x x ≡ true) where
  same_list_itself : (l : List A) → same_list eq l l ≡ true
  unfolding same_list
  same_list_itself [] = refl
  same_list_itself (x ∷ l) = ground (arith, itself x, same_list_itself l)

pub same_path_itself : (p : List Bytes) → same_path p p ≡ true
unfolding same_path
same_path_itself = same_list_itself equal (λ s. (equal_iff s s).1 refl)

same_db_itself : (o : Option (Unit {0})) → same_db o o ≡ true
unfolding same_db
same_db_itself none = refl
same_db_itself (some x) = refl

same_shard_itself : (s : Shard (Unit {0})) → same_shard s s ≡ true
unfolding same_shard
same_shard_itself s = ground (arith, same_path_itself s.path, same_db_itself s.b)

same_itself : (i : Index (Unit {0})) → same i i ≡ true
unfolding same
same_itself i = ground (
  arith,
  same_path_itself i.path,
  same_list_itself same_shard same_shard_itself i.shards,
  (==_iff i.start_time i.start_time).1 refl,
  (==_iff i.end_time i.end_time).1 refl,
)

abbrev sum32 : Bytes → ℕ
sum32 [] = 0
sum32 (c ∷ s) = c

-- The engine, with a shard in each index.
abbrev sharded : Engine (Unit {0})
sharded = record engine {
  indexes =
      record (slot 20 30) { shards = shard b'2' ∷ [] }
      ∷ record (slot 10 20) { shards = shard b'1' ∷ [] }
      ∷ [];
}

-- Others have emptied every store.
abbrev meanwhile : ℕ → (Index (Unit {0}) → ℕ → List Document) → Index (Unit {0}) → ℕ → List Document
meanwhile d stores i v = []

abbrev events : List ℕ
events = 12 ∷ 47 ∷ 15 ∷ []

program : Unit {0}
unfolding equal Tests.program index_events index_batches index_batch index_documents shard_batches
    Routing.shard add_to batch_of shard_index id hex uint64
program = tt

-- What the call leaves, where it returns.
abbrev left :
    Result (Engine (Unit {0}) × (Index (Unit {0}) → ℕ → List Document))
    → Engine (Unit {0}) × (Index (Unit {0}) → ℕ → List Document)
left (ok x) = x
left _ = (sharded, λ i v. [])

abbrev call : Result (Engine (Unit {0}) × (Index (Unit {0}) → ℕ → List Document))
call =
    (index_events machine insertion others data_of patient sum32 same meanwhile sharded (λ i v. [])
      events 0).0

index_events-GivesAll_example :
    (batches : SubBatches (Unit {0}) ℕ) × Fitting same data_of.reference_time batches
    × Perm (events_of batches) events
    × GivesAll data_of patient sum32 same patient-IsReliable
        (λ d. refl)
        same_sound
        same_itself
        ((left call).1)
        batches
unfolding program
index_events-GivesAll_example =
    index_events-GivesAll machine insertion others data_of patient sum32 same meanwhile sharded
      (λ i v. []) (left call).1 events 0 (left call).0 insertion-Permutes (λ e d h. h)
      patient-IsReliable (λ d. refl) same_sound same_itself (omega arith)
      (λ a b m n h. ap (hex 4) h) refl

-- Where the index of an event has no shards the call panics.
no_shards :
    (index_events machine insertion others data_of patient sum32 same meanwhile engine
      (λ i v. [])
      events
      0).0
    ≡ panic
unfolding program
no_shards = refl
