-- ===== src/Engine/Ingest/Sources.antt =====
-- The texts of the events that an engine has indexed.
use mathlib.Core.List.{Mem, Perm}
use mathlib.Core.List.Perm
use ekanite.Prelude.{
  ℕ, ◌<◌, ◌≡◌, refl, ap, ◌∙◌, Bool, true, List, [], Option, none, some, Bytes, arith,
}
use ekanite.System.{System, Result, ok, err, panic}
use ekanite.DocId.{uint64}
use ekanite.DocId.Chronology.{id-injective}
use ekanite.Index.{Index}
use ekanite.Index.Routing.{Document}
use ekanite.Index.Documents.{Bleve}
use ekanite.Index.Documents.Sources.{IsReliable}
use ekanite.Engine.{Engine, Sort}
use ekanite.Engine.Creation.{Permutes}
use ekanite.Engine.Demux.{SubBatches, sub_batches}
use ekanite.Engine.Demux.Batches.{events_of, Fitting, sub_batches-divide}
use ekanite.Engine.Ingest.{EventData, index_batches, index_events}
use ekanite.Engine.Ingest.Batches.{key, GivesAll, index_batches-GivesAll}

module _ (sys : System) (sort : Sort (sys.Db))
    (others : Engine (sys.Db) → sys.Disk → Engine (sys.Db) × sys.Disk) {E Store : Type 0}
    (data_of : EventData E) (bleve : Bleve Store) (sum32 : Bytes → ℕ)
    (same : Index (sys.Db) → Index (sys.Db) → Bool)
    (meanwhile : sys.Disk → (Index (sys.Db) → ℕ → Store) → Index (sys.Db) → ℕ → Store) where
  open sys use {Disk, Db}

  -- Where it returns, the loop has divided the events, and the batches have been written.
  batches_of :
      (e : Engine Db) (stores stores' : Index Db → ℕ → Store) (evs : List E) (d : Disk)
      (e' : Engine Db)
      → (index_events sys sort others data_of bleve sum32 same meanwhile e stores evs d).0
        ≡ ok (e', stores')
      → (batches : SubBatches Db E) × ((sub_batches sys sort others same data_of.reference_time e []
            evs d).0
          ≡ ok (batches, e'))
        × (index_batches data_of bleve sum32 same batches (
              meanwhile
                (sub_batches sys sort others same data_of.reference_time e [] evs d).1
                stores)
            ≡ some stores')
  unfolding index_events
  batches_of e stores stores' evs d e' h =
      go (sub_batches sys sort others same data_of.reference_time e [] evs d) refl h
    where
      go :
          (r : Result (SubBatches Db E × Engine Db) × Disk)
          → sub_batches sys sort others same data_of.reference_time e [] evs d ≡ r
          → (elim (r.0) as (λ _. Result (Engine Db × (Index Db → ℕ → Store)) × Disk) [
            | ok (batches, x) ↦
                let left = index_batches data_of bleve sum32 same batches (meanwhile r.1 stores) in
                (elim left [ none ↦ panic | some l ↦ ok (x, l) ], r.1)
            | err ↦ (err, r.1)
            | panic ↦ (panic, r.1)
          ]).0
            ≡ ok (e', stores')
          → (batches : SubBatches Db E) × ((sub_batches sys sort others same data_of.reference_time
                e [] evs d).0
              ≡ ok (batches, e'))
            × (index_batches data_of bleve sum32 same batches (
                  meanwhile
                    (sub_batches sys sort others same data_of.reference_time e [] evs d).1
                    stores)
                ≡ some stores')
      go (err, y) eq k = cc
      go (panic, y) eq k = cc
      go (ok (batches, x), y) eq k =
          wrote (index_batches data_of bleve sum32 same batches (meanwhile y stores)) refl k
        where
          wrote :
              (o : Option (Index Db → ℕ → Store))
              → index_batches data_of bleve sum32 same batches (meanwhile y stores) ≡ o
              → (elim o as (λ _. Result (Engine Db × (Index Db → ℕ → Store))) [
                | none ↦ panic
                | some l ↦ ok (x, l)
              ])
                ≡ ok (e', stores')
              → (bs : SubBatches Db E) × ((sub_batches sys sort others same data_of.reference_time e
                    [] evs d).0
                  ≡ ok (bs, e'))
                × (index_batches data_of bleve sum32 same bs (
                      meanwhile
                        (sub_batches sys sort others same data_of.reference_time e [] evs d).1
                        stores)
                    ≡ some stores')
          wrote none w h = cc
          wrote (some l) w h =
              let same_engine : x ≡ e' = ground (arith, h) in
              let same_stores : l ≡ stores' = ground (arith, h) in
              (
                batches,
                ap (λ r. r.0) eq ∙ ap (λ z. ok (batches, z)) same_engine,
                ap (λ r. index_batches data_of bleve sum32 same batches (meanwhile r.1 stores)) eq
                    ∙ w
                    ∙ ap some same_stores,
              )

  -- Where `Index` of an engine returns, and does not panic, whatever other goroutines do in between to
  -- the engine, if they leave it an index duration that is not 0, and to what is stored: each event
  -- of the call is in the batch of an index that contains its reference time, and that index gives
  -- the text of the event for its identifier behind the call, if events of the call with one sequence
  -- number have one text, and if bleve takes all documents and keeps the values.
  pub index_events-GivesAll :
      (e : Engine Db) (stores stores' : Index Db → ℕ → Store) (evs : List E) (d : Disk)
      (e' : Engine Db) (permutes : Permutes Db sort)
      (keeps : (x : Engine Db) (y : Disk)
        → 0 < x.index_duration
        → let (x', _) = others x y in 0 < x'.index_duration)
      (reliable : IsReliable bleve) (accepts : (x : Document) → bleve.accepts x ≡ true)
      (sound : (i j : Index Db) → same i j ≡ true → i ≡ j)
      (itself : (i : Index Db) → same i i ≡ true)
      → 0 < e.index_duration
      → ((a b : E)
          → Mem a evs
          → Mem b evs
          → uint64 (data_of.sequence a) ≡ uint64 (data_of.sequence b)
          → data_of.text a ≡ data_of.text b)
      → (index_events sys sort others data_of bleve sum32 same meanwhile e stores evs d).0
        ≡ ok (e', stores')
      → (batches : SubBatches Db E) × Fitting same data_of.reference_time batches
        × Perm (events_of batches) evs
        × GivesAll data_of bleve sum32 same reliable accepts sound itself stores' batches
  index_events-GivesAll e stores stores' evs d e' permutes keeps reliable accepts sound itself set
        one h =
      let (batches, divided, written) = batches_of e stores stores' evs d e' h in
      let (fits, perm) =
        sub_batches-divide sys sort others permutes keeps same data_of.reference_time e evs d sound
          set divided in
      let distinct =
        λ (a : E) (m : Mem a (events_of batches)) (b : E) (n : Mem b (events_of batches))
            (k : key data_of b ≡ key data_of a).
          one b a ((Perm.mem_iff perm).0 n) ((Perm.mem_iff perm).0 m)
            (id-injective (data_of.unix_nano b) (data_of.sequence b) (data_of.unix_nano a)
              (data_of.sequence a) k).1 in
      (
        batches,
        fits,
        perm,
        index_batches-GivesAll data_of bleve sum32 same reliable accepts sound itself batches
            (meanwhile (sub_batches sys sort others same data_of.reference_time e [] evs d).1
              stores)
            stores' written distinct,
      )
