-- ===== src/Engine/Demux/Batches.antt =====
-- engine.go: the batches that `Index` of an `Engine` makes.
use mathlib.Core.List.{Perm, perm_middle}
use mathlib.Core.List.Perm
use ekanite.Prelude.{
  ℕ, ◌<◌, ◌≡◌, subst, Bool, true, List, [], ◌∷◌, ◌++◌, append_assoc, append-nil, Bool-cases, inl,
  inr, All, All-append,
}
use ekanite.System.{System, Result, ok, err, panic, and_then}
use ekanite.Index.{Index, contains}
use ekanite.Engine.{Engine, Sort}
use ekanite.Engine.Creation.{Permutes}
use ekanite.Engine.Demux.{SubBatches, add_event, index_of, sub_batches}
use ekanite.Engine.Demux.Indexes.{Indexed, index_of-Indexed}

-- All the events of the batches.
unfoldable pub events_of : {Db E : Type 0} → SubBatches Db E → List E
events_of [] = []
events_of ((i, evs) ∷ rest) = evs ++ events_of rest

module _ {Db E : Type 0} (same : Index Db → Index Db → Bool) (reference_time : E → ℕ) where
  -- Each event is in the batch of an index that contains its reference time.
  abbrev pub Fitting : SubBatches Db E → Type 0
  Fitting batches = All (λ b. All (λ ev. contains b.0 (reference_time ev) ≡ true) b.1) batches

  add_event-Fitting :
      (i : Index Db) (ev : E) (batches : SubBatches Db E)
      → ((j k : Index Db) → same j k ≡ true → j ≡ k)
      → contains i (reference_time ev) ≡ true
      → Fitting batches
      → Fitting (add_event same i ev batches)
  unfolding add_event
  add_event-Fitting i ev [] s c f = ((c, tt), tt)
  add_event-Fitting i ev ((j, evs) ∷ rest) s c (f, fs) = elim (Bool-cases (same i j)) [
    | inl e ↦
        rw (e, add_event)
          (
            All-append (λ x. contains j (reference_time x) ≡ true) evs (ev ∷ []) f
                (subst (λ k. contains k (reference_time ev) ≡ true) (s i j e) c, tt),
            fs,
          )
    | inr e ↦ rw (e, add_event) (f, add_event-Fitting i ev rest s c fs)
  ]

  add_event-Perm :
      (i : Index Db) (ev : E) (batches : SubBatches Db E)
      → Perm (events_of (add_event same i ev batches)) (ev ∷ events_of batches)
  unfolding add_event events_of
  add_event-Perm i ev [] = Perm.rfl
  add_event-Perm i ev ((j, evs) ∷ rest) = elim (Bool-cases (same i j)) [
    | inl e ↦
        rw (e, add_event, append_assoc evs (ev ∷ []) (events_of rest))
          (perm_middle {a = ev} evs (events_of rest))
    | inr e ↦
        rw (e, add_event)
          (Perm.trans (Perm.append_left evs (add_event-Perm i ev rest))
            (perm_middle {a = ev} evs (events_of rest)))
  ]

module _ (sys : System) (sort : Sort (sys.Db))
    (others : Engine (sys.Db) → sys.Disk → Engine (sys.Db) × sys.Disk)
    (permutes : Permutes (sys.Db) sort)
    (keeps : (e : Engine (sys.Db)) (d : sys.Disk)
      → 0 < e.index_duration
      → let (e', _) = others e d in 0 < e'.index_duration) where
  open sys use {Disk, Db}

  module _ {E : Type 0} (same : Index Db → Index Db → Bool) (reference_time : E → ℕ) where
    -- What the loop returns, from the batches in front of it.
    abbrev Divides : List E → Result (SubBatches Db E × Engine Db) × Disk → Type 0
    Divides evs (ok (batches, e), d) =
        Fitting same reference_time batches × Perm (events_of batches) evs
    Divides evs (err, d) = Unit
    Divides evs (panic, d) = Unit

    Divides-Perm :
        (a b : List E)
        → Perm a b
        → (x : Result (SubBatches Db E × Engine Db) × Disk) → Divides a x
        → Divides b x
    Divides-Perm a b q (ok (batches, e), d) (f, p) = (f, Perm.trans p q)
    Divides-Perm a b q (err, d) h = h
    Divides-Perm a b q (panic, d) h = h

    sub_batches-Divides :
        (e : Engine Db) (batches : SubBatches Db E) (evs seen : List E) (d : Disk)
        → ((j k : Index Db) → same j k ≡ true → j ≡ k)
        → 0 < e.index_duration
        → Fitting same reference_time batches
        → Perm (events_of batches) seen
        → Divides (evs ++ seen) (sub_batches sys sort others same reference_time e batches evs d)
    unfolding sub_batches
    sub_batches-Divides e batches [] seen d sound set f p = (f, p)
    sub_batches-Divides e batches (ev ∷ evs) seen d sound set f p =
        go (index_of sys sort others e (reference_time ev) d)
          (index_of-Indexed sys sort others permutes e (reference_time ev) d keeps set)
          (λ e' i x s c.
            sub_batches-Divides e' (add_event same i ev batches) evs (ev ∷ seen) x sound s
              (add_event-Fitting same reference_time i ev batches sound c f)
              (Perm.trans (add_event-Perm same reference_time i ev batches) (Perm.cons ev p)))
      where
        go :
            (x : Result (Index Db × Engine Db) × Disk)
            → Indexed sys sort others (reference_time ev) x
            → ((e' : Engine Db) (i : Index Db) (y : Disk)
                → 0 < e'.index_duration
                → contains i (reference_time ev) ≡ true
                → Divides (evs ++ ev ∷ seen) (
                    sub_batches sys sort others same reference_time e'
                      (add_event same i ev batches)
                      evs
                      y))
            → Divides (ev ∷ evs ++ seen) (
                and_then x.0
                  (λ (i, e').
                    sub_batches sys sort others same reference_time e'
                      (add_event same i ev batches)
                      evs)
                  x.1)
        go (ok (i, e'), y) (c, s) ih =
            Divides-Perm _ _ (perm_middle {a = ev} evs seen) _ (ih e' i y s c)
        go (err, y) h ih = h
        go (panic, y) h ih = h

    -- Where the loop returns batches, each event is in the batch of an index that contains its
    -- reference time, and the batches together have the events of the call, each as often as it was
    -- there, whatever other goroutines do to the engine in between, if they leave it an index
    -- duration that is not 0.
    pub sub_batches-divide :
        (e : Engine Db) (evs : List E) (d : Disk) {batches : SubBatches Db E} {e' : Engine Db}
        → ((j k : Index Db) → same j k ≡ true → j ≡ k)
        → 0 < e.index_duration
        → (sub_batches sys sort others same reference_time e [] evs d).0 ≡ ok (batches, e')
        → Fitting same reference_time batches × Perm (events_of batches) evs
    unfolding events_of
    sub_batches-divide e evs d sound set h =
        let r = sub_batches sys sort others same reference_time e [] evs d in
        subst (λ x. Divides evs (x, r.1)) h
          (Divides-Perm (evs ++ []) evs (subst (λ l. Perm (evs ++ []) l) (append-nil evs) Perm.rfl)
            _ (sub_batches-Divides e [] evs [] d sound set tt Perm.rfl))
