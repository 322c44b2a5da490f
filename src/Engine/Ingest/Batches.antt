-- ===== src/Engine/Ingest/Batches.antt =====
-- The texts of the events of batches that are indexed one after the other.
use mathlib.Core.List.{
  Mem, mem-cons, mem-cons_self, mem-cons_of_mem, not-mem-nil, mem-append_left, mem-append_right,
}
use mathlib.Core.Logic.Or
use ekanite.Prelude.{
  ℕ, ◌≡◌, ◌≢◌, refl, sym, ap, subst, ◌∙◌, Bool, true, List, [], ◌∷◌, map, Option, none, some, Bytes,
  All, all_of, equal, equal_iff, if◌then◌else◌, Bool-cases, inl, inr, ◌⊎◌, arith,
}
use ekanite.Index.{Index}
use ekanite.Index.Routing.{Document}
use ekanite.Index.Documents.{Bleve, index_documents, document}
use ekanite.Index.Documents.Sources.{latest, written, IsReliable, document-left}
use ekanite.System.{Result, ok}
use mathlib.Core.Option.{some-injective}
use ekanite.Engine.Demux.{SubBatches}
use ekanite.Engine.Demux.Batches.{events_of}
use ekanite.Engine.Ingest.{EventData, document_of, index_batch, index_batches}

All-of_mem : {A : Type 0} (P : A → Type 0) (l : List A) → ((x : A) → Mem x l → P x) → All P l
All-of_mem P [] h = tt
All-of_mem P (x ∷ l) h = (h x mem-cons_self, All-of_mem P l (λ y m. h y (mem-cons_of_mem x m)))

module _ {E : Type 0} (data_of : EventData E) where
  abbrev pub key : E → Bytes
  key ev = (document_of data_of ev).id

  -- Events with one identifier have one text.
  abbrev OneText : Bytes → Bytes → List E → Type 0
  OneText k t evs = (ev : E) → Mem ev evs → key ev ≡ k → data_of.text ev ≡ t

  -- The latest text is the one.
  latest-OneText :
      (k t : Bytes) (evs : List E)
      → OneText k t evs
      → (latest k (map (document_of data_of) evs) ≡ none)
        ⊎ (latest k (map (document_of data_of) evs) ≡ some t)
  unfolding latest
  latest-OneText k t [] one = inl refl
  latest-OneText k t (ev ∷ evs) one =
      let rest = latest-OneText k t evs (λ x m. one x (mem-cons_of_mem ev m)) in
      elim (Bool-cases (equal (key ev) k)) [
        | inl e ↦
            let text = one ev mem-cons_self ((equal_iff (key ev) k).0 e) in
            inr (ground (arith, e, rest, text))
        | inr e ↦ ground (arith, e, rest)
      ]

  latest-mem :
      (evs : List E) (ev : E) → Mem ev evs → latest (key ev) (map (document_of data_of) evs) ≢ none
  unfolding latest
  latest-mem [] ev m = absurd (not-mem-nil m)
  latest-mem (x ∷ evs) ev m =
      Or.elim {C = latest (key ev) (map (document_of data_of) (x ∷ evs)) ≢ none} (hlevel)
        (mem-cons.0 m)
        (λ e.
          let same : equal (key x) (key ev) ≡ true =
            (equal_iff (key x) (key ev)).1 (ap key (sym e)) in
          ground (arith, same))
        (λ m'. ground (arith, latest-mem evs ev m'))

  latest-text :
      (evs : List E) (ev : E)
      → Mem ev evs
      → OneText (key ev) (data_of.text ev) evs
      → latest (key ev) (map (document_of data_of) evs) ≡ some (data_of.text ev)
  latest-text evs ev m one = elim (latest-OneText (key ev) (data_of.text ev) evs one) [
    | inl absent ↦ absurd (latest-mem evs ev m absent)
    | inr found ↦ found
  ]

  module _ {Db Store : Type 0} (bleve : Bleve Store) (sum32 : Bytes → ℕ)
      (same : Index Db → Index Db → Bool) (reliable : IsReliable bleve)
      (accepts : (d : Document) → bleve.accepts d ≡ true)
      (sound : (i j : Index Db) → same i j ≡ true → i ≡ j)
      (itself : (i : Index Db) → same i i ≡ true) where
    -- The index gives the text for the identifier.
    abbrev pub Gives : Index Db → (Index Db → ℕ → Store) → Bytes → Bytes → Type 0
    Gives i stores k t = document bleve sum32 i (stores i) k ≡ ok (some t)

    accepts-all : (ds : List Document) → all_of bleve.accepts ds ≡ true
    accepts-all [] = refl
    accepts-all (d ∷ ds) = ground (arith, accepts d, accepts-all ds)

    indexed-Gives :
        (i : Index Db) (evs : List E) (stores : Index Db → ℕ → Store) (k t : Bytes)
        {left : ℕ → Store}
        → index_documents bleve sum32 i (stores i) (map (document_of data_of) evs) ≡ some left
        → (latest k (map (document_of data_of) evs) ≡ some t)
          ⊎ ((latest k (map (document_of data_of) evs) ≡ none) × Gives i stores k t)
        → document bleve sum32 i left k ≡ ok (some t)
    indexed-Gives i evs stores k t {left} made h =
        let ds = map (document_of data_of) evs in
        document-left bleve sum32 i (stores i) left ds k reliable (accepts-all ds) made
        ∙ go (latest k ds) (document bleve sum32 i (stores i) k) h
      where
        go :
            (o : Option Bytes) (before : Result (Option Bytes))
            → (o ≡ some t) ⊎ ((o ≡ none) × (before ≡ ok (some t)))
            → written o before ≡ ok (some t)
        go o before (inl e) = ap (λ x. written x before) e
        go o before (inr (e, b)) = ap (λ x. written x before) e ∙ b

    -- What is left of the stores of an index, from those of the index of a batch.
    abbrev after : Index Db → (ℕ → Store) → (Index Db → ℕ → Store) → Index Db → ℕ → Store
    after i left stores j = if same i j then left else stores j

    left_of :
        (i : Index Db) (evs : List E) (stores stores' : Index Db → ℕ → Store)
        → index_batch data_of bleve sum32 same i evs stores ≡ some stores'
        → (left : ℕ → Store) × (index_documents bleve sum32 i
              (stores i)
              (map (document_of data_of) evs)
            ≡ some left)
          × (after i left stores ≡ stores')
    unfolding index_batch
    left_of i evs stores stores' h =
        go (index_documents bleve sum32 i (stores i) (map (document_of data_of) evs)) refl h
      where
        go :
            (o : Option (ℕ → Store))
            → index_documents bleve sum32 i (stores i) (map (document_of data_of) evs) ≡ o
            → (elim o as (λ _. Option (Index Db → ℕ → Store)) [
              | none ↦ none
              | some left ↦ some (after i left stores)
            ])
              ≡ some stores'
            → (left : ℕ → Store) × (index_documents bleve sum32 i
                  (stores i)
                  (map (document_of data_of) evs)
                ≡ some left)
              × (after i left stores ≡ stores')
        go none e k = cc
        go (some left) e k = (left, e, some-injective _ _ k)

    index_batch-keeps :
        (i : Index Db) (evs : List E) (stores stores' : Index Db → ℕ → Store) (j : Index Db)
        (k t : Bytes)
        → index_batch data_of bleve sum32 same i evs stores ≡ some stores'
        → OneText k t evs
        → Gives j stores k t
        → Gives j stores' k t
    index_batch-keeps i evs stores stores' j k t made one g =
        let (left, e, is) = left_of i evs stores stores' made in
        subst (λ x. Gives j x k t) is
          (elim (Bool-cases (same i j)) [
            | inl s ↦
                let here : Gives i stores k t =
                  subst (λ x. Gives x stores k t) (sym (sound i j s)) g in
                let new = indexed-Gives i evs stores k t e (elim (latest-OneText k t evs one) [
                  | inl absent ↦ inr (absent, here)
                  | inr found ↦ inl found
                ]) in
                ap (λ b. document bleve sum32 j (if b then left else stores j) k) s
                ∙ subst (λ x. document bleve sum32 x left k ≡ ok (some t)) (sound i j s) new
            | inr s ↦ ap (λ b. document bleve sum32 j (if b then left else stores j) k) s ∙ g
          ])

    index_batch-adds :
        (i : Index Db) (evs : List E) (stores stores' : Index Db → ℕ → Store) (ev : E)
        → index_batch data_of bleve sum32 same i evs stores ≡ some stores'
        → Mem ev evs
        → OneText (key ev) (data_of.text ev) evs
        → Gives i stores' (key ev) (data_of.text ev)
    index_batch-adds i evs stores stores' ev made m one =
        let (left, e, is) = left_of i evs stores stores' made in
        subst (λ x. Gives i x (key ev) (data_of.text ev)) is
          (ap (λ b. document bleve sum32 i (if b then left else stores i) (key ev)) (itself i)
            ∙ indexed-Gives i evs stores (key ev) (data_of.text ev) e
                (inl (latest-text evs ev m one)))

    -- The first batch, and those behind it.
    next :
        (i : Index Db) (evs : List E) (rest : SubBatches Db E)
        (stores stores' : Index Db → ℕ → Store)
        → index_batches data_of bleve sum32 same ((i, evs) ∷ rest) stores ≡ some stores'
        → (left : Index Db → ℕ → Store) × (index_batch data_of bleve sum32 same i evs stores
            ≡ some left)
          × (index_batches data_of bleve sum32 same rest left ≡ some stores')
    unfolding index_batches
    next i evs rest stores stores' h = go (index_batch data_of bleve sum32 same i evs stores) refl h
      where
        go :
            (o : Option (Index Db → ℕ → Store))
            → index_batch data_of bleve sum32 same i evs stores ≡ o
            → (elim o as (λ _. Option (Index Db → ℕ → Store)) [
              | none ↦ none
              | some left ↦ index_batches data_of bleve sum32 same rest left
            ])
              ≡ some stores'
            → (left : Index Db → ℕ → Store) × (index_batch data_of bleve sum32 same i evs stores
                ≡ some left)
              × (index_batches data_of bleve sum32 same rest left ≡ some stores')
        go none e k = cc
        go (some left) e k = (left, e, k)

    index_batches-keeps :
        (batches : SubBatches Db E) (stores stores' : Index Db → ℕ → Store) (j : Index Db)
        (k t : Bytes)
        → index_batches data_of bleve sum32 same batches stores ≡ some stores'
        → OneText k t (events_of batches)
        → Gives j stores k t
        → Gives j stores' k t
    unfolding index_batches events_of
    index_batches-keeps [] stores stores' j k t made one g =
        subst (λ x. Gives j x k t) (some-injective _ _ made) g
    index_batches-keeps ((i, evs) ∷ rest) stores stores' j k t made one g =
        let (left, first, later) = next i evs rest stores stores' made in
        index_batches-keeps rest left stores' j k t later (λ ev m. one ev (mem-append_right evs m))
          (index_batch-keeps i evs stores left j k t first
            (λ ev m. one ev (mem-append_left (events_of rest) m)) g)

    -- Every event of the batches can be had back.
    abbrev pub GivesAll : (Index Db → ℕ → Store) → SubBatches Db E → Type 0
    GivesAll stores batches =
        All (λ b. All (λ ev. Gives b.0 stores (key ev) (data_of.text ev)) b.1) batches

    abbrev AreDistinct : List E → Type 0
    AreDistinct evs = (ev : E) → Mem ev evs → OneText (key ev) (data_of.text ev) evs

    pub index_batches-GivesAll :
        (batches : SubBatches Db E) (stores stores' : Index Db → ℕ → Store)
        → index_batches data_of bleve sum32 same batches stores ≡ some stores'
        → AreDistinct (events_of batches)
        → GivesAll stores' batches
    unfolding index_batches events_of
    index_batches-GivesAll [] stores stores' made one = tt
    index_batches-GivesAll ((i, evs) ∷ rest) stores stores' made one =
        let (left, first, later) = next i evs rest stores stores' made in
        let l = λ (ev : E) (m : Mem ev evs). mem-append_left (events_of rest) m in
        let r = λ (ev : E) (m : Mem ev (events_of rest)). mem-append_right evs m in
        (
          All-of_mem _ evs (λ ev m.
              index_batches-keeps rest left stores' i (key ev) (data_of.text ev) later
                (λ x n. one ev (l ev m) x (r x n))
                (index_batch-adds i evs stores left ev first m (λ x n. one ev (l ev m) x (l x n)))),
          index_batches-GivesAll rest left stores' later (λ ev m x n. one ev (r ev m) x (r x n)),
        )
