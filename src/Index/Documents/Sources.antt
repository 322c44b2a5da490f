-- ===== src/Index/Documents/Sources.antt =====
-- index.go: the sources of the documents that an index has stored.
use ekanite.Prelude.{
  ℕ, ◌≡◌, refl, sym, ap, ◌∙◌, Bool, true, false, List, [], ◌∷◌, Option, none, some, Bytes, equal,
  equal_iff, ◌==◌, ==_iff, all_of, if◌then◌else◌, Bool-cases, inl, inr, arith, subst, length, ◌<◌,
  ◌%◌, ◌^◌,
}
use ekanite.Index.{Index}
use ekanite.Index.Routing.{Document, shard_number, shard_batches, batch_of}
use ekanite.Index.Routing.Batches.{
  documents_for, batches-route, divides_by_0, shard-some, shard-none,
}
use ekanite.System.{Result, ok, panic}
use mathlib.Core.Option.{some-injective}
use native.Mathlib.Nat.{mod-eq_of_lt}
use ekanite.Index.Documents.{
  Bleve, shard_index, shard_document, index_shards, index_documents, document,
}

abbrev pub later : Option Bytes → Option Bytes → Option Bytes
later none a = a
later (some b) a = some b

-- The source of the last document with the identifier.
unfoldable pub latest : Bytes → List Document → Option Bytes
latest id [] = none
latest id (d ∷ ds) = later (latest id ds) (if equal d.id id then some d.source else none)

-- What a batch leaves under an identifier where a value was.
abbrev pub written : Option Bytes → Result (Option Bytes) → Result (Option Bytes)
written none before = before
written (some source) before = ok (some source)

later-none : (o : Option Bytes) → o ≡ later o none
later-none none = refl
later-none (some b) = refl

not_latest :
    (id : Bytes) (d : Document) (ds : List Document)
    → equal d.id id ≡ false
    → latest id ds ≡ latest id (d ∷ ds)
unfolding latest
not_latest id d ds h =
    later-none (latest id ds)
    ∙ ap (λ b. later (latest id ds) (if b then some d.source else none)) (sym h)

module _ (number : Bytes → ℕ) where
  elsewhere :
      (id : Bytes) (d : Document) → (number d.id == number id) ≡ false → equal d.id id ≡ false
  elsewhere id d e = elim (Bool-cases (equal d.id id)) [
    | inl h ↦
        let same : (number d.id == number id) ≡ true =
          (==_iff (number d.id) (number id)).1 (ap number ((equal_iff d.id id).0 h)) in
        absurd (ground (arith, e, same))
    | inr h ↦ h
  ]

  -- The documents with an identifier are all in one shard.
  latest-documents_for :
      (id : Bytes) (ds : List Document)
      → latest id (documents_for (λ d. number d.id) (number id) ds) ≡ latest id ds
  unfolding latest documents_for
  latest-documents_for id [] = refl
  latest-documents_for id (d ∷ ds) =
      let rest = documents_for (λ x. number x.id) (number id) ds in
      let ih = latest-documents_for id ds in
      elim (Bool-cases (number d.id == number id)) [
        | inl e ↦
            ap (λ b. latest id (if b then d ∷ rest else rest)) e
            ∙ ap (λ o. later o (if equal d.id id then some d.source else none)) ih
        | inr e ↦
            ap (λ b. latest id (if b then d ∷ rest else rest)) e
            ∙ ih
            ∙ not_latest id d ds (elsewhere id d e)
      ]

  all_of-documents_for :
      (p : Document → Bool) (v : ℕ) (ds : List Document)
      → all_of p ds ≡ true
      → all_of p (documents_for (λ d. number d.id) v ds) ≡ true
  unfolding documents_for
  all_of-documents_for p v [] h = refl
  all_of-documents_for p v (d ∷ ds) h = ground (arith, h, all_of-documents_for p v ds)

module _ {Store : Type 0} (bleve : Bleve Store) where
  -- What bleve promises of a batch: it is written, and an internal value is the last one set.
  pub record IsReliable : Type 0 where
    pub writes : (s : Store) (ds : List Document) → (s' : Store) × (bleve.batch s ds ≡ some s')
    pub gets :
        (s : Store) (ds : List Document) (id : Bytes) {s' : Store}
        → bleve.batch s ds ≡ some s'
        → shard_document bleve s' id ≡ written (latest id ds) (shard_document bleve s id)

  shard_index-gets :
      (s : Store) (ds : List Document) (id : Bytes)
      → IsReliable
      → all_of bleve.accepts ds ≡ true
      → shard_document bleve (shard_index bleve s ds).0 id
        ≡ written (latest id ds) (shard_document bleve s id)
  unfolding shard_index
  shard_index-gets s ds id r a = let (s', e) = r.writes s ds in rw (a, e) (r.gets s ds id e)

  module _ (sum32 : Bytes → ℕ) {Db : Type 0} (i : Index Db) where
    found :
        (stores : ℕ → Store) (id : Bytes)
        → divides_by_0 sum32 i ≡ false
        → document bleve sum32 i stores id
          ≡ shard_document bleve (stores (shard_number sum32 i id)) id
    unfolding document
    found stores id h =
        ap
          (λ o. elim o as (λ _. Result (Option Bytes)) [
            | none ↦ panic
            | some s ↦ shard_document bleve (stores (shard_number sum32 i id)) id
          ])
          (shard-some sum32 i id h).1

    made :
        (stores : ℕ → Store) (ds : List Document) (batches : List (ℕ × List Document))
        → shard_batches sum32 i [] ds ≡ some batches
        → index_documents bleve sum32 i stores ds ≡ some (index_shards bleve sum32 i stores batches)
    unfolding index_documents
    made stores ds batches h =
        ap
          (λ o. elim o as (λ _. Option (ℕ → Store)) [
            | none ↦ none
            | some bs ↦ some (index_shards bleve sum32 i stores bs)
          ])
          h

    shards-gets :
        (stores : ℕ → Store) (ds : List Document) (id : Bytes) (batches : List (ℕ × List Document))
        → IsReliable
        → all_of bleve.accepts ds ≡ true
        → batch_of (shard_number sum32 i id) batches
          ≡ documents_for (λ d. shard_number sum32 i d.id) (shard_number sum32 i id) ds
        → let v = shard_number sum32 i id in
          shard_document bleve (index_shards bleve sum32 i stores batches v) id
          ≡ written (latest id ds) (shard_document bleve (stores v) id)
    unfolding latest
    shards-gets stores ds id batches r a h =
        let number = shard_number sum32 i in
        go (batch_of (number id) batches) (ap (latest id) h ∙ latest-documents_for number id ds)
          (ap (all_of bleve.accepts) h ∙ all_of-documents_for number bleve.accepts (number id) ds a)
      where
        go :
            (batch : List Document)
            → latest id batch ≡ latest id ds
            → all_of bleve.accepts batch ≡ true
            → let s = stores (shard_number sum32 i id) in
              shard_document bleve
                (elim batch [ [] ↦ s | d ∷ rest ↦ (shard_index bleve s (d ∷ rest)).0 ])
                id
              ≡ written (latest id ds) (shard_document bleve s id)
        go [] e b =
            ap (λ o. written o (shard_document bleve (stores (shard_number sum32 i id)) id)) e
        go (d ∷ rest) e b =
            shard_index-gets (stores (shard_number sum32 i id)) (d ∷ rest) id r b
            ∙ ap (λ o. written o (shard_document bleve (stores (shard_number sum32 i id)) id)) e

    -- What an index with shards gives, where it does not divide by 0.
    divided :
        (stores : ℕ → Store) (ds : List Document) (id : Bytes)
        → divides_by_0 sum32 i ≡ false
        → IsReliable
        → all_of bleve.accepts ds ≡ true
        → (stores' : ℕ → Store) × (index_documents bleve sum32 i stores ds ≡ some stores')
          × (document bleve sum32 i stores' id
              ≡ written (latest id ds) (document bleve sum32 i stores id))
    divided stores ds id h r a =
        let (batches, e, held) = batches-route sum32 i ds h in
        let stores' = index_shards bleve sum32 i stores batches in
        (
          stores',
          made stores ds batches e,
          found stores' id h
              ∙ shards-gets stores ds id batches r a (held (shard_number sum32 i id))
              ∙ ap (written (latest id ds)) (sym (found stores id h)),
        )

    -- The same of whatever it leaves, where it does not panic.
    pub document-left :
        (stores stores' : ℕ → Store) (ds : List Document) (id : Bytes)
        → IsReliable
        → all_of bleve.accepts ds ≡ true
        → index_documents bleve sum32 i stores ds ≡ some stores'
        → document bleve sum32 i stores' id
          ≡ written (latest id ds) (document bleve sum32 i stores id)
    unfolding index_documents shard_batches latest
    document-left stores stores' [] id r a h =
        ap (λ s. document bleve sum32 i s id) (sym (some-injective _ _ h))
    document-left stores stores' (d ∷ ds) id r a h = elim (Bool-cases (divides_by_0 sum32 i)) [
      | inl zero_shards ↦
          let absent = shard-none sum32 i d.id zero_shards in ground (arith, absent, h)
      | inr some_shards ↦
          let (s, e, gives) = divided stores (d ∷ ds) id some_shards r a in
          let same = some-injective _ _ (sym e ∙ h) in
          subst
            (λ x.
              document bleve sum32 i x id
              ≡ written (latest id (d ∷ ds)) (document bleve sum32 i stores id))
            same gives
    ]

    -- An index with at least one shard, and fewer than 2 ^ 32, indexes documents without a panic.
    -- Behind that it gives for an identifier the source of the last document with it that was indexed,
    -- and for any other identifier what it gave before, if bleve takes the documents and keeps the
    -- values.
    pub document-index_documents :
        (stores : ℕ → Store) (ds : List Document) (id : Bytes)
        → 0 < length i.shards
        → length i.shards < 2 ^ 32
        → IsReliable
        → all_of bleve.accepts ds ≡ true
        → (stores' : ℕ → Store) × (index_documents bleve sum32 i stores ds ≡ some stores')
          × (document bleve sum32 i stores' id
              ≡ written (latest id ds) (document bleve sum32 i stores id))
    document-index_documents stores ds id pos few r a =
        let n : length i.shards % 2 ^ 32 ≡ length i.shards = mod-eq_of_lt few in
        divided stores ds id (ground (arith, n, pos)) r a
