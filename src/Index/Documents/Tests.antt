-- ===== src/Index/Documents/Tests.antt =====
-- An index with two shards, over stores that are the lists of what was written.
use mathlib.Core.Option.{some-injective}
use ekanite.Prelude.{
  ℕ, arith, ◌≡◌, refl, sym, ap, ◌∙◌, List, [], ◌∷◌, ◌++◌, Option, none, some, Bytes, codes, equal,
  length, ◌==◌, not, if◌then◌else◌,
}
use ekanite.Index.{Index}
use ekanite.Index.Routing.{Document, shard, shard_batches, add_to, batch_of}
use ekanite.Index.Documents.{Bleve, index_documents, document, shard_index, shard_document, total}
use ekanite.System.{ok, panic}
use ekanite.Index.Documents.Sources.{later, latest, written, IsReliable, document-index_documents}

abbrev pub memory : Bleve (List Document)
memory = record {
  accepts = λ d. not (length d.id == 0);
  batch = λ s ds. some (s ++ ds);
  get_internal = λ s id. some (latest id s);
  doc_count = λ s. some (length s);
}

later-later : (a b c : Option Bytes) → later (later a b) c ≡ later a (later b c)
later-later none b c = refl
later-later (some x) b c = refl

latest-append :
    (id : Bytes) (s ds : List Document) → latest id (s ++ ds) ≡ later (latest id ds) (latest id s)
unfolding latest
latest-append id [] ds = go (latest id ds)
  where
    go : (o : Option Bytes) → o ≡ later o none
    go none = refl
    go (some b) = refl
latest-append id (d ∷ s) ds =
    ap (λ o. later o (if equal d.id id then some d.source else none)) (latest-append id s ds)
    ∙ later-later (latest id ds) (latest id s) (if equal d.id id then some d.source else none)

ok-later : (o p : Option Bytes) → ok (later o p) ≡ written o (ok p)
ok-later none p = refl
ok-later (some b) p = refl

pub memory-IsReliable : IsReliable memory
unfolding shard_document
memory-IsReliable = record {
  writes = λ s ds. (s ++ ds, refl);
  gets = λ s ds id e.
      ap (λ l. ok (latest id l)) (sym (some-injective _ _ e))
      ∙ ap ok (latest-append id s ds)
      ∙ ok-later (latest id ds) (latest id s);
}

abbrev index : Index (Unit {0})
index = record {
  path = [];
  start_time = 0;
  end_time = 10;
  shards = record { path = []; b = none } ∷ record { path = []; b = none } ∷ [];
}

abbrev doc : Bytes → Bytes → Document
doc id source = record { id = id; source = source }

abbrev docs : List Document
docs =
    doc (codes "a") (codes "one")
    ∷ doc (codes "bb") (codes "two")
    ∷ doc (codes "a") (codes "three")
    ∷ []

program : Unit {0}
unfolding document index_documents shard_index shard_document shard_batches shard add_to batch_of
    latest equal total
program = tt

document-index_documents_example :
    (stores' : ℕ → List Document) × (index_documents memory length index (λ v. []) docs
      ≡ some stores')
    × (document memory length index stores' (codes "a") ≡ ok (some (codes "three")))
unfolding program
document-index_documents_example =
    document-index_documents memory length index (λ v. []) docs (codes "a") (omega arith)
      (omega arith) memory-IsReliable refl

-- Without shards it panics, and so does the reading.
no_shards : index_documents memory length (record index { shards = [] }) (λ v. []) docs ≡ none
unfolding program
no_shards = refl

no_shard : document memory length (record index { shards = [] }) (λ v. []) (codes "a") ≡ panic
unfolding program
no_shard = refl

count : total memory 0 (docs ∷ [] ∷ docs ∷ []) ≡ some 6
unfolding program
count = refl
