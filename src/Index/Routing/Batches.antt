-- ===== src/Index/Routing/Batches.antt =====
-- index.go: the batches that the loop of `Index.Index` makes, and the shard of an identifier.
use native.Mathlib.Nat.{mod-lt}
use ekanite.Prelude.{
  ℕ, zero, suc, ◌%◌, ◌^◌, ◌<◌, ◌≡◌, refl, sym, ap, ◌∙◌, List, [], ◌∷◌, ◌++◌, append_assoc,
  append-nil, Option, none, some, Bool, true, false, ◌≤◌, Bytes, ◌==◌, if◌then◌else◌, length,
  get_elem?, arith,
}
use ekanite.Index.{Shard, Index}
use ekanite.Index.Routing.{Document, shard_number, shard, add_to, shard_batches, batch_of}

-- The documents for the shard at a position, in their order.
unfoldable pub documents_for : (number : Document → ℕ) → ℕ → List Document → List Document
documents_for number v [] = []
documents_for number v (d ∷ ds) =
    let rest = documents_for number v ds in if number d == v then d ∷ rest else rest

batch_of-add_to :
    (v w : ℕ) (d : Document) (bs : List (ℕ × List Document))
    → batch_of v (add_to w d bs) ≡ batch_of v bs ++ (if w == v then d ∷ [] else [])
unfolding batch_of add_to
batch_of-add_to v w d [] = ground arith
batch_of-add_to v w d ((k, batch) ∷ rest) =
    let n = append-nil batch in
    let n' = append-nil (batch_of v rest) in ground (arith, batch_of-add_to v w d rest)

get_elem?-lt :
    {A : Type 0} (xs : List A) (n : ℕ) → n < length xs → (x : A) × (get_elem? xs n ≡ some x)
get_elem?-lt [] n h = absurd (omega (arith, h))
get_elem?-lt (x ∷ xs) zero h = (x, refl)
get_elem?-lt (x ∷ xs) (suc n) h = get_elem?-lt xs n (omega (arith, h))

module _ (sum32 : Bytes → ℕ) {Db : Type 0} (i : Index Db) where
  -- `Shard` divides by the number of shards, in 32 bits.
  abbrev pub divides_by_0 : Bool
  divides_by_0 = length i.shards % 2 ^ 32 == 0

  -- Where it does not divide by 0, it finds the shard at the position that is computed.
  pub shard-some :
      (id : Bytes) → divides_by_0 ≡ false → (s : Shard Db) × (shard sum32 i id ≡ some s)
  unfolding shard
  shard-some id h =
      let m = length i.shards % 2 ^ 32 in
      let pos : 0 < m = ground (arith, h) in
      let lt = mod-lt (sum32 id) pos in
      let le : m ≤ length i.shards = omega arith in
      let (s, e) = get_elem?-lt i.shards (shard_number sum32 i id) (omega (arith, lt, le)) in
      (s, ap (λ b. if b then none else get_elem? i.shards (shard_number sum32 i id)) h ∙ e)

  pub shard-none : (id : Bytes) → divides_by_0 ≡ true → shard sum32 i id ≡ none
  unfolding shard
  shard-none id h = ap (λ b. if b then none else get_elem? i.shards (shard_number sum32 i id)) h

  routed-append :
      (v : ℕ) (bs : List (ℕ × List Document)) (d : Document) (ds : List Document)
      → batch_of v (add_to (shard_number sum32 i d.id) d bs)
          ++ documents_for (λ x. shard_number sum32 i x.id) v ds
        ≡ batch_of v bs ++ documents_for (λ x. shard_number sum32 i x.id) v (d ∷ ds)
  unfolding documents_for
  routed-append v bs d ds =
      let w = shard_number sum32 i d.id in
      ap (◌++ documents_for (λ x. shard_number sum32 i x.id) v ds) (batch_of-add_to v w d bs)
      ∙ append_assoc (batch_of v bs) _ _
      ∙ ap (λ l. batch_of v bs ++ l) (ground arith)

  -- The batches that are made hold, for the shard at each position, what they held and its documents.
  abbrev Routed :
      List (ℕ × List Document) → List Document → Option (List (ℕ × List Document)) → Type 0
  Routed bs ds o =
      (out : List (ℕ × List Document)) × (o ≡ some out)
      × ((v : ℕ)
          → batch_of v out ≡ batch_of v bs ++ documents_for (λ d. shard_number sum32 i d.id) v ds)

  batches-Routed :
      (bs : List (ℕ × List Document)) (ds : List Document)
      → divides_by_0 ≡ false
      → Routed bs ds (shard_batches sum32 i bs ds)
  unfolding shard_batches documents_for
  batches-Routed bs [] h = (bs, refl, λ v. sym (append-nil (batch_of v bs)))
  batches-Routed bs (d ∷ ds) h =
      let (s, found) = shard-some d.id h in
      let (out, made, held) = batches-Routed (add_to (shard_number sum32 i d.id) d bs) ds h in
      (
        out,
        ap
              (λ o. elim o as (λ _. Option (List (ℕ × List Document))) [
                | none ↦ none
                | some _ ↦ shard_batches sum32 i (add_to (shard_number sum32 i d.id) d bs) ds
              ])
              found
            ∙ made,
        λ v. held v ∙ routed-append v bs d ds,
      )

  -- `Index` gives the shard at each position the documents whose identifiers `Shard` sends there, in
  -- their order, all of them and no others, if it does not divide by 0.
  pub batches-route :
      (ds : List Document)
      → divides_by_0 ≡ false
      → (out : List (ℕ × List Document)) × (shard_batches sum32 i [] ds ≡ some out)
        × ((v : ℕ) → batch_of v out ≡ documents_for (λ d. shard_number sum32 i d.id) v ds)
  unfolding batch_of
  batches-route ds h = batches-Routed [] ds h
