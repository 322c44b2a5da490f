-- ===== src/Engine/Slots.antt =====
-- Indexes that each cover one whole slot of the index duration.
use mathlib.Core.List.{
  Mem, Pairwise, mem-cons, mem-cons_self, mem-cons_of_mem, rel_of_Pairwise-cons,
}
use mathlib.Core.Option.{some-injective}
use mathlib.Core.List.Pairwise
use mathlib.Core.List.Perm
use mathlib.Core.Logic.Or
use native.Mathlib.Nat.{div-add-mod, mod-add-mod, mod-eq_of_lt, mul-mod_right}
use native.Mathlib.Decide.{dec_le}
use ekanite.Prelude.{
  ℕ, ◌+◌, ◌-◌, ◌*◌, ◌/◌, ◌%◌, ◌≤◌, ◌<◌, ◌≡◌, ◌≢◌, refl, sym, ap, ◌∙◌, true, none, some, inl, inr,
  arith, subst, List, [], ◌∷◌, get_elem?, zero, suc,
}
use ekanite.System.{System, ok}
use ekanite.Index.{Index, contains}
use ekanite.Engine.{
  Engine, Sort, truncate, index_for_reference_time, create_index_for_reference_time,
}
use ekanite.Engine.Lookup.{index_for-eq-none, contains_bounds, contains_of_bounds, truncate_bounds}
use ekanite.Engine.Creation.{Permutes, create-HasCreated}

module _ {Db : Type 0} where
  -- The range of the index is a slot of duration `d`.
  abbrev pub IsSlot : ℕ → Index Db → Type 0
  IsSlot d i = (i.start_time % d ≡ 0) × (i.end_time ≡ i.start_time + d)

  pub IsSlot-prop : (d : ℕ) (i : Index Db) → IsProp (IsSlot d i)
  IsSlot-prop d i = hlevel

  -- Every index covers a slot, and no two cover the same.
  pub record HasSlots (e : Engine Db) : Type 0 where
    pub slots : (i : Index Db) → Mem i e.indexes → IsSlot e.index_duration i
    pub distinct : Pairwise (λ i j. i.start_time ≢ j.start_time) e.indexes

truncate-mod : (t d : ℕ) → 0 < d → truncate t d % d ≡ 0
unfolding truncate
truncate-mod t d h =
    let e : t - t % d ≡ d * (t / d) = omega (arith, div-add-mod t d) in
    grind (arith, mul-mod_right d (t / d))

near_multiples : (s u d : ℕ) → s % d ≡ 0 → u % d ≡ 0 → s ≤ u → u < s + d → s ≡ u
near_multiples s u d hs hu le lt =
    let e : s + (u - s) ≡ u = omega arith in
    let sum : (0 + (u - s)) % d ≡ (s + (u - s)) % d =
      subst (λ z. (z + (u - s)) % d ≡ (s + (u - s)) % d) hs (mod-add-mod s d (u - s)) in
    let f : (0 + (u - s)) % d ≡ 0 = sum ∙ rw (e, hu) in
    let g : (0 + (u - s)) % d ≡ 0 + (u - s) = mod-eq_of_lt (omega arith) in omega (arith, f, g)

slots_disjoint :
    (s u d t : ℕ) → s % d ≡ 0 → u % d ≡ 0 → s ≤ t → t < s + d → u ≤ t → t < u + d → s ≡ u
slots_disjoint s u d t hs hu a b c e = elim (dec_le s u) [
  | yes le ↦ near_multiples s u d hs hu le (omega arith)
  | no gt ↦ sym (near_multiples u s d hu hs (omega arith) (omega arith))
]

get_elem?-Mem : {A : Type 0} (xs : List A) (n : ℕ) (x : A) → get_elem? xs n ≡ some x → Mem x xs
get_elem?-Mem [] n x h = cc
get_elem?-Mem (y ∷ xs) zero x h = subst (λ z. Mem z (y ∷ xs)) (some-injective _ _ h) mem-cons_self
get_elem?-Mem (y ∷ xs) (suc n) x h = mem-cons_of_mem y (get_elem?-Mem xs n x h)

-- Where no two start times are the same, a start time has one position.
one_position :
    {Db : Type 0} (is : List (Index Db))
    → Pairwise (λ i j. i.start_time ≢ j.start_time) is
    → (m n : ℕ) (i j : Index Db) → get_elem? is m ≡ some i
    → get_elem? is n ≡ some j
    → i.start_time ≡ j.start_time
    → m ≡ n
one_position [] p m n i j a b e = cc
one_position (x ∷ is) p zero zero i j a b e = refl
one_position (x ∷ is) p zero (suc n) i j a b e =
    let same = some-injective _ _ a in
    absurd (
      rel_of_Pairwise-cons p (get_elem?-Mem is n j b) (ap (λ (y : Index _). y.start_time) same ∙ e))
one_position (x ∷ is) p (suc m) zero i j a b e =
    let same = some-injective _ _ b in
    absurd (
      rel_of_Pairwise-cons p (get_elem?-Mem is m i a)
        (ap (λ (y : Index _). y.start_time) same ∙ sym e))
one_position (x ∷ is) p (suc m) (suc n) i j a b e =
    ap suc (one_position is (Pairwise.of_cons p) m n i j a b e)

module _ (sys : System) (sort : Sort (sys.Db)) where
  open sys use {Disk, Db}

  -- In an engine whose indexes are slots no index starts at the slot of a time that none contains.
  slot_free :
      (e : Engine Db) (rt : ℕ)
      → HasSlots e
      → 0 < e.index_duration
      → index_for_reference_time e.indexes rt ≡ none
      → (j : Index Db) → Mem j e.indexes
      → j.start_time ≢ truncate rt e.index_duration
  slot_free e rt s pos absent j m same =
      let (_, ends) = s.slots j m in
      let (low, high) = truncate_bounds rt e.index_duration pos in
      let here = contains_of_bounds j rt (omega arith) (omega arith) in
      cc (index_for-eq-none e.indexes rt absent j m)

  -- While every index covers one whole slot of the index duration, and no two the same, a creation
  -- for a time that no index contains keeps that so, and the new index covers the slot of the time.
  pub create-HasSlots :
      (e : Engine Db) (rt : ℕ) (d : Disk) {i : Index Db} {e' : Engine Db}
      → Permutes Db sort
      → 0 < e.index_duration
      → index_for_reference_time e.indexes rt ≡ none
      → HasSlots e
      → (create_index_for_reference_time sys sort e rt d).0 ≡ ok (i, e')
      → HasSlots e' × (i.start_time ≡ truncate rt e.index_duration)
  create-HasSlots e rt d {i} {e'} perm pos absent s h =
      let c = create-HasCreated sys sort e rt d perm pos absent h in
      let free = slot_free e rt s pos absent in
      let starts : i.start_time ≡ truncate rt e.index_duration = (elim (c.start_is) [
        | inl same ↦ same
        | inr (j, m, taken, _) ↦ absurd (free j m taken)
      ]) in
      let same_duration : e'.index_duration ≡ e.index_duration =
        ap (λ (x : Engine Db). x.index_duration) c.rest in
      let new_slot : IsSlot e.index_duration i =
        (rw starts (truncate-mod rt e.index_duration pos), c.end_is ∙ rw starts) in
      (
        record {
          slots = λ j m. rw same_duration (
              Or.elim (IsSlot-prop e.index_duration j) (mem-cons.0 ((Perm.mem_iff c.kept).0 m))
                (λ x. subst (IsSlot e.index_duration) (sym x) new_slot) (s.slots j));
          distinct =
              Perm.pairwise (λ x y. hlevel) (λ x y ne eq. ne (sym eq)) (Perm.symm c.kept)
                (Pairwise.cons (λ j m eq. free j m (sym eq ∙ starts)) s.distinct);
        },
        starts,
      )

  -- While every index covers one whole slot of the index duration, and no two the same, two positions
  -- of the engine's list at which an index contains the same time are one position.
  pub HasSlots-unique :
      (e : Engine Db) (t m n : ℕ) (i j : Index Db)
      → HasSlots e
      → get_elem? e.indexes m ≡ some i
      → get_elem? e.indexes n ≡ some j
      → contains i t ≡ true
      → contains j t ≡ true
      → m ≡ n
  HasSlots-unique e t m n i j s mi mj ci cj =
      let (hi, ei) = s.slots i (get_elem?-Mem e.indexes m i mi) in
      let (hj, ej) = s.slots j (get_elem?-Mem e.indexes n j mj) in
      let (li, ui) = contains_bounds i t ci in
      let (lj, uj) = contains_bounds j t cj in
      one_position e.indexes s.distinct m n i j mi mj (
        slots_disjoint i.start_time j.start_time e.index_duration t hi hj li (omega arith) lj
          (omega arith))
