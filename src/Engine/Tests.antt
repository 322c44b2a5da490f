-- ===== src/Engine/Tests.antt =====
-- An engine over a machine on which every operation succeeds, with a sort that runs.
use mathlib.Core.List.{Mem, Perm, Pairwise, mem-cons, not-mem-nil}
use mathlib.Core.List.Perm
use mathlib.Core.Logic.Or
use ekanite.Prelude.{
  ℕ, ◌≡◌, ◌≢◌, refl, ap, sym, subst, true, false, List, [], ◌∷◌, some, arith, inl, inr, Bool-cases,
}
use ekanite.System.{System, StatError, ok}
use ekanite.Index.{Shard, Index, less, contains, expired, new_index, delete_index, open_shard}
use ekanite.Engine.{
  Engine, Sort, truncate, index_for_reference_time, create_index_for_reference_time,
  enforce_retention,
}
use ekanite.Engine.Creation.{Permutes, HasCreated, create-HasCreated, Settles, create-Settles}
use ekanite.Engine.Slots.{IsSlot, IsSlot-prop, HasSlots, create-HasSlots, HasSlots-unique}
use ekanite.Engine.Retention.{Keeps, enforce_retention-Keeps}

-- The state is the clock, which stands still. Every path is there already.
abbrev pub machine : System
machine = record {
  Disk = ℕ;
  Db = Unit {0};
  stat = λ p d. StatError.nil;
  mkdir_all = λ p d. (false, d);
  create = λ p d. (false, d);
  write_string = λ p text d. (false, d);
  remove_all = λ p d. (false, d);
  now = λ d. (d, d);
  format_time = λ t. t ∷ [];
  build_index_mapping = λ d. (false, d);
  bleve_new = λ p d. (some tt, d);
  bleve_open = λ p d. (some tt, d);
  bleve_close = λ b d. (false, d);
}

unfoldable insert : Index (Unit {0}) → List (Index (Unit {0})) → List (Index (Unit {0}))
insert i [] = i ∷ []
insert i (j ∷ js) = elim (less j i) [ true ↦ j ∷ insert i js | false ↦ i ∷ j ∷ js ]

unfoldable pub insertion : Sort (Unit {0})
unfolding insert
insertion [] = []
insertion (i ∷ is) = insert i (insertion is)

insert-perm : (i : Index (Unit {0})) (js : List (Index (Unit {0}))) → Perm (insert i js) (i ∷ js)
unfolding insert
insert-perm i [] = Perm.rfl
insert-perm i (j ∷ js) = elim (Bool-cases (less j i)) [
  | inl h ↦ rw (h, insert) (Perm.trans (Perm.cons j (insert-perm i js)) (Perm.swap i j js))
  | inr h ↦ rw (h, insert) Perm.rfl
]

pub insertion-Permutes : Permutes (Unit {0}) insertion
unfolding insertion
insertion-Permutes [] = Perm.rfl
insertion-Permutes (i ∷ is) = Perm.trans (insert-perm i _) (Perm.cons i (insertion-Permutes is))

unfoldable pub sorted : Unit {0}
unfolding insertion insert less
sorted = tt

unfoldable pub program : Unit {0}
unfolding create_index_for_reference_time enforce_retention new_index delete_index
    index_for_reference_time truncate contains expired insertion less open_shard
program = tt

abbrev pub slot : ℕ → ℕ → Index (Unit {0})
slot start end = record {
  path = (start ∷ []) ∷ [];
  start_time = start;
  end_time = end;
  shards = [];
}

abbrev pub engine : Engine (Unit {0})
engine = record {
  path = [];
  num_shards = 2;
  index_duration = 10;
  retention_period = 15;
  indexes = slot 20 30 ∷ slot 10 20 ∷ [];
  deletions = 0;
}

abbrev pub shard : ℕ → Shard (Unit {0})
shard n = record { path = (40 ∷ []) ∷ (b'0' ∷ b'0' ∷ b'0' ∷ n ∷ []) ∷ []; b = some tt }

abbrev pub made : Index (Unit {0})
made = record (slot 40 50) { shards = shard b'0' ∷ shard b'1' ∷ [] }

abbrev pub grown : Engine (Unit {0})
grown = record engine { indexes = made ∷ engine.indexes }

creation : create_index_for_reference_time machine insertion engine 47 33 ≡ (ok (made, grown), 33)
unfolding program
creation = refl

create-HasCreated_example : HasCreated machine insertion engine 47 made grown
unfolding program
create-HasCreated_example =
    create-HasCreated machine insertion engine 47 33 insertion-Permutes (omega arith) refl
      (ap (λ r. r.0) creation)

engine-slots : (i : Index (Unit {0})) → Mem i engine.indexes → IsSlot 10 i
engine-slots i m =
    Or.elim (IsSlot-prop 10 i) (mem-cons.0 m) (λ e. subst (IsSlot 10) (sym e) (refl, refl))
      λ m'.
        Or.elim (IsSlot-prop 10 i) (mem-cons.0 m') (λ e. subst (IsSlot 10) (sym e) (refl, refl))
          λ m''. absurd (not-mem-nil m'')

apart : (j : Index (Unit {0})) → Mem j (slot 10 20 ∷ []) → 20 ≢ j.start_time
apart j m =
    Or.elim {C = 20 ≢ j.start_time} (hlevel) (mem-cons.0 m)
      (λ e. subst (λ (x : Index (Unit {0})). 20 ≢ x.start_time) (sym e) (omega arith))
      (λ m'. absurd (not-mem-nil m'))

engine-HasSlots : HasSlots engine
engine-HasSlots = record {
  slots = engine-slots;
  distinct = Pairwise.cons apart (Pairwise.cons (λ j m. absurd (not-mem-nil m)) Pairwise.nil);
}

create-HasSlots_example : HasSlots grown × (◌≡◌ {A = ℕ} 40 40)
unfolding program
create-HasSlots_example =
    create-HasSlots machine insertion engine 47 33 insertion-Permutes (omega arith) refl
      engine-HasSlots (ap (λ r. r.0) creation)

abbrev stopped : System
stopped = record machine { now = λ d. (37, d) }

abbrev pruned : Engine (Unit {0})
pruned = record engine { indexes = slot 20 30 ∷ []; deletions = 1 }

enforcement : (enforce_retention stopped engine 0).0 ≡ ok pruned
unfolding program
enforcement = refl

enforce_retention-Keeps_example :
    Keeps stopped 37 37 15 engine.indexes pruned.indexes
    × (pruned ≡ record engine { indexes = slot 20 30 ∷ []; deletions = 1 })
enforce_retention-Keeps_example =
    enforce_retention-Keeps stopped 37 37 engine 0 (λ d. (omega arith, omega arith)) enforcement

HasSlots-unique_example : ◌≡◌ {A = ℕ} 1 1
unfolding program
HasSlots-unique_example =
    HasSlots-unique machine insertion grown 27 1 1 (slot 20 30) (slot 20 30)
      create-HasSlots_example.0 refl refl refl refl

-- A machine on which no file can be made.
abbrev full : System
full = record machine { create = λ p d. (true, d) }

create-Settles_example :
    Settles full insertion engine 47 33
      (create_index_for_reference_time full insertion engine 47 33).0
unfolding program
create-Settles_example =
    create-Settles full insertion engine 47 33 insertion-Permutes (omega arith) refl

settled : Settles machine insertion engine 47 33 (ok (made, grown))
unfolding program
settled =
    subst (Settles machine insertion engine 47 33) (ap (λ r. r.0) creation)
      (create-Settles machine insertion engine 47 33 insertion-Permutes (omega arith) refl)
