-- ===== src/Engine/Demux/Tests.antt =====
-- A batch of three events, for two indexes, one of which is new.
use ekanite.Prelude.{
  ℕ, ◌+◌, ◌≡◌, refl, ap₂, ◌∙◌, Bool, true, false, List, [], ◌∷◌, Option, none, some, ◌==◌, ==_iff,
  equal, equal_iff, ◌&&◌, arith,
}
use ekanite.System.{FilePath, ok}
use ekanite.Index.{Shard, Index}
use ekanite.Engine.{Engine}
use ekanite.Engine.Tests
use ekanite.Engine.Tests.{machine, insertion, engine, slot, made, grown}
use ekanite.Engine.Demux.{sub_batches, index_of}

module _ {A : Type 0} (eq : A → A → Bool) where
  unfoldable pub same_list : List A → List A → Bool
  same_list [] [] = true
  same_list (x ∷ xs) (y ∷ ys) = eq x y && same_list xs ys
  same_list xs ys = false

  same_list_sound :
      ((x y : A) → eq x y ≡ true → x ≡ y) → (xs ys : List A) → same_list xs ys ≡ true → xs ≡ ys
  unfolding same_list
  same_list_sound s [] [] h = refl
  same_list_sound s [] (y ∷ ys) h = absurd (ground (arith, h))
  same_list_sound s (x ∷ xs) [] h = absurd (ground (arith, h))
  same_list_sound s (x ∷ xs) (y ∷ ys) h =
      ap₂ (◌∷◌) (s x y (ground (arith, h))) (same_list_sound s xs ys (ground (arith, h)))

unfoldable pub same_path : FilePath → FilePath → Bool
same_path = same_list equal

pub same_path_sound : (p q : FilePath) → same_path p q ≡ true → p ≡ q
unfolding same_path
same_path_sound = same_list_sound equal (λ s t h. (equal_iff s t).0 h)

unfoldable pub same_db : Option (Unit {0}) → Option (Unit {0}) → Bool
same_db none none = true
same_db (some x) (some y) = true
same_db a b = false

same_db_sound : (a b : Option (Unit {0})) → same_db a b ≡ true → a ≡ b
unfolding same_db
same_db_sound none none h = refl
same_db_sound (some x) (some y) h = refl
same_db_sound none (some y) h = absurd (ground (arith, h))
same_db_sound (some x) none h = absurd (ground (arith, h))

unfoldable pub same_shard : Shard (Unit {0}) → Shard (Unit {0}) → Bool
same_shard a b = same_path a.path b.path && same_db a.b b.b

same_shard_sound : (a b : Shard (Unit {0})) → same_shard a b ≡ true → a ≡ b
unfolding same_shard
same_shard_sound a b h =
    ap₂ (λ p d. record { path = p; b = d }) (same_path_sound a.path b.path (ground (arith, h)))
      (same_db_sound a.b b.b (ground (arith, h)))

unfoldable pub same : Index (Unit {0}) → Index (Unit {0}) → Bool
same i j =
    (same_path i.path j.path && same_list same_shard i.shards j.shards)
    && (i.start_time == j.start_time && i.end_time == j.end_time)

pub same_sound : (i j : Index (Unit {0})) → same i j ≡ true → i ≡ j
unfolding same
same_sound i j h =
    let p = same_path_sound i.path j.path (ground (arith, h)) in
    let s = same_list_sound same_shard same_shard_sound i.shards j.shards (ground (arith, h)) in
    let a = (==_iff i.start_time j.start_time).0 (ground (arith, h)) in
    let b = (==_iff i.end_time j.end_time).0 (ground (arith, h)) in
    ap₂ (λ p s. record { path = p; start_time = i.start_time; end_time = i.end_time; shards = s }) p
      s
    ∙ ap₂ (λ x y. record { path = j.path; start_time = x; end_time = y; shards = j.shards }) a b

unfoldable pub program : Unit {0}
unfolding equal sub_batches index_of same same_path same_shard same_list same_db Tests.program
program = tt

-- Other goroutines take the clock on.
abbrev pub others : Engine (Unit {0}) → ℕ → Engine (Unit {0}) × ℕ
others e d = (e, d + 1)

batches :
    (sub_batches machine insertion others same (λ t. t) engine [] (12 ∷ 47 ∷ 15 ∷ []) 0).0
    ≡ ok ((slot 10 20, 12 ∷ 15 ∷ []) ∷ (made, 47 ∷ []) ∷ [], grown)
unfolding program
batches = refl
