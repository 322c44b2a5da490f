-- ===== src/Index/Opening/Order.antt =====
-- The order of `sort.Strings`, and why the names of shards have one order only.
use mathlib.Core.List.{Mem, Perm, Pairwise, mem-cons, mem-cons_self, not-mem-nil}
use mathlib.Core.List.Pairwise
use mathlib.Core.List.Perm
use mathlib.Core.Logic.Or
use ekanite.Prelude.{
  ℕ, zero, suc, ◌+◌, ◌≤◌, ◌≡◌, refl, ap₂, sym, subst, Bool, true, false, ◌||◌, ◌&&◌, List, [], ◌∷◌,
  Bytes, ltb, ◌==◌, arith,
}
use ekanite.Index.{four_digits}

-- `s <= t` of two Go strings.
unfoldable pub string_le : Bytes → Bytes → Bool
string_le [] t = true
string_le (c ∷ s) [] = false
string_le (c ∷ s) (d ∷ t) = ltb c d || (c == d && string_le s t)

string_le_refl : (s : Bytes) → string_le s s ≡ true
unfolding string_le
string_le_refl [] = refl
string_le_refl (c ∷ s) = ground (arith, string_le_refl s)

string_le_antisymm : (s t : Bytes) → string_le s t ≡ true → string_le t s ≡ true → s ≡ t
unfolding string_le
string_le_antisymm [] [] h k = refl
string_le_antisymm [] (d ∷ t) h k = cc
string_le_antisymm (c ∷ s) [] h k = cc
string_le_antisymm (c ∷ s) (d ∷ t) h k = let tails = string_le_antisymm s t in ground (arith, tails)

abbrev pub IsSorted : List Bytes → Type 0
IsSorted = Pairwise λ s t. string_le s t ≡ true

-- What `sort.Strings` promises.
abbrev pub Sorts : (List Bytes → List Bytes) → Type 0
Sorts sort = (l : List Bytes) → Perm (sort l) l × IsSorted (sort l)

head_le :
    {a b : Bytes} {l r : List Bytes}
    → IsSorted (a ∷ l)
    → Perm (b ∷ r) (a ∷ l)
    → string_le a b ≡ true
head_le {a} {b} (Pairwise.cons below _) p =
    Or.elim {C = string_le a b ≡ true} (hlevel) (mem-cons.0 ((Perm.mem_iff p).0 mem-cons_self))
      (λ e. subst (λ x. string_le a x ≡ true) (sym e) (string_le_refl a)) (below b)

-- Two ascending lists with the same items are one.
pub IsSorted-unique : (l r : List Bytes) → IsSorted l → IsSorted r → Perm l r → l ≡ r
IsSorted-unique [] r sl sr p = Perm.nil-eq p
IsSorted-unique (a ∷ l) [] sl sr p = Perm.eq-nil p
IsSorted-unique (a ∷ l) (b ∷ r) sl sr p =
    let same : a ≡ b = string_le_antisymm a b (head_le sl (Perm.symm p)) (head_le sr p) in
    let rests = Perm.cons_inv (Perm.trans p (Perm.cons' (sym same) Perm.rfl)) in
    ap₂ ◌∷◌ same (IsSorted-unique l r (Pairwise.of_cons sl) (Pairwise.of_cons sr) rests)

-- The names of the shards from number `n` on, `left` of them.
unfoldable pub shard_names : ℕ → ℕ → List Bytes
shard_names n zero = []
shard_names n (suc left) = four_digits n ∷ shard_names (suc n) left

four_digits_le : (m n : ℕ) → m ≤ n → n ≤ 9999 → string_le (four_digits m) (four_digits n) ≡ true
unfolding string_le
four_digits_le m n h k = ground arith

shard_names_above :
    (m n left : ℕ)
    → m ≤ n
    → n + left ≤ 10000
    → (x : Bytes) → Mem x (shard_names n left)
    → string_le (four_digits m) x ≡ true
unfolding shard_names
shard_names_above m n zero h k x i = absurd (not-mem-nil i)
shard_names_above m n (suc left) h k x i =
    Or.elim {C = string_le (four_digits m) x ≡ true} (hlevel) (mem-cons.0 i)
      (λ e.
        subst (λ y. string_le (four_digits m) y ≡ true) (sym e)
          (four_digits_le m n h (omega arith)))
      (shard_names_above m (suc n) left (omega arith) (omega arith) x)

pub shard_names-IsSorted : (n left : ℕ) → n + left ≤ 10000 → IsSorted (shard_names n left)
unfolding shard_names
shard_names-IsSorted n zero h = Pairwise.nil
shard_names-IsSorted n (suc left) h =
    Pairwise.cons (shard_names_above n (suc n) left (omega arith) (omega arith))
      (shard_names-IsSorted (suc n) left (omega arith))
