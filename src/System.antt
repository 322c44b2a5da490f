-- ===== src/System.antt =====
-- What the engine asks of the operating system, of the clock and of the search library bleve: an
-- interface that index.go and engine.go are modelled over. Times are numbers of nanoseconds since
-- the zero `time.Time`; a path is the list of its components.
use ekanite.Prelude.{ℕ, ◌≡◌, refl, Bool, true, false, List, Option, Bytes}

abbrev pub FilePath : Type 0
FilePath = List Bytes

-- The error of `os.Stat`.
pub data StatError : Type 0 where
  nil not_exist other : StatError

-- `err == nil` and `os.IsNotExist(err)`
abbrev pub is_nil : StatError → Bool
is_nil StatError.nil = true
is_nil _ = false

abbrev pub is_not_exist : StatError → Bool
is_not_exist StatError.not_exist = true
is_not_exist _ = false

-- `Disk` is the state of the machine. An operation that returns a `Bool` returns whether it
-- failed.
pub record System : Type 1 where
  pub Disk : Type 0
  pub Db : Type 0
  pub stat : FilePath → Disk → StatError
  pub mkdir_all : FilePath → Disk → Bool × Disk
  pub create : FilePath → Disk → Bool × Disk
  pub write_string : FilePath → Bytes → Disk → Bool × Disk
  pub remove_all : FilePath → Disk → Bool × Disk
  pub now : Disk → ℕ × Disk
  pub format_time : ℕ → Bytes
  pub build_index_mapping : Disk → Bool × Disk
  pub bleve_new : FilePath → Disk → Option Db × Disk
  pub bleve_open : FilePath → Disk → Option Db × Disk
  pub bleve_close : Db → Disk → Bool × Disk

-- A Go function with an error result, which may also panic.
pub data Result {ℓ} (A : Type ℓ) : Type ℓ where
  ok : A → Result A
  err : Result A
  panic : Result A

abbrev pub M : Type 0 → Type 0 → Type 0
M D A = D → Result A × D

module _ {D : Type 0} where
  abbrev pub pure : {A : Type 0} → A → M D A
  pure a d = (ok a, d)

  abbrev pub fail : {A : Type 0} → M D A
  fail d = (err, d)

  abbrev pub and_then : {A B : Type 0} → Result A → (A → M D B) → M D B
  and_then (ok a) f d = f a d
  and_then err f d = (err, d)
  and_then panic f d = (panic, d)

  infixl 5 ◌>>=◌ ◌>>◌
  abbrev pub ◌>>=◌ : {A B : Type 0} → M D A → (A → M D B) → M D B
  ◌>>=◌ m f d = let (r, d') = m d in and_then r f d'

  abbrev pub ◌>>◌ : {B : Type 0} → M D (Unit {0}) → M D B → M D B
  ◌>>◌ m k = m >>= λ _. k

  -- `if err != nil { return …, err }` behind a call, and `return …, err` under a test.
  abbrev pub try : (D → Bool × D) → M D (Unit {0})
  try op d = let (failed, d') = op d in (elim failed [ true ↦ err | false ↦ ok tt ], d')

  abbrev pub guard : Bool → M D (Unit {0})
  guard true d = (ok tt, d)
  guard false d = (err, d)

  abbrev pub try_some : {A : Type 0} → (D → Option A × D) → M D A
  try_some op d = let (o, d') = op d in (elim o [ Option.none ↦ err | Option.some a ↦ ok a ], d')

  and_then-eq-ok :
      {A B : Type 0} (r : Result A) (f : A → M D B) (d : D) {b : B}
      → (and_then r f d).0 ≡ ok b
      → (a : A) × (r ≡ ok a) × ((f a d).0 ≡ ok b)
  and_then-eq-ok (ok a) f d e = (a, refl, e)
  and_then-eq-ok err f d e = cc
  and_then-eq-ok panic f d e = cc

  -- Inversion of a successful bind.
  pub >>=-eq-ok :
      {A B : Type 0} (m : M D A) (f : A → M D B) (d : D) {b : B}
      → ((m >>= f) d).0 ≡ ok b
      → (a : A) × ((m d).0 ≡ ok a) × ((f a (m d).1).0 ≡ ok b)
  >>=-eq-ok m f d h = and_then-eq-ok (m d).0 f (m d).1 h
