-- ===== src/Strings.antt =====
-- What the components use of Go's `strings` and `strconv`, on byte strings.
use ekanite.Prelude.{
  ℕ, ◌+◌, ◌-◌, ◌*◌, ◌^◌, ◌≡◌, refl, ap, Bool, true, false, ◌&&◌, ◌||◌, [], ◌∷◌, ◌++◌, Option, none,
  some, Bytes, leb, ◌==◌, if◌then◌else◌, All, Bool-cases, inl, inr,
}

unfoldable pub is_digit : ℕ → Bool
is_digit b = leb b'0' b && leb b b'9'

abbrev pub is_crlf : ℕ → Bool
is_crlf b = b == b'\r' || b == b'\n'

trim_cons : Bool → ℕ → Bytes → Bytes
trim_cons true x [] = []
trim_cons _ x r = x ∷ r

-- `strings.TrimRight`, with the bytes of the cutset given by their test.
unfoldable pub trim_right : (ℕ → Bool) → Bytes → Bytes
unfolding trim_cons
trim_right cut [] = []
trim_right cut (x ∷ xs) = trim_cons (cut x) x (trim_right cut xs)

-- `strings.TrimLeft`
unfoldable pub trim_left : (ℕ → Bool) → Bytes → Bytes
trim_left cut [] = []
trim_left cut (x ∷ xs) = elim (cut x) [ true ↦ trim_left cut xs | false ↦ x ∷ xs ]

-- `strings.Trim`
unfoldable pub trim : (ℕ → Bool) → Bytes → Bytes
trim cut s = trim_right cut (trim_left cut s)

-- What is cut off is a suffix of bytes of the cutset.
pub trim_right-suffix :
    (cut : ℕ → Bool) (s : Bytes)
    → (tail : Bytes) × (s ≡ trim_right cut s ++ tail) × All (λ b. cut b ≡ true) tail
unfolding trim_right
trim_right-suffix cut [] = ([], refl, tt)
trim_right-suffix cut (x ∷ xs) =
    let (tail, e, all) = trim_right-suffix cut xs in go (cut x) refl (trim_right cut xs) tail e all
  where
    go :
        (b : Bool)
        → cut x ≡ b
        → (r tail : Bytes) → xs ≡ r ++ tail
        → All (λ y. cut y ≡ true) tail
        → (t : Bytes) × (x ∷ xs ≡ trim_cons b x r ++ t) × All (λ y. cut y ≡ true) t
    go true h [] tail e all = (x ∷ tail, ap (◌∷◌ x) e, (h, all))
    go true h (y ∷ r) tail e all = (tail, ap (◌∷◌ x) e, all)
    go false h r tail e all = (tail, ap (◌∷◌ x) e, all)

-- A byte of the cutset at the end makes no difference.
trim_right-snoc :
    (cut : ℕ → Bool) (s : Bytes) (x : ℕ)
    → cut x ≡ true
    → trim_right cut (s ++ x ∷ []) ≡ trim_right cut s
unfolding trim_right
trim_right-snoc cut [] x h = rw (h) refl
trim_right-snoc cut (y ∷ s) x h = ap (trim_cons (cut y) y) (trim_right-snoc cut s x h)

trim_left-cases :
    (cut : ℕ → Bool) (s : Bytes) (x : ℕ)
    → cut x ≡ true
    → trim_right cut (trim_left cut (s ++ x ∷ [])) ≡ trim_right cut (trim_left cut s)
unfolding trim_right trim_left
trim_left-cases cut [] x h = rw (h) refl
trim_left-cases cut (y ∷ s) x h = elim (Bool-cases (cut y)) [
  | inl e ↦ rw (e, trim_left) (trim_left-cases cut s x h)
  | inr e ↦ rw (e, trim_left) (trim_right-snoc cut (y ∷ s) x h)
]

pub trim-snoc :
    (cut : ℕ → Bool) (s : Bytes) (x : ℕ) → cut x ≡ true → trim cut (s ++ x ∷ []) ≡ trim cut s
unfolding trim
trim-snoc cut s x h = trim_left-cases cut s x h

-- The value of a string of decimal digits behind those read so far.
unfoldable pub decimal : ℕ → Bytes → Option ℕ
unfolding is_digit
decimal acc [] = some acc
decimal acc (c ∷ cs) =
    let rest = decimal (acc * 10 + (c - b'0')) cs in if is_digit c then rest else none

abbrev pub max_int : ℕ
max_int = 2 ^ 63 - 1

-- The value and whether there is an error.
in_range : Option ℕ → ℕ × Bool
in_range none = (0, true)
in_range (some n) = if leb n max_int then (n, false) else (max_int, true)

-- `strconv.Atoi` of a string with no sign. The empty string and a byte that is no digit are errors
-- with value 0; a value over the largest `int` is one with that `int`.
unfoldable pub atoi : Bytes → ℕ × Bool
unfolding decimal in_range
atoi [] = (0, true)
atoi (c ∷ cs) = in_range (decimal 0 (c ∷ cs))
