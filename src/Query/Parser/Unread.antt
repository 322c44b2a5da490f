-- ===== src/Query/Parser/Unread.antt =====
-- How much of the query each function of query/parser.go leaves unread.
use ekanite.Prelude.{
  ℕ, ◌+◌, ◌≤◌, ◌≡◌, ◌≢◌, refl, true, false, length, if◌then◌else◌, arith, Bool-cases, inl, inr,
}
use ekanite.Query.Token.{Token, tokstr}
use ekanite.Query.Lexer.Progress.{lex-Advances}
use ekanite.Query.Parser.{
  Expr, paren_expr, expected_rparen, expected_field, expected_term, field_expr, Result, ok, err,
  out_of_fuel, ◌>>=◌, Parser, next, unlex, is_ws, next_token, parse_term, close_paren,
}

-- The runes that are not yet read, with those of a token that is to be read again.
abbrev pub size : Parser → ℕ
size p = length p.runes + (if p.unread then length p.lit else 0)

-- A token that is to be read again is no empty text, unless it is the end.
abbrev pub Buffered : Parser → Type 0
Buffered p = p.unread ≡ true → p.tok ≢ Token.eof → 1 ≤ length p.lit

-- What is known of a parser that has just read a token.
pub record HasRead (n : ℕ) (q : Parser) : Type 0 where
  pub shorter : length q.lit + length q.runes ≤ n
  pub nonempty : q.tok ≢ Token.eof → 1 ≤ length q.lit
  pub taken : q.unread ≡ false

next-HasRead : (p : Parser) → Buffered p → HasRead (size p) (next p)
unfolding next
next-HasRead p b = elim (Bool-cases (p.unread)) [
  | inl again ↦
      rw (again, next) (record { shorter = ground arith; nonempty = b again; taken = refl })
  | inr fresh ↦
      rw (fresh, next)
        (let a = lex-Advances p.runes in
          record { shorter = omega (arith, a.shorter); nonempty = a.nonempty; taken = fresh })
]

pub HasRead-Buffered : (n : ℕ) (q : Parser) → HasRead n q → Buffered q
HasRead-Buffered n q h again = let taken = h.taken in ground arith

pub HasRead-size : (n : ℕ) (q : Parser) → HasRead n q → size q ≡ length q.runes
HasRead-size n q h = rw (h.taken) (omega arith)

pub next_token-HasRead : (p : Parser) → Buffered p → HasRead (size p) (next_token p)
unfolding next_token
next_token-HasRead p b =
    let h = next-HasRead p b in
    let s : size (next p) ≡ length (next p).runes = HasRead-size (size p) (next p) h in
    let h' = next-HasRead (next p) (HasRead-Buffered (size p) (next p) h) in
    elim (Bool-cases (is_ws (next p).tok)) [
      | inl w ↦ rw (w) (record {
        shorter = omega (arith, h.shorter, h'.shorter, s);
        nonempty = h'.nonempty;
        taken = h'.taken;
      })
      | inr w ↦ rw (w) h
    ]

pub Buffered-unlex : (n : ℕ) (q : Parser) → HasRead n q → Buffered (unlex q)
Buffered-unlex n q h _ = h.nonempty

-- The outcome leaves at least `d` runes fewer than `n`, or is an error of the query.
unfoldable pub Within : (d n : ℕ) → Result (Expr × Parser) → Type 0
Within d n (ok (e, r)) = (size r + d ≤ n) × Buffered r
Within d n (err e) = Unit
Within d n out_of_fuel = ⊥

pub weaken :
    (d n c k : ℕ) (m : Result (Expr × Parser)) → n + c ≤ k + d → Within d n m → Within c k m
unfolding Within
weaken d n c k (ok (e, r)) l (s, b) = (omega (arith, l, s), b)
weaken d n c k (err e) l w = tt
weaken d n c k out_of_fuel l w = absurd w

pub Within-bind :
    (d n k c : ℕ) (m : Result (Expr × Parser)) (f : Expr × Parser → Result (Expr × Parser))
    → Within d n m
    → ((e : Expr) (r : Parser) → size r + d ≤ n → Buffered r → Within c k (f (e, r)))
    → Within c k (m >>= f)
unfolding Within
Within-bind d n k c (ok (e, r)) f (s, b) g = g e r s b
Within-bind d n k c (err e) f w g = tt
Within-bind d n k c out_of_fuel f w g = absurd w

pub close_paren-Within :
    (n : ℕ) (e : Expr) (p : Parser) → size p + 1 ≤ n → Buffered p → Within 1 n (close_paren e p)
unfolding Within
close_paren-Within n e p s b =
    let h = next_token-HasRead p b in
    let z = HasRead-size (size p) (next_token p) h in
    by_token (next_token p) (omega (arith, h.shorter, z, s))
      (HasRead-Buffered (size p) (next_token p) h) (next_token p).tok
  where
    by_token :
        (q : Parser)
        → size q + 1 ≤ n
        → Buffered q
        → (t : Token)
        → Within 1 n (elim t [
          | Token.rparen ↦ ok (paren_expr e, q)
          | _ ↦ err (expected_rparen (tokstr q.tok q.lit))
        ])
    by_token q s b Token.rparen = (s, b)
    by_token q s b _ = tt

pub parse_term-Within : (n : ℕ) (p : Parser) → Buffered p → size p ≤ n → Within 1 n (parse_term p)
unfolding parse_term Within
parse_term-Within n p b s =
    let p₁ = next_token p in
    let p₂ = next_token p₁ in
    let p₃ = next_token p₂ in
    let h₁ = next_token-HasRead p b in
    let z₁ = HasRead-size (size p) p₁ h₁ in
    let b₁ = HasRead-Buffered (size p) p₁ h₁ in
    let h₂ = next_token-HasRead p₁ b₁ in
    let b₂ = HasRead-Buffered (size p₁) p₂ h₂ in
    let z₂ = HasRead-size (size p₁) p₂ h₂ in
    let h₃ = next_token-HasRead p₂ b₂ in
    let b₃ = HasRead-Buffered (size p₂) p₃ h₃ in
    let z₃ = HasRead-size (size p₂) p₃ h₃ in
    by_tokens p₁ p₂ p₃ p₁.tok p₂.tok p₃.tok h₁.nonempty
      (λ l. omega (arith, l, h₁.shorter, h₂.shorter, z₁, s))
      (λ l. omega (arith, l, h₁.shorter, h₂.shorter, h₃.shorter, z₁, z₂, z₃, s)) (λ _. h₂.nonempty)
      b₃
  where
    by_tokens :
        (p₁ p₂ p₃ : Parser) (t₁ t₂ t₃ : Token)
        → (t₁ ≢ Token.eof → 1 ≤ length p₁.lit)
        → (1 ≤ length p₁.lit → size (unlex p₂) + 1 ≤ n)
        → (1 ≤ length p₁.lit → size p₃ + 1 ≤ n)
        → Buffered (unlex p₂)
        → Buffered p₃
        → Within 1 n (elim t₁ [
          | Token.string ↦ elim t₂ [
            | Token.colon ↦ elim t₃ [
              | Token.string ↦ ok (field_expr p₁.lit p₃.lit, p₃)
              | _ ↦ err (expected_term (tokstr p₃.tok p₃.lit))
            ]
            | _ ↦ ok (field_expr p.default_field p₁.lit, unlex p₂)
          ]
          | _ ↦ err (expected_field (tokstr p₁.tok p₁.lit))
        ])
    by_tokens p₁ p₂ p₃ Token.string Token.colon Token.string h s s' b b' =
        (s' (h (λ e. ground arith)), b')
    by_tokens p₁ p₂ p₃ Token.string Token.colon _ h s s' b b' = tt
    by_tokens p₁ p₂ p₃ Token.string _ t₃ h s s' b b' = (s (h (λ e. ground arith)), b)
    by_tokens p₁ p₂ p₃ _ t₂ t₃ h s s' b b' = tt
