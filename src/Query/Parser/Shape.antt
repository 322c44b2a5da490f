-- ===== src/Query/Parser/Shape.antt =====
-- What a successful `Parse` returns.
use ekanite.Prelude.{
  ℕ, zero, suc, true, ◌≡◌, refl, ap, ◌∙◌, sym, List, [], ◌∷◌, ◌++◌, All, All-append, ◌⊎◌, inl, inr,
  if◌then◌else◌,
}
use ekanite.Query.Token.{Token, is_operator, tokstr}
use ekanite.Query.Parser.{
  Expr, nil, field_expr, paren_expr, Parser, expected_rparen, expected_field, expected_term, Result,
  ok, err, out_of_fuel, ◌>>=◌, with_operator, parse, parse_loop, parse_field_expr, next_token,
  unlex, parse_term, close_paren,
}
use ekanite.Query.Parser.Precedence.{chain, IsOperand}

chain-append :
    (e : Expr) (rest : List (Token × Expr)) (op : Token) (rhs : Expr)
    → chain e (rest ++ (op, rhs) ∷ []) ≡ with_operator (chain e rest) op rhs
unfolding chain
chain-append e [] op rhs = refl
chain-append e ((o, r) ∷ rest) op rhs = chain-append (with_operator e o r) rest op rhs

abbrev pub IsRead : Token × Expr → Type 0
IsRead (op, rhs) = (is_operator op ≡ true) × IsOperand rhs

-- The tree of an operand and of the operators and operands that were read after it.
abbrev pub IsChain : Expr → Type 0
IsChain e =
    (first : Expr) × (rest : List (Token × Expr)) × (e ≡ chain first rest)
    × IsOperand first
    × All IsRead rest

-- That a result that is no error has the property.
unfoldable pub Returns : (Expr → Type 0) → Result (Expr × Parser) → Type 0
Returns P (ok (e, p)) = P e
Returns P (err e) = Unit
Returns P out_of_fuel = Unit

Returns-bind :
    (P Q : Expr → Type 0) (m : Result (Expr × Parser)) (f : Expr × Parser → Result (Expr × Parser))
    → Returns P m
    → ((e : Expr) (p : Parser) → P e → Returns Q (f (e, p)))
    → Returns Q (m >>= f)
unfolding Returns
Returns-bind P Q (ok (e, p)) f h g = g e p h
Returns-bind P Q (err e) f h g = tt
Returns-bind P Q out_of_fuel f h g = tt

grown :
    (e : Expr) (op : Token) (rhs : Expr)
    → is_operator op ≡ true
    → IsOperand rhs
    → IsChain e
    → IsChain (with_operator e op rhs)
grown e op rhs o r (first, rest, built, operand, read) = (
  first,
  rest ++ (op, rhs) ∷ [],
  ap (λ x. with_operator x op rhs) built ∙ sym (chain-append first rest op rhs),
  operand,
  All-append IsRead rest _ read ((o, r), tt),
)

close_paren-IsOperand : (e : Expr) (p : Parser) → Returns IsOperand (close_paren e p)
unfolding Returns IsOperand
close_paren-IsOperand e p = by_token (next_token p) (next_token p).tok
  where
    by_token :
        (q : Parser) (t : Token)
        → Returns IsOperand (elim t [
          | Token.rparen ↦ ok (paren_expr e, q)
          | _ ↦ err (expected_rparen (tokstr q.tok q.lit))
        ])
    by_token q Token.rparen = tt
    by_token q _ = tt

parse_term-IsOperand : (p : Parser) → Returns IsOperand (parse_term p)
unfolding parse_term Returns IsOperand
parse_term-IsOperand p =
    let p₁ = next_token p in
    let p₂ = next_token p₁ in by_tokens p₁ p₂ (next_token p₂) p₁.tok p₂.tok (next_token p₂).tok
  where
    by_tokens :
        (p₁ p₂ p₃ : Parser) (t₁ t₂ t₃ : Token)
        → Returns IsOperand (elim t₁ [
          | Token.string ↦ elim t₂ [
            | Token.colon ↦ elim t₃ [
              | Token.string ↦ ok (field_expr p₁.lit p₃.lit, p₃)
              | _ ↦ err (expected_term (tokstr p₃.tok p₃.lit))
            ]
            | _ ↦ ok (field_expr p.default_field p₁.lit, unlex p₂)
          ]
          | _ ↦ err (expected_field (tokstr p₁.tok p₁.lit))
        ])
    by_tokens p₁ p₂ p₃ Token.string Token.colon Token.string = tt
    by_tokens p₁ p₂ p₃ Token.string Token.colon _ = tt
    by_tokens p₁ p₂ p₃ Token.string _ t₃ = tt
    by_tokens p₁ p₂ p₃ _ t₂ t₃ = tt

parse_field_expr-IsOperand : (f : ℕ) (p : Parser) → Returns IsOperand (parse_field_expr f p)
unfolding parse parse_loop parse_field_expr Returns
parse_field_expr-IsOperand zero p = tt
parse_field_expr-IsOperand (suc f) p = by_token (next_token p) (next_token p).tok
  where
    by_token :
        (q : Parser) (t : Token)
        → Returns IsOperand (elim t [
          | Token.lparen ↦ parse f q >>= λ (e, r). close_paren e r
          | _ ↦ parse_term (unlex q)
        ])
    by_token q Token.lparen =
        Returns-bind (λ _. Unit) IsOperand (parse f q) _ (always (parse f q))
          (λ e r _. close_paren-IsOperand e r)
      where
        always : (m : Result (Expr × Parser)) → Returns (λ _. Unit) m
        always (ok a) = tt
        always (err e) = tt
        always out_of_fuel = tt
    by_token q _ = parse_term-IsOperand (unlex q)

abbrev LoopChains : ℕ → Type 0
LoopChains f = (e : Expr) (p : Parser) → IsChain e → Returns IsChain (parse_loop f e p)

round-IsChain : (f : ℕ) → LoopChains f → LoopChains (suc f)
unfolding parse parse_loop parse_field_expr Returns
round-IsChain f loop e p h = by_token (next_token p) (next_token p).tok
  where
    step :
        (op : Token) (r : Parser)
        → is_operator op ≡ true
        → Returns IsChain
            (parse_field_expr f r >>= λ (rhs, r'). parse_loop f (with_operator e op rhs) r')
    step op r o =
        Returns-bind IsOperand IsChain (parse_field_expr f r) _ (parse_field_expr-IsOperand f r)
          (λ rhs s operand. loop (with_operator e op rhs) s (grown e op rhs o operand h))

    by_token :
        (q : Parser) (t : Token)
        → Returns IsChain (
            let op = if is_operator t then t else Token.and in
            let r = if is_operator t then q else unlex q in
            elim t [
              | Token.eof ↦ ok (e, q)
              | Token.rparen ↦ ok (e, unlex q)
              | _ ↦ parse_field_expr f r >>= λ (rhs, s). parse_loop f (with_operator e op rhs) s
            ])
    by_token q Token.eof = h
    by_token q Token.rparen = h
    by_token q Token.and = step Token.and q refl
    by_token q Token.or = step Token.or q refl
    by_token q Token.not = step Token.not q refl
    by_token q _ = step Token.and (unlex q) refl

parse_loop-IsChain : (f : ℕ) → LoopChains f
unfolding parse parse_loop parse_field_expr Returns
parse_loop-IsChain zero = λ e p h. tt
parse_loop-IsChain (suc f) = round-IsChain f (parse_loop-IsChain f)

-- What `Parse` returns without an error is the nil expression, for a text that has ended, or the
-- tree that its loop builds from an operand and a sequence of operators, each with an operand, on
-- any text and any fuel.
pub parse-IsChain :
    (f : ℕ) (p : Parser)
    → Returns (λ e. ((e ≡ nil) × ((next_token p).tok ≡ Token.eof)) ⊎ IsChain e) (parse f p)
unfolding parse parse_loop parse_field_expr Returns chain
parse-IsChain zero p = tt
parse-IsChain (suc f) p = by_token (next_token p) (next_token p).tok refl
  where
    Parsed : Expr → Type 0
    Parsed e = ((e ≡ nil) × ((next_token p).tok ≡ Token.eof)) ⊎ IsChain e

    widen : (m : Result (Expr × Parser)) → Returns IsChain m → Returns Parsed m
    widen (ok (e, r)) h = inr h
    widen (err e) h = tt
    widen out_of_fuel h = tt

    by_token :
        (q : Parser) (t : Token)
        → (next_token p).tok ≡ t
        → Returns Parsed (elim t [
          | Token.eof ↦ ok (nil, q)
          | _ ↦ parse_field_expr f (unlex q) >>= λ (e, r). parse_loop f e r
        ])
    by_token q Token.eof h = inl (refl, h)
    by_token q _ h = widen (parse_field_expr f (unlex q) >>= λ (e, r). parse_loop f e r) (
        Returns-bind IsOperand IsChain (parse_field_expr f (unlex q)) _
          (parse_field_expr-IsOperand f (unlex q))
          (λ e r operand. parse_loop-IsChain f e r (e, [], refl, operand, tt)))
