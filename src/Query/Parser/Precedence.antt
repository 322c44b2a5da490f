-- ===== src/Query/Parser/Precedence.antt =====
-- The tree that the loop of `Parse` builds, operator by operator.
use ekanite.Prelude.{
  ◌≡◌, refl, ap, ◌∙◌, sym, Bool, true, false, List, [], ◌∷◌, ◌++◌, append_assoc, append-nil, ◌&&◌,
  ◌||◌, ltb, Bool-cases, inl, inr, All,
}
use ekanite.Query.Token.{Token, precedence}
use ekanite.Query.Parser.{Expr, nil, field_expr, binary_expr, paren_expr, with_operator}

-- The loop on operators and operands that are read already.
unfoldable pub chain : Expr → List (Token × Expr) → Expr
chain e [] = e
chain e ((op, rhs) ∷ rest) = chain (with_operator e op rhs) rest

-- What stands in a tree from left to right: an operand alone, or an operator.
pub data Symbol : Type 0 where
  operand : Expr → Symbol
  operator : Token → Symbol

unfoldable pub infix_form : Expr → List Symbol
infix_form (binary_expr op l r) = infix_form l ++ operator op ∷ infix_form r
infix_form e = operand e ∷ []

unfoldable pub symbols : List (Token × Expr) → List Symbol
symbols [] = []
symbols ((op, rhs) ∷ rest) = operator op ∷ infix_form rhs ++ symbols rest

with_operator-infix_form :
    (e : Expr) (op : Token) (rhs : Expr)
    → infix_form (with_operator e op rhs) ≡ infix_form e ++ operator op ∷ infix_form rhs
unfolding with_operator infix_form
with_operator-infix_form (binary_expr o l r) op rhs =
    elim (Bool-cases (ltb (precedence o) (precedence op))) [
      | inl lower ↦ rw (lower) (sym (append_assoc (infix_form l) (operator o ∷ infix_form r) _))
      | inr higher ↦ rw (higher) refl
    ]
with_operator-infix_form nil op rhs = refl
with_operator-infix_form (field_expr f t) op rhs = refl
with_operator-infix_form (paren_expr e) op rhs = refl

-- However the operators bind, the tree has the operands and the operators of the query in the order
-- in which they were read, each once.
pub chain-infix_form :
    (e : Expr) (rest : List (Token × Expr))
    → infix_form (chain e rest) ≡ infix_form e ++ symbols rest
unfolding chain infix_form symbols
chain-infix_form e [] = sym (append-nil (infix_form e))
chain-infix_form e ((op, rhs) ∷ rest) =
    chain-infix_form (with_operator e op rhs) rest
    ∙ ap (◌++ symbols rest) (with_operator-infix_form e op rhs)
    ∙ append_assoc (infix_form e) (operator op ∷ infix_form rhs) (symbols rest)

-- Whether a document matches, given which operands match it.
unfoldable pub holds : (Expr → Bool) → Expr → Bool
holds v (binary_expr Token.and l r) = holds v l && holds v r
holds v (binary_expr Token.or l r) = holds v l || holds v r
holds v e = v e

-- The search that the language means: one of the groups between two ORs has operands that all match.
unfoldable pub some_group : (Expr → Bool) → Bool → List (Token × Expr) → Bool
some_group v group [] = group
some_group v group ((Token.or, rhs) ∷ rest) = group || some_group v (holds v rhs) rest
some_group v group ((_, rhs) ∷ rest) = some_group v (group && holds v rhs) rest

unfoldable pub IsAndOr : Token × Expr → Type 0
IsAndOr (Token.and, rhs) = Unit
IsAndOr (Token.or, rhs) = Unit
IsAndOr _ = ⊥

-- No operator at the root, as what `parseFieldExpr` returns.
unfoldable pub IsOperand : Expr → Type 0
IsOperand (binary_expr op l r) = ⊥
IsOperand e = Unit

or_assoc : (a b c : Bool) → (a || b) || c ≡ a || (b || c)
or_assoc true b c = refl
or_assoc false b c = refl

chain_or :
    (v : Expr → Bool) (s p : Expr) (rest : List (Token × Expr))
    → All IsAndOr rest
    → holds v (chain (binary_expr Token.or s p) rest) ≡ holds v s || some_group v (holds v p) rest
unfolding chain holds some_group with_operator IsAndOr
chain_or v s p [] h = refl
chain_or v s p ((Token.and, rhs) ∷ rest) (h, hs) =
    chain_or v s (binary_expr Token.and p rhs) rest hs
chain_or v s p ((Token.or, rhs) ∷ rest) (h, hs) =
    chain_or v (binary_expr Token.or s p) rhs rest hs ∙ or_assoc (holds v s) (holds v p) _
chain_or v s p ((_, rhs) ∷ rest) (h, hs) = absurd h

chain_and :
    (v : Expr → Bool) (l r : Expr) (rest : List (Token × Expr))
    → All IsAndOr rest
    → holds v (chain (binary_expr Token.and l r) rest) ≡ some_group v (holds v l && holds v r) rest
unfolding chain holds some_group with_operator IsAndOr
chain_and v l r [] h = refl
chain_and v l r ((Token.and, rhs) ∷ rest) (h, hs) =
    chain_and v (binary_expr Token.and l r) rhs rest hs
chain_and v l r ((Token.or, rhs) ∷ rest) (h, hs) =
    chain_or v (binary_expr Token.and l r) rhs rest hs
chain_and v l r ((_, rhs) ∷ rest) (h, hs) = absurd h

operand-with_operator :
    (e : Expr) (op : Token) (rhs : Expr)
    → IsOperand e
    → with_operator e op rhs ≡ binary_expr op e rhs
unfolding with_operator IsOperand
operand-with_operator (binary_expr o l r) op rhs h = absurd h
operand-with_operator nil op rhs h = refl
operand-with_operator (field_expr f t) op rhs h = refl
operand-with_operator (paren_expr e) op rhs h = refl

-- Without NOT, the tree built from an operand and any sequence of ANDs and ORs matches the documents
-- that the query means, AND binding tighter than OR, whatever the operands match.
pub chain-holds :
    (v : Expr → Bool) (e : Expr) (rest : List (Token × Expr))
    → IsOperand e
    → All IsAndOr rest
    → holds v (chain e rest) ≡ some_group v (holds v e) rest
unfolding chain holds some_group IsAndOr
chain-holds v e [] o h = refl
chain-holds v e ((Token.and, rhs) ∷ rest) o (h, hs) =
    ap (λ x. holds v (chain x rest)) (operand-with_operator e Token.and rhs o)
    ∙ chain_and v e rhs rest hs
chain-holds v e ((Token.or, rhs) ∷ rest) o (h, hs) =
    ap (λ x. holds v (chain x rest)) (operand-with_operator e Token.or rhs o)
    ∙ chain_or v e rhs rest hs
chain-holds v e ((_, rhs) ∷ rest) o (h, hs) = absurd h
