-- ===== src/Query/Parser.antt =====
-- query/parser.go. The mutual recursion runs on fuel, with an outcome of its own for its end.
pub mod Unread
pub mod Fuel
pub mod Precedence
pub mod Shape
mod Tests
use ekanite.Prelude.{
  ℕ, zero, suc, ◌≡◌, Bool, true, false, List, [], ◌∷◌, ◌++◌, Bytes, codes, ltb, if◌then◌else◌, ◌&&◌,
}
use ekanite.Query.Token.{Token, is_operator, token_string, precedence, tokstr}
use ekanite.Query.Lexer.{Lexed, lex}

-- `nil` is the nil interface, which `Parse` returns for an empty query.
pub data Expr : Type 0 where
  nil : Expr
  field_expr : (field term : Bytes) → Expr
  binary_expr : (op : Token) (lhs rhs : Expr) → Expr
  paren_expr : Expr → Expr

-- The errors hold what `tokstr` gives for the token found.
pub data ParseError : Type 0 where
  expected_rparen expected_field expected_term : Bytes → ParseError

pub data Result {ℓ} (A : Type ℓ) : Type ℓ where
  ok : A → Result A
  err : ParseError → Result A
  out_of_fuel : Result A

infixl 5 ◌>>=◌
abbrev pub ◌>>=◌ {ℓ κ} : {A : Type ℓ} {B : Type κ} → Result A → (A → Result B) → Result B
ok a >>= f = f a
err e >>= f = err e
out_of_fuel >>= f = out_of_fuel

-- `unread` says that the token is to be read again: `buf.n` is 1.
pub record Parser : Type 0 where
  pub runes : Bytes
  pub tok : Token
  pub lit : Bytes
  pub unread : Bool
  pub default_field : Bytes

abbrev pub new_parser : Bytes → Bytes → Parser
new_parser runes default_field = record {
  runes = runes;
  tok = Token.illegal;
  lit = [];
  unread = false;
  default_field = default_field;
}

-- `p.lex`: the token and the literal are then `p.tok` and `p.lit`.
unfoldable pub next : Parser → Parser
next p = elim (p.unread) [
  | true ↦ record p { unread = false }
  | false ↦ let l = lex p.runes in record p { runes = l.rest; tok = l.tok; lit = l.lit }
]

abbrev pub unlex : Parser → Parser
unlex p = record p { unread = true }

abbrev pub is_ws : Token → Bool
is_ws Token.ws = true
is_ws _ = false

-- `lexIgnoreWhitespace`
unfoldable pub next_token : Parser → Parser
next_token p = let q = next p in if is_ws q.tok then next q else q

-- The new root that the loop of `Parse` assigns.
unfoldable pub with_operator : Expr → Token → Expr → Expr
with_operator (binary_expr o l r) op rhs =
    if ltb (precedence o) (precedence op)
    then binary_expr o l (binary_expr op r rhs)
    else binary_expr op (binary_expr o l r) rhs
with_operator e op rhs = binary_expr op e rhs

-- `parseFieldExpr` behind a first token that is no parenthesis.
unfoldable pub parse_term : Parser → Result (Expr × Parser)
unfolding next_token
parse_term p =
    let p₁ = next_token p in
    let p₂ = next_token p₁ in
    let p₃ = next_token p₂ in
    let with_field : Result (Expr × Parser) = (elim (p₃.tok) [
      | Token.string ↦ ok (field_expr p₁.lit p₃.lit, p₃)
      | _ ↦ err (expected_term (tokstr p₃.tok p₃.lit))
    ]) in
    let with_default : Result (Expr × Parser) = ok (field_expr p.default_field p₁.lit, unlex p₂) in
    elim (p₁.tok) [
      | Token.string ↦ elim (p₂.tok) [ Token.colon ↦ with_field | _ ↦ with_default ]
      | _ ↦ err (expected_field (tokstr p₁.tok p₁.lit))
    ]

-- `Expect an RPAREN at the end.`
abbrev pub close_paren : Expr → Parser → Result (Expr × Parser)
close_paren e p =
    let q = next_token p in
    elim (q.tok) [
      | Token.rparen ↦ ok (paren_expr e, q)
      | _ ↦ err (expected_rparen (tokstr q.tok q.lit))
    ]

unfoldable mutual
  pub parse : ℕ → Parser → Result (Expr × Parser)
  parse zero p = out_of_fuel
  parse (suc f) p =
      let q = next_token p in
      elim (q.tok) [
        | Token.eof ↦ ok (nil, q)
        | _ ↦ parse_field_expr f (unlex q) >>= λ (e, r). parse_loop f e r
      ]

  -- The `for` loop, with the expression so far.
  pub parse_loop : ℕ → Expr → Parser → Result (Expr × Parser)
  parse_loop zero e p = out_of_fuel
  parse_loop (suc f) e p =
      let q = next_token p in
      let op = if is_operator q.tok then q.tok else Token.and in
      let r = if is_operator q.tok then q else unlex q in
      elim (q.tok) [
        | Token.eof ↦ ok (e, q)
        | Token.rparen ↦ ok (e, unlex q)
        | _ ↦ parse_field_expr f r >>= λ (rhs, s). parse_loop f (with_operator e op rhs) s
      ]

  pub parse_field_expr : ℕ → Parser → Result (Expr × Parser)
  parse_field_expr zero p = out_of_fuel
  parse_field_expr (suc f) p =
      let q = next_token p in
      elim (q.tok) [
        | Token.lparen ↦ parse f q >>= λ (e, r). close_paren e r
        | _ ↦ parse_term (unlex q)
      ]
