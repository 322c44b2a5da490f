-- ===== src/Query/Parser/Fuel.antt =====
-- query/parser.go: the fuel of `Parse`.
use ekanite.Prelude.{ℕ, zero, suc, ◌+◌, ◌*◌, ◌≤◌, ◌≢◌, subst, Bytes, length, if◌then◌else◌, arith}
use ekanite.Query.Token.{Token, is_operator}
use ekanite.Query.Parser.{
  Expr, nil, Result, ok, out_of_fuel, ◌>>=◌, Parser, new_parser, unlex, next_token, with_operator,
  parse_term, close_paren, parse, parse_loop, parse_field_expr,
}
use ekanite.Query.Parser.Unread.{
  size, Buffered, next_token-HasRead, HasRead-Buffered, HasRead-size, Buffered-unlex, Within,
  weaken, Within-bind, close_paren-Within, parse_term-Within,
}

-- That the fuel is enough for each of the three functions.
abbrev ParseEnough : ℕ → Type 0
ParseEnough f = (p : Parser) → Buffered p → 2 * size p + 2 ≤ f → Within 0 (size p) (parse f p)

abbrev LoopEnough : ℕ → Type 0
LoopEnough f =
    (e : Expr) (p : Parser) → Buffered p → 2 * size p + 2 ≤ f → Within 0 (size p) (parse_loop f e p)

abbrev FieldEnough : ℕ → Type 0
FieldEnough f =
    (p : Parser) → Buffered p → 2 * size p + 1 ≤ f → Within 1 (size p) (parse_field_expr f p)

parse-Within : (f : ℕ) → FieldEnough f → LoopEnough f → ParseEnough (suc f)
unfolding parse parse_loop parse_field_expr Within
parse-Within f field loop p b l =
    let q = next_token p in
    let h = next_token-HasRead p b in
    let z = HasRead-size (size p) q h in
    by_token q (omega (arith, h.shorter)) (omega (arith, h.shorter, z))
      (Buffered-unlex (size p) q h) (HasRead-Buffered (size p) q h) q.tok
  where
    rest :
        (m : Result (Expr × Parser))
        → Within 1 (size p) m
        → Within 0 (size p) (m >>= λ (e, r). parse_loop f e r)
    rest m w = Within-bind 1 (size p) (size p) 0 m _ w (λ e r s b.
        weaken 0 (size r) 0 (size p) (parse_loop f e r) (omega (arith, s))
          (loop e r b (omega (arith, l, s))))

    by_token :
        (q : Parser)
        → size (unlex q) ≤ size p
        → size q ≤ size p
        → Buffered (unlex q)
        → Buffered q
        → (t : Token)
        → Within 0 (size p) (elim t [
          | Token.eof ↦ ok (nil, q)
          | _ ↦ parse_field_expr f (unlex q) >>= λ (e, r). parse_loop f e r
        ])
    by_token q s s' b b' Token.eof = (omega (arith, s'), b')
    by_token q s s' b b' _ = rest (parse_field_expr f (unlex q)) (
        weaken 1 (size (unlex q)) 1 (size p) (parse_field_expr f (unlex q)) (omega (arith, s))
          (field (unlex q) b (omega (arith, l, s))))

parse_loop-Within : (f : ℕ) → FieldEnough f → LoopEnough f → LoopEnough (suc f)
unfolding parse parse_loop parse_field_expr Within
parse_loop-Within f field loop e p b l =
    let q = next_token p in
    let h = next_token-HasRead p b in
    let z = HasRead-size (size p) q h in
    by_token q (omega (arith, h.shorter)) (omega (arith, h.shorter, z))
      (Buffered-unlex (size p) q h) (HasRead-Buffered (size p) q h) q.tok
  where
    rest :
        (op : Token) (m : Result (Expr × Parser))
        → Within 1 (size p) m
        → Within 0 (size p) (m >>= λ (rhs, r). parse_loop f (with_operator e op rhs) r)
    rest op m w = Within-bind 1 (size p) (size p) 0 m _ w (λ rhs r s b.
        weaken 0 (size r) 0 (size p) (parse_loop f (with_operator e op rhs) r) (omega (arith, s))
          (loop (with_operator e op rhs) r b (omega (arith, l, s))))

    operand :
        (op : Token) (r : Parser)
        → size r ≤ size p
        → Buffered r
        → Within 0
            (size p)
            (parse_field_expr f r >>= λ (rhs, r'). parse_loop f (with_operator e op rhs) r')
    operand op r s b = rest op (parse_field_expr f r) (
        weaken 1 (size r) 1 (size p) (parse_field_expr f r) (omega (arith, s))
          (field r b (omega (arith, l, s))))

    by_token :
        (q : Parser)
        → size (unlex q) ≤ size p
        → size q ≤ size p
        → Buffered (unlex q)
        → Buffered q
        → (t : Token)
        → Within 0 (size p) (
            let op = if is_operator t then t else Token.and in
            let r = if is_operator t then q else unlex q in
            elim t [
              | Token.eof ↦ ok (e, q)
              | Token.rparen ↦ ok (e, unlex q)
              | _ ↦ parse_field_expr f r >>= λ (rhs, s). parse_loop f (with_operator e op rhs) s
            ])
    by_token q s s' b b' Token.eof = (omega (arith, s'), b')
    by_token q s s' b b' Token.rparen = (omega (arith, s), b)
    by_token q s s' b b' Token.and = operand Token.and q s' b'
    by_token q s s' b b' Token.or = operand Token.or q s' b'
    by_token q s s' b b' Token.not = operand Token.not q s' b'
    by_token q s s' b b' _ = operand Token.and (unlex q) s b

parse_field_expr-Within : (f : ℕ) → ParseEnough f → FieldEnough (suc f)
unfolding parse parse_loop parse_field_expr Within
parse_field_expr-Within f whole p b l =
    let q = next_token p in
    let h = next_token-HasRead p b in
    let z = HasRead-size (size p) q h in
    by_token q (omega (arith, h.shorter)) (λ n. omega (arith, h.shorter, z, n))
      (Buffered-unlex (size p) q h) (HasRead-Buffered (size p) q h) q.tok h.nonempty
  where
    by_token :
        (q : Parser)
        → size (unlex q) ≤ size p
        → (1 ≤ length q.lit → size q + 1 ≤ size p)
        → Buffered (unlex q)
        → Buffered q
        → (t : Token) → (t ≢ Token.eof → 1 ≤ length q.lit)
        → Within 1 (size p) (elim t [
          | Token.lparen ↦ parse f q >>= λ (e, r). close_paren e r
          | _ ↦ parse_term (unlex q)
        ])
    by_token q s s' b b' Token.lparen n =
        let s₁ : size q + 1 ≤ size p = s' (n (λ e. ground arith)) in
        Within-bind 0 (size q) (size p) 1 (parse f q) _ (whole q b' (omega (arith, l, s₁)))
          (λ e r s₂ b₂. close_paren-Within (size p) e r (omega (arith, s₁, s₂)) b₂)
    by_token q s s' b b' _ n = parse_term-Within (size p) (unlex q) b s

enough : (f : ℕ) → ParseEnough f × LoopEnough f × FieldEnough f
enough zero = ((λ p b l. ground arith), (λ e p b l. ground arith), (λ p b l. ground arith))
enough (suc f) =
    let (whole, loop, field) = enough f in
    (parse-Within f field loop, parse_loop-Within f field loop, parse_field_expr-Within f whole)

-- A query of any length is parsed with two units of fuel for each of its runes, and two more: the
-- recursive descent ends on every text.
pub parse-terminates :
    (runes field : Bytes) → parse (2 * length runes + 2) (new_parser runes field) ≢ out_of_fuel
unfolding Within
parse-terminates runes field e =
    subst (Within 0 (length runes + 0)) e
      ((enough (2 * length runes + 2)).0 (new_parser runes field) (λ e. ground arith) (omega arith))
