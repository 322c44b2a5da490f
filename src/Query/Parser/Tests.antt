-- ===== src/Query/Parser/Tests.antt =====
-- Runs of `Parse`, some of them from query/parser_test.go, and an instance of each theorem.
use ekanite.Prelude.{
  ◌*◌, ◌+◌, ◌≡◌, ◌≢◌, refl, Bool, false, List, [], ◌∷◌, Bytes, codes, length, equal, All,
}
use ekanite.Query.Token.{Token}
use ekanite.Query.Lexer.{lex}
use ekanite.Query.Parser.{
  Expr, field_expr, binary_expr, expected_rparen, Result, ok, err, out_of_fuel, new_parser, next,
  next_token, with_operator, parse_term, parse, parse_loop, parse_field_expr, ◌>>=◌,
}
use ekanite.Query.Parser.Fuel.{parse-terminates}
use ekanite.Query.Parser.Precedence.{IsOperand, IsAndOr, chain, holds, some_group, chain-holds}

abbrev default_field : Bytes
default_field = codes "defField"

abbrev parsed : Bytes → Result Expr
parsed s = parse (2 * length s + 2) (new_parser s default_field) >>= λ (e, p). ok e

abbrev term : Bytes → Expr
term s = field_expr default_field s

parsed_implicit_and :
    parsed (codes "sshd pamd")
    ≡ ok (binary_expr Token.and (term (codes "sshd")) (term (codes "pamd")))
unfolding parse parse_loop parse_field_expr parse_term next_token next lex with_operator
parsed_implicit_and = refl

parsed_field :
    parsed (codes "sourceip:192.168.1.22")
    ≡ ok (field_expr (codes "sourceip") (codes "192.168.1.22"))
unfolding parse parse_loop parse_field_expr parse_term next_token next lex with_operator
parsed_field = refl

parsed_precedence :
    parsed (codes "a OR b AND c")
    ≡ ok (
        binary_expr Token.or
          (term (codes "a"))
          (binary_expr Token.and (term (codes "b")) (term (codes "c"))))
unfolding parse parse_loop parse_field_expr parse_term next_token next lex with_operator
parsed_precedence = refl

-- The tree is turned at its root only: the NOT takes the whole AND as its left operand.
parsed_not :
    parsed (codes "a OR b AND c NOT d")
    ≡ ok (
        binary_expr Token.or (term (codes "a")) (
          binary_expr Token.not
            (binary_expr Token.and (term (codes "b")) (term (codes "c")))
            (term (codes "d"))))
unfolding parse parse_loop parse_field_expr parse_term next_token next lex with_operator
parsed_not = refl

-- What follows a parenthesis that was never opened is left out.
parsed_unopened : parsed (codes "a) b") ≡ ok (term (codes "a"))
unfolding parse parse_loop parse_field_expr parse_term next_token next lex with_operator
parsed_unopened = refl

parsed_unclosed : parsed (codes "(a:b") ≡ err (expected_rparen (codes "EOF"))
unfolding parse parse_loop parse_field_expr parse_term next_token next lex with_operator
parsed_unclosed = refl

parse-terminates_example :
    parse (2 * length (codes "(a OR b) c:d") + 2) (new_parser (codes "(a OR b) c:d") default_field)
    ≢ out_of_fuel
parse-terminates_example = parse-terminates (codes "(a OR b) c:d") default_field

-- a OR b AND c
abbrev rest_of_query : List (Token × Expr)
rest_of_query = (Token.or, term (codes "b")) ∷ (Token.and, term (codes "c")) ∷ []

abbrev matches_a : Expr → Bool
matches_a (field_expr field t) = equal t (codes "a")
matches_a _ = false

chain-holds_example :
    holds matches_a (chain (term (codes "a")) rest_of_query)
    ≡ some_group matches_a (holds matches_a (term (codes "a"))) rest_of_query
unfolding IsOperand IsAndOr
chain-holds_example =
    chain-holds matches_a (term (codes "a")) rest_of_query IsOperand_a IsAndOr_rest
  where
    IsOperand_a : IsOperand (term (codes "a"))
    IsOperand_a = tt

    IsAndOr_rest : All IsAndOr rest_of_query
    IsAndOr_rest = (tt, (tt, tt))
