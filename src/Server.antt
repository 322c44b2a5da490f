-- ===== src/Server.antt =====
-- server.go: how a connection of the query server is handled. `search` is the `Searcher`: the text
-- of an error, or what comes over the channel. Logging is left out.
pub mod Http
pub mod Starting
pub mod Lines
pub mod Agreement
mod Tests
use ekanite.Prelude.{
  ℕ, zero, suc, Bool, true, false, List, [], ◌∷◌, ◌++◌, Option, none, some, Bytes, codes, equal,
  ◌==◌, length, if◌then◌else◌, ◌⊎◌, inl, inr,
}
use ekanite.Strings.{is_crlf, trim}

abbrev pub Searcher : Type 0
Searcher = Bytes → Bytes ⊎ List Bytes

-- `ReadString('\n')`: the text up to the first newline, with it, and what is left; an error where
-- the connection ends in front of one.
abbrev pub put_first : ℕ → Option (Bytes × Bytes) → Option (Bytes × Bytes)
put_first c none = none
put_first c (some (line, rest)) = some (c ∷ line, rest)

unfoldable pub read_string : Bytes → Option (Bytes × Bytes)
read_string [] = none
read_string (c ∷ s) =
    let later = read_string s in if c == b'\n' then some (c ∷ [], s) else put_first c later

-- The loop over the results.
abbrev pub write_results : List Bytes → Bytes
write_results [] = []
write_results (s ∷ rest) = (s ++ b'\n' ∷ []) ++ write_results rest

module _ (search : Searcher) where
  -- What is written for a query.
  abbrev pub respond : Bytes → Bytes
  respond query =
      elim (search query) [ inl error ↦ error | inr results ↦ write_results results ]
      ++ codes "\n\n"

  abbrev pub and_then : Bytes → Option Bytes → Option Bytes
  and_then out none = none
  and_then out (some more) = some (out ++ more)

  -- The loop, on fuel: what is written to the connection until it ends.
  unfoldable pub serve : ℕ → Bytes → Option Bytes
  unfolding read_string trim
  serve zero input = none
  serve (suc n) input = elim (read_string input) [
    | none ↦ some []
    | some (b, rest) ↦
        let query = trim is_crlf b in
        let more = serve n rest in if equal query [] then more else and_then (respond query) more
  ]

  -- `handleConnection`: each line takes a byte at least.
  unfoldable pub handle_connection : Bytes → Option Bytes
  unfolding serve
  handle_connection input = serve (suc (length input)) input
