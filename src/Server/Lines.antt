-- ===== src/Server/Lines.antt =====
-- The queries of a connection of server.go.
use ekanite.Prelude.{
  ℕ, zero, suc, ◌<◌, ◌≡◌, refl, Bool, true, false, List, [], ◌∷◌, ◌++◌, none, some, Bytes, equal,
  ◌==◌, length, length-append, if◌then◌else◌, All, arith,
}
use ekanite.Strings.{is_crlf, trim, trim-snoc}
use ekanite.Server.{Searcher, read_string, respond, and_then, serve, handle_connection}

read_string-line :
    (l rest : Bytes)
    → All (λ x. (x == b'\n') ≡ false) l
    → read_string (l ++ b'\n' ∷ rest) ≡ some (l ++ b'\n' ∷ [], rest)
unfolding read_string
read_string-line [] rest h = refl
read_string-line (x ∷ l) rest (h, hs) = ground (arith, h, read_string-line l rest hs)

read_string-none : (l : Bytes) → All (λ x. (x == b'\n') ≡ false) l → read_string l ≡ none
unfolding read_string
read_string-none [] h = refl
read_string-none (x ∷ l) (h, hs) = ground (arith, h, read_string-none l hs)

-- A text is lines that end with a newline each, and what has none.
abbrev pub text_of : List Bytes → Bytes → Bytes
text_of [] tail = tail
text_of (l ∷ ls) tail = l ++ b'\n' ∷ text_of ls tail

abbrev pub IsLine : Bytes → Type 0
IsLine l = All (λ x. (x == b'\n') ≡ false) l

module _ (search : Searcher) where
  -- The answers to the lines that have a query.
  abbrev pub answers : List Bytes → Bytes
  answers [] = []
  answers (l ∷ ls) =
      let query = trim is_crlf l in
      let more = answers ls in if equal query [] then more else respond search query ++ more

  if-some :
      (b : Bool) (more out : Bytes)
      → (if b then some more else and_then search out (some more))
        ≡ some (if b then more else out ++ more)
  if-some true more out = refl
  if-some false more out = refl

  serve-answers :
      (n : ℕ) (ls : List Bytes) (tail : Bytes)
      → All IsLine ls
      → IsLine tail
      → length (text_of ls tail) < n
      → serve search n (text_of ls tail) ≡ some (answers ls)
  unfolding serve
  serve-answers zero ls tail h t f = absurd (omega (arith, f))
  serve-answers (suc n) [] tail h t f = rw (read_string-none tail t, serve) refl
  serve-answers (suc n) (l ∷ ls) tail (h, hs) t f =
      let ih =
        serve-answers n ls tail hs t
          (omega (arith, f, length-append l (b'\n' ∷ text_of ls tail))) in
      let query = trim is_crlf l in
      rw (read_string-line l (text_of ls tail) h, serve, trim-snoc is_crlf l b'\n' refl, ih)
        (if-some (equal query []) (answers ls) (respond search query))

  -- The connection gets the answers to its queries, in their order: a line is a query unless nothing
  -- but carriage returns is in it, and what comes behind the last newline is none.
  pub handle_connection-answers :
      (ls : List Bytes) (tail : Bytes)
      → All IsLine ls
      → IsLine tail
      → handle_connection search (text_of ls tail) ≡ some (answers ls)
  unfolding handle_connection
  handle_connection-answers ls tail h t =
      serve-answers (suc (length (text_of ls tail))) ls tail h t (omega arith)
