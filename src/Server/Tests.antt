-- ===== src/Server/Tests.antt =====
-- Connections and requests with a searcher that finds one word.
use ekanite.Prelude.{
  ℕ, Bool, ◌+◌, ◌≡◌, refl, true, [], ◌∷◌, Option, none, some, Bytes, codes, equal, if◌then◌else◌,
  none_of, none_of-All, ◌==◌, inl, inr, arith,
}
use ekanite.Strings.{trim, trim_right, trim_left}
use ekanite.Server.{Searcher, serve, read_string, handle_connection}
use ekanite.Server.Lines.{IsLine, handle_connection-answers}
use ekanite.Server.Starting.{serving, closed, new_server, new_http_server, start, start_http}
use ekanite.Server.Http.{Page, serve_http}
use ekanite.Server.Agreement.{serve_http-handle_connection, Agree}

program : Unit {0}
unfolding handle_connection serve read_string trim trim_right trim_left serve_http equal
program = tt

abbrev search : Searcher
search query =
    if equal query (codes "sshd") then inr (codes "up" ∷ codes "down" ∷ []) else inl (codes "bad")

line : (s : Bytes) → none_of (λ x. x == b'\n') s ≡ true → IsLine s
line = none_of-All (λ x. x == b'\n')

handle_connection-answers_example :
    handle_connection search (codes "sshd\r\n\r\nx\nsshd") ≡ some (codes "up\ndown\n\n\nbad\n\n")
unfolding program
handle_connection-answers_example =
    handle_connection-answers search (codes "sshd\r" ∷ codes "\r" ∷ codes "x" ∷ []) (codes "sshd")
      (line (codes "sshd\r") refl, (line (codes "\r") refl, (line (codes "x") refl, tt)))
      (line (codes "sshd") refl)

abbrev show : Page → Bytes × Option Bytes
show p = (p.headline, none)

serve_http-handle_connection_example :
    Agree show
      (λ n. (b'0' + n) ∷ [])
      (codes "e")
      (codes "n")
      (codes "d")
      (codes "sshd")
      (serve_http show
        (λ n. (b'0' + n) ∷ [])
        (codes "e")
        (codes "n")
        (codes "d")
        search
        (record { method = codes "POST"; form = some (codes "sshd") }))
      (some (codes "up\ndown\n\n\n"))
      (inr (codes "up" ∷ codes "down" ∷ []))
unfolding program
serve_http-handle_connection_example =
    serve_http-handle_connection show (λ n. (b'0' + n) ∷ []) (codes "e") (codes "n") (codes "d")
      search (codes "sshd") (line (codes "sshd") refl) refl (λ e. ground arith)

starting : Unit {0}
unfolding start start_http
starting = tt

bound :
    start {Addr = ℕ} (λ a. some 1) (new_server (codes "x"))
    ≡ (record { iface = codes "x"; addr = some 1 }, serving)
unfolding starting
bound = refl

bad_template :
    start_http {Addr = ℕ} (λ a. some 1) {Template = Bool} none (new_http_server (codes "x"))
    ≡ (record { iface = codes "x"; addr = some 1; template = none }, closed)
unfolding starting
bad_template = refl
