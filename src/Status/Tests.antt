-- ===== src/Status/Tests.antt =====
-- A service with two providers, one of which fails, and requests of status/service_test.go.
use ekanite.Prelude.{
  ℕ, ◌≡◌, refl, false, Bool, List, [], ◌∷◌, ◌++◌, Option, none, some, Bytes, codes, ◌⊎◌, inl, equal,
  if◌then◌else◌, zero, suc,
}
use ekanite.System.{ok, panic}
use ekanite.Status.{
  Service, Effect, add_header, write, write_header, profile, new_service, start, register, listener,
  has_prefix, version_header, get, put, statuses, handle_status, serve_http, serve_pprof,
  serve_expvar, expvar_entries,
}
use ekanite.Status.Registry.{Use, IsReached, reached_registry}
use ekanite.Status.Answers.{serve_http-failed}

program : Unit {0}
unfolding start register handle_status statuses put get version_header has_prefix serve_http
    serve_pprof serve_expvar expvar_entries equal
program = tt

-- A listener and a provider are numbers; the provider 0 fails.
abbrev status : ℕ → Option ℕ
status zero = none
status (suc n) = some n

-- The keys, with a blank between them if the answer is to be pretty.
abbrev marshal : Bool → List (Bytes × ℕ) → Bytes ⊎ Bytes
marshal pretty [] = inl (codes "{}")
marshal pretty ((k, v) ∷ m) = inl ((if pretty then codes " " else []) ++ k)

abbrev fresh : Service ℕ ℕ
fresh = new_service (codes "localhost:0") 5

abbrev started : Service ℕ ℕ
started = record fresh { ln = some 3 }

starting : start (λ a. some 3) fresh ≡ ok started
unfolding program
starting = refl

closing : (listener fresh ≡ panic) × (listener started ≡ ok 3)
closing = (refl, refl)

reached_registry_example :
    (register (codes "engine") 1 started ≡ panic)
    × (handle_status status
          (λ m. m)
          marshal
          false
          started
          (record { path = codes "/status"; form = some (codes "pretty" ∷ []) })
        ≡ write (codes "{}") ∷ [])
reached_registry_example =
    reached_registry status (λ m. m) marshal false (codes "localhost:0") 5 started (codes "engine")
      1 (record { path = codes "/status"; form = some (codes "pretty" ∷ []) })
      (IsReached.used IsReached.made (Use.started (λ a. some 3) starting))

abbrev two : List (Bytes × ℕ)
two = (codes "a", 1) ∷ (codes "b", 0) ∷ []

abbrev registered : Service ℕ ℕ
registered = record started { providers = some two }

abbrev answer : Service ℕ ℕ → Bytes → List Effect
answer s path =
    serve_http status (λ m. m) marshal false (λ k. k) ((codes "x", codes "1") ∷ []) s
      (record { path = path; form = some [] })

missing :
    answer fresh (codes "/")
    ≡ add_header (codes "X-EKANITE-VERSION") (codes "unknown") ∷ write_header 404 ∷ []
unfolding program
missing = refl

profiled :
    answer fresh (codes "/debug/pprof/symbol")
    ≡ add_header (codes "X-EKANITE-VERSION") (codes "unknown") ∷ profile (codes "Symbol") ∷ []
unfolding program
profiled = refl

one_status :
    answer (record started { providers = some ((codes "a", 1) ∷ []) }) (codes "/status")
    ≡ add_header (codes "X-EKANITE-VERSION") (codes "unknown") ∷ write (codes "a") ∷ []
unfolding program
one_status = refl

failed_status : answer registered (codes "/status") ≡ version_header [] ∷ write_header 500 ∷ []
unfolding has_prefix
failed_status =
    serve_http-failed status (λ m. m) marshal false (λ k. k) ((codes "x", codes "1") ∷ [])
      registered (record { path = codes "/status"; form = some [] }) two ((codes "a", 1) ∷ [])
      (codes "b") 0 [] refl refl refl refl
