-- ===== src/Command/Tests.antt =====
-- The command with its default flags: where all goes well, and where the query server does not start;
-- and a configuration for TLS.
use ekanite.Prelude.{
  ℕ, zero, ◌≡◌, refl, Bool, true, false, List, [], ◌∷◌, Option, none, some, Bytes, codes, equal,
}
use ekanite.Command.{
  Flags, defaults, Action, start_status, open_engine, start_query, start_http, start_batcher,
  drain_errors, new_collector, start_collector, wait_for_signals, close_engine, fatal, stop_profile,
  start_profile, attempt, start_tcp, start_tcp_collector, start_udp_collector, main, tls_of_flags,
}
use ekanite.Command.Tls.{Certificates, new_tls_config}
use ekanite.Command.Guard.{is_guarded, main-guarded}
use ekanite.Command.Plan.{follow, main-plan}

program : Unit {0}
unfolding main start_tcp start_tcp_collector start_udp_collector start_profile stop_profile attempt
    tls_of_flags equal follow new_tls_config
program = tt

abbrev query_fails : Action ℕ → Bool
query_fails (start_query iface) = true
query_fails _ = false

abbrev run : (Action ℕ → Bool) → Flags → List (Action ℕ) × Option (Unit {0})
run fails = main fails (λ path. some path) (λ text. some 168) (λ pem key. none)

all_well : run (λ a. false) defaults ≡ (
  start_status (codes "localhost:9951")
      ∷ open_engine (codes "/var/opt/ekanite") 4 168
      ∷ start_query (codes "localhost:9950")
      ∷ start_http (codes "localhost:8080")
      ∷ start_batcher 300 1000000000 1000
      ∷ drain_errors
      ∷ new_collector (codes "tcp") (codes "localhost:5514") (codes "syslog") none
      ∷ start_collector (codes "tcp")
      ∷ wait_for_signals
      ∷ close_engine
      ∷ [],
  some tt,
)
unfolding program
all_well = refl

-- Where the certificate cannot be used, the process ends before the collector is made.
no_tls :
    (run
      (λ a. false)
      (record defaults {
        diag_iface = [];
        query_iface = [];
        query_iface_http = [];
        ca_pem_path = codes "pem";
        ca_key_path = codes "key";
      })).0
    ≡ open_engine (codes "/var/opt/ekanite") 4 168
      ∷ start_batcher 300 1000000000 1000
      ∷ drain_errors
      ∷ fatal
      ∷ []
unfolding program
no_tls = refl

main-plan_example : run query_fails defaults ≡ (
  start_status (codes "localhost:9951")
      ∷ open_engine (codes "/var/opt/ekanite") 4 168
      ∷ start_query (codes "localhost:9950")
      ∷ fatal
      ∷ [],
  none,
)
unfolding program
main-plan_example =
    main-plan query_fails (λ path. some path) (λ text. some 168) (λ pem key. none) defaults
      (codes "/var/opt/ekanite") 168 none refl refl refl

main-guarded_example : is_guarded query_fails (run query_fails defaults).0 ≡ true
main-guarded_example =
    main-guarded query_fails (λ path. some path) (λ text. some 168) (λ pem key. none) defaults

-- The bytes of a file are its name, and a certificate is what begins with a 0.
abbrev der : Bytes → Option ℕ
der (zero ∷ n ∷ []) = some n
der _ = none

abbrev certificates : Certificates ℕ ℕ
certificates = record { read_file = λ path. some path; parse_certificate = der; parse_key = der }

tls_made :
    new_tls_config certificates (0 ∷ 1 ∷ []) (0 ∷ 2 ∷ [])
    ≡ some (record { certificate = 0 ∷ 1 ∷ []; private_key = 2; client_cas = 1 ∷ [] })
unfolding program
tls_made = refl

tls_refused : new_tls_config certificates (codes "-----BEGIN") (0 ∷ 2 ∷ []) ≡ none
unfolding program
tls_refused = refl
