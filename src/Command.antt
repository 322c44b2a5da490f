-- ===== src/Command.antt =====
-- cmd/ekanited/main.go: what the command does, in order, from its flags. The parts that it starts are
-- actions, and `fails` says which of them return an error; logging and GOMAXPROCS are left out, and a
-- signal comes.
pub mod Tls
pub mod Plan
pub mod Guard
mod Tests
use ekanite.Prelude.{
  ℕ, ◌*◌, ◌%◌, ◌^◌, Bool, true, false, ◌&&◌, not, List, [], ◌∷◌, ◌++◌, Option, none, some, Bytes,
  codes, equal, if◌then◌else◌,
}

-- The flags; an `int` is its 64 bits, and so is a `time.Duration`.
pub record Flags : Type 0 where
  pub datadir : Bytes
  pub batch_size : ℕ
  pub batch_timeout : ℕ
  pub index_max_pending : ℕ
  pub tcp_iface : Bytes
  pub udp_iface : Bytes
  pub diag_iface : Bytes
  pub ca_pem_path : Bytes
  pub ca_key_path : Bytes
  pub query_iface : Bytes
  pub query_iface_http : Bytes
  pub num_shards : ℕ
  pub retention_period : Bytes
  pub cpu_profile : Bytes
  pub mem_profile : Bytes
  pub input_format : Bytes

-- What the flags are where none is given.
abbrev pub defaults : Flags
defaults = record {
  datadir = codes "/var/opt/ekanite";
  batch_size = 300;
  batch_timeout = 1000;
  index_max_pending = 1000;
  tcp_iface = codes "localhost:5514";
  udp_iface = [];
  diag_iface = codes "localhost:9951";
  ca_pem_path = [];
  ca_key_path = [];
  query_iface = codes "localhost:9950";
  query_iface_http = codes "localhost:8080";
  num_shards = 4;
  retention_period = codes "168h";
  cpu_profile = [];
  mem_profile = [];
  input_format = codes "syslog";
}

-- What the command does; `fatal` is `log.Fatalf`, which ends the process.
pub data Action (Config : Type 0) : Type 0 where
  start_status : (iface : Bytes) → Action Config
  open_engine : (path : Bytes) (num_shards retention : ℕ) → Action Config
  start_query start_http : (iface : Bytes) → Action Config
  start_batcher : (size timeout max : ℕ) → Action Config
  drain_errors : Action Config
  new_collector : (proto iface format : Bytes) → Option Config → Action Config
  start_collector : (proto : Bytes) → Action Config
  create_file : (path : Bytes) → Action Config
  start_cpu_profile set_mem_rate wait_for_signals close_engine : Action Config
  stop_cpu_profile write_heap_profile fatal : Action Config

-- The actions so far, and `none` where the process has ended.
abbrev pub Run : Type 0 → Type 0 → Type 0
Run Config A = List (Action Config) × Option A

-- `prof`: which profiles are active.
pub record Prof : Type 0 where
  pub cpu : Bool
  pub mem : Bool

abbrev pub is_set : Bytes → Bool
is_set s = not (equal s [])

module _ {Config : Type 0} where
  infixl 5 ◌>>=◌ ◌>>◌
  abbrev pub ◌>>=◌ : {A B : Type 0} → Run Config A → (A → Run Config B) → Run Config B
  (done, none) >>= f = (done, none)
  (done, some a) >>= f = let (later, r) = f a in (done ++ later, r)

  abbrev pub ◌>>◌ : {B : Type 0} → Run Config (Unit {0}) → Run Config B → Run Config B
  m >> k = m >>= λ _. k

  abbrev pub pure : {A : Type 0} → A → Run Config A
  pure a = ([], some a)

  abbrev pub exit : {A : Type 0} → Run Config A
  exit = (fatal ∷ [], none)

  -- An action with no error, or one whose error is dropped.
  abbrev pub act : Action Config → Run Config (Unit {0})
  act a = (a ∷ [], some tt)

  -- `if b { … }`
  abbrev pub when : Bool → Run Config (Unit {0}) → Run Config (Unit {0})
  when b m = if b then m else pure tt

  -- `if err != nil { log.Fatalf(…) }` behind a value.
  abbrev pub need : {A : Type 0} → Option A → Run Config A
  need o = elim o [ none ↦ exit | some a ↦ pure a ]

-- `time.Duration(n) * time.Millisecond`
abbrev pub milliseconds : ℕ → ℕ
milliseconds n = n * 1000000 % 2 ^ 64

-- `abs` is `filepath.Abs`, `parse_duration` `time.ParseDuration`, and `tls_config` `newTLSConfig`.
module _ {Config : Type 0} (fails : Action Config → Bool) (abs : Bytes → Option Bytes)
    (parse_duration : Bytes → Option ℕ) (tls_config : Bytes → Bytes → Option Config) where
  -- An action, with `log.Fatalf` behind its error.
  unfoldable pub attempt : Action Config → Run Config (Unit {0})
  attempt a = elim (fails a) [ true ↦ (a ∷ fatal ∷ [], none) | false ↦ act a ]

  -- `startDiagServer`, `startQueryServer` and `startHTTPQueryServer`
  abbrev pub start_diag_server : Bytes → Run Config (Unit {0})
  start_diag_server iface = attempt (start_status iface)

  abbrev pub start_query_server : Bytes → Run Config (Unit {0})
  start_query_server iface = attempt (start_query iface)

  abbrev pub start_http_query_server : Bytes → Run Config (Unit {0})
  start_http_query_server iface = attempt (start_http iface)

  -- `startTCPCollector` and `startUDPCollector`, with the end of the process behind their errors.
  unfoldable pub start_tcp_collector : Bytes → Bytes → Option Config → Run Config (Unit {0})
  unfolding attempt
  start_tcp_collector iface format tls = do
    attempt (new_collector (codes "tcp") iface format tls)
    attempt (start_collector (codes "tcp"))

  unfoldable pub start_udp_collector : Bytes → Bytes → Run Config (Unit {0})
  unfolding attempt
  start_udp_collector iface format = do
    attempt (new_collector (codes "udp") iface format none)
    attempt (start_collector (codes "udp"))

  -- The configuration for TLS, where both paths are set.
  unfoldable pub tls_of_flags : Flags → Run Config (Option Config)
  unfolding equal
  tls_of_flags f =
      let needed : Run Config (Option Config) = (do
        config ← need (tls_config f.ca_pem_path f.ca_key_path)
        pure (some config)) in
      if is_set f.ca_pem_path && is_set f.ca_key_path then needed else pure none

  unfoldable pub start_tcp : Flags → Run Config (Unit {0})
  unfolding tls_of_flags start_tcp_collector
  start_tcp f = do tls ← tls_of_flags f; start_tcp_collector f.tcp_iface f.input_format tls

  -- `startProfile`
  unfoldable pub start_profile : Bytes → Bytes → Run Config Prof
  unfolding attempt equal
  start_profile cpu_profile mem_profile = do
    when (is_set cpu_profile) (do attempt (create_file cpu_profile); act start_cpu_profile)
    when (is_set mem_profile) (do attempt (create_file mem_profile); act set_mem_rate)
    pure (record { cpu = is_set cpu_profile; mem = is_set mem_profile })

  -- `stopProfile`
  unfoldable pub stop_profile : Prof → Run Config (Unit {0})
  stop_profile prof = do
    when prof.cpu (act stop_cpu_profile)
    when prof.mem (act write_heap_profile)

  -- `main`, behind the parse of the flags.
  unfoldable pub main : Flags → Run Config (Unit {0})
  unfolding start_tcp start_udp_collector start_profile stop_profile attempt equal
  main f = do
    abs_data_dir ← need (abs f.datadir)
    retention ← need (parse_duration f.retention_period)
    when (is_set f.diag_iface) (start_diag_server f.diag_iface)
    attempt (open_engine abs_data_dir f.num_shards retention)
    when (is_set f.query_iface) (start_query_server f.query_iface)
    when (is_set f.query_iface_http) (start_http_query_server f.query_iface_http)
    attempt (start_batcher f.batch_size (milliseconds f.batch_timeout) f.index_max_pending)
    act drain_errors
    when (is_set f.tcp_iface) (start_tcp f)
    when (is_set f.udp_iface) (start_udp_collector f.udp_iface f.input_format)
    prof ← start_profile f.cpu_profile f.mem_profile
    act wait_for_signals
    act close_engine
    stop_profile prof
