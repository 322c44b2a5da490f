-- ===== src/Command/Plan.antt =====
-- The command as a list of actions, of which the first that fails is the last but for the end of the
-- process.
use ekanite.Prelude.{
  ℕ, ◌≡◌, refl, ap, ap₂, ◌∙◌, Bool, true, false, ◌&&◌, List, [], ◌∷◌, ◌++◌, append_assoc,
  append-nil, Option, none, some, Bytes, codes, if◌then◌else◌, Bool-cases, inl, inr,
}
use ekanite.Command.{
  Flags, Action, start_status, open_engine, start_query, start_http, start_batcher, drain_errors,
  new_collector, start_collector, create_file, start_cpu_profile, set_mem_rate, wait_for_signals,
  close_engine, stop_cpu_profile, write_heap_profile, fatal, Run, Prof, is_set, ◌>>=◌, ◌>>◌, pure,
  act, when, attempt, start_tcp, start_udp_collector, start_profile, stop_profile,
  start_tcp_collector, milliseconds, main, tls_of_flags,
}

-- Those of its errors that the command does not look at do not end it.
abbrev pub must_succeed : {Config : Type 0} → Action Config → Bool
must_succeed drain_errors = false
must_succeed start_cpu_profile = false
must_succeed set_mem_rate = false
must_succeed wait_for_signals = false
must_succeed close_engine = false
must_succeed stop_cpu_profile = false
must_succeed write_heap_profile = false
must_succeed fatal = false
must_succeed _ = true

module _ {Config : Type 0} (fails : Action Config → Bool) where
  -- The actions of a plan, up to the first that must succeed and fails.
  unfoldable pub follow : List (Action Config) → Run Config (Unit {0})
  follow [] = pure tt
  follow (a ∷ plan) =
      let (later, r) = follow plan in
      elim (must_succeed a && fails a) [ true ↦ (a ∷ fatal ∷ [], none) | false ↦ (a ∷ later, r) ]

  Run-eta : (m : Run Config (Unit {0})) → m ≡ (m.0, m.1)
  Run-eta m = refl

  follow-append : (p q : List (Action Config)) → (follow p >> follow q) ≡ follow (p ++ q)
  unfolding follow
  follow-append [] q = refl
  follow-append (a ∷ p) q = go (must_succeed a && fails a) (follow p) (follow-append p q)
    where
      go :
          (b : Bool) (m : Run Config (Unit {0})) {n : Run Config (Unit {0})}
          → (m >> follow q) ≡ n
          → ((elim b as (λ _. Run Config (Unit {0})) [
            | true ↦ (a ∷ fatal ∷ [], none)
            | false ↦ (a ∷ m.0, m.1)
          ])
              >> follow q)
            ≡ (elim b [ true ↦ (a ∷ fatal ∷ [], none) | false ↦ (a ∷ n.0, n.1) ])
      go true m e = refl
      go false (done, none) e = ap (λ (x : Run Config (Unit {0})). (a ∷ x.0, x.1)) e
      go false (done, some _) e = ap (λ (x : Run Config (Unit {0})). (a ∷ x.0, x.1)) e

  >>-follow :
      {m k : Run Config (Unit {0})} (p q : List (Action Config))
      → m ≡ follow p
      → k ≡ follow q
      → (m >> k) ≡ follow (p ++ q)
  >>-follow p q e e' = ap₂ ◌>>◌ e e' ∙ follow-append p q

  -- The plan where a test holds, and nothing where it does not.
  abbrev pub optional : Bool → List (Action Config) → List (Action Config)
  optional b p = if b then p else []

  when-follow :
      (b : Bool) (p : List (Action Config)) {m : Run Config (Unit {0})}
      → m ≡ follow p
      → when b m ≡ follow (optional b p)
  unfolding follow
  when-follow true p e = e
  when-follow false p e = refl

  act-follow : (a : Action Config) → must_succeed a ≡ false → act a ≡ follow (a ∷ [])
  unfolding follow
  act-follow a h = rw (h, follow)

  >>=-assoc :
      {A B : Type 0} (m : Run Config A) (f : A → Run Config B) (g : B → Run Config (Unit {0}))
      → ((m >>= f) >>= g) ≡ (m >>= λ a. f a >>= g)
  >>=-assoc (done, none) f g = refl
  >>=-assoc {B = B} (done, some a) f g = go (f a)
    where
      go :
          (n : Run Config B)
          → ((done ++ n.0, n.1) >>= g) ≡ (let (later, r) = n >>= g in (done ++ later, r))
      go (later, none) = refl
      go (later, some b) = let (last, r) = g b in ap (λ l. (l, r)) (append_assoc done later last)

  module _ (abs : Bytes → Option Bytes) (parse_duration : Bytes → Option ℕ)
      (tls_config : Bytes → Bytes → Option Config) where
    attempt-follow :
        (a : Action Config)
        → must_succeed a ≡ true
        → attempt fails abs parse_duration tls_config a ≡ follow (a ∷ [])
    unfolding follow attempt
    attempt-follow a h = elim (Bool-cases (fails a)) [
      | inl failed ↦ rw (failed, h, follow, attempt)
      | inr done ↦ rw (done, h, follow, attempt)
    ]

    abbrev pub collector_plan : (proto iface format : Bytes) → Option Config → List (Action Config)
    collector_plan proto iface format tls =
        new_collector proto iface format tls ∷ start_collector proto ∷ []

    abbrev pub concat : List (List (Action Config)) → List (Action Config)
    concat [] = []
    concat (p ∷ ps) = p ++ concat ps

    -- The end of the plan, from the profiles on.
    abbrev pub last_steps : Flags → List (List (Action Config))
    last_steps f =
        optional (is_set f.cpu_profile) (create_file f.cpu_profile ∷ start_cpu_profile ∷ [])
        ∷ optional (is_set f.mem_profile) (create_file f.mem_profile ∷ set_mem_rate ∷ [])
        ∷ (wait_for_signals ∷ [])
        ∷ (close_engine ∷ [])
        ∷ optional (is_set f.cpu_profile) (stop_cpu_profile ∷ [])
        ∷ optional (is_set f.mem_profile) (write_heap_profile ∷ [])
        ∷ []

    -- The plan of the flags, with the data directory, the retention period and the configuration for
    -- TLS, which is there where both of its paths are.
    abbrev pub steps :
        (dir : Bytes) (retention : ℕ) → Option Config → Flags → List (List (Action Config))
    steps dir retention tls f =
        optional (is_set f.diag_iface) (start_status f.diag_iface ∷ [])
        ∷ (open_engine dir f.num_shards retention ∷ [])
        ∷ optional (is_set f.query_iface) (start_query f.query_iface ∷ [])
        ∷ optional (is_set f.query_iface_http) (start_http f.query_iface_http ∷ [])
        ∷ (start_batcher f.batch_size (milliseconds f.batch_timeout) f.index_max_pending ∷ [])
        ∷ (drain_errors ∷ [])
        ∷ optional (is_set f.tcp_iface)
            (collector_plan (codes "tcp") f.tcp_iface f.input_format tls)
        ∷ optional (is_set f.udp_iface)
            (collector_plan (codes "udp") f.udp_iface f.input_format none)
        ∷ last_steps f

    stop_profile-follow :
        (c m : Bool)
        → stop_profile fails abs parse_duration tls_config (record { cpu = c; mem = m })
          ≡ follow
              (optional c (stop_cpu_profile ∷ []) ++ (optional m (write_heap_profile ∷ []) ++ []))
    unfolding stop_profile
    stop_profile-follow c m =
        >>-follow (optional c (stop_cpu_profile ∷ [])) (optional m (write_heap_profile ∷ []) ++ [])
          (when-follow c _ (act-follow stop_cpu_profile refl))
          (rw (append-nil (optional m (write_heap_profile ∷ [])))
            (when-follow m _ (act-follow write_heap_profile refl)))

    collector-follow :
        (proto iface format : Bytes) (tls : Option Config)
        → (attempt fails abs parse_duration tls_config (new_collector proto iface format tls)
            >> attempt fails abs parse_duration tls_config (start_collector proto))
          ≡ follow (collector_plan proto iface format tls)
    collector-follow proto iface format tls =
        >>-follow (new_collector proto iface format tls ∷ []) (start_collector proto ∷ [])
          (attempt-follow _ refl) (attempt-follow _ refl)

    profile-follow :
        (path : Bytes) (a : Action Config)
        → must_succeed a ≡ false
        → when
            (is_set path)
            (attempt fails abs parse_duration tls_config (create_file path) >> act a)
          ≡ follow (optional (is_set path) (create_file path ∷ a ∷ []))
    profile-follow path a h =
        when-follow (is_set path) _
          (>>-follow (create_file path ∷ []) (a ∷ []) (attempt-follow _ refl) (act-follow a h))

    last_steps-follow :
        (f : Flags)
        → (start_profile fails abs parse_duration tls_config f.cpu_profile f.mem_profile >>= λ prof.
            act wait_for_signals
            >> (act close_engine >> stop_profile fails abs parse_duration tls_config prof))
          ≡ follow (concat (last_steps f))
    unfolding start_profile
    last_steps-follow f =
        let g = λ (prof : Prof).
          act wait_for_signals
          >> (act close_engine >> stop_profile fails abs parse_duration tls_config prof) in
        let prof : Run Config Prof =
          pure (record { cpu = is_set f.cpu_profile; mem = is_set f.mem_profile }) in
        let profile = λ (path : Bytes) (a : Action Config).
          when (is_set path)
            (attempt fails abs parse_duration tls_config (create_file path) >> act a) in
        let cpu : Run Config (Unit {0}) = profile f.cpu_profile start_cpu_profile in
        let mem : Run Config (Unit {0}) = profile f.mem_profile set_mem_rate in
        >>=-assoc cpu (λ _. mem >>= λ _. prof) g
        ∙ >>-follow _ _ (profile-follow f.cpu_profile start_cpu_profile refl) (
            >>=-assoc mem (λ _. prof) g
            ∙ >>-follow _ _ (profile-follow f.mem_profile set_mem_rate refl) (
                >>-follow (wait_for_signals ∷ []) _ (act-follow _ refl) (
                  >>-follow (close_engine ∷ []) _ (act-follow _ refl)
                    (stop_profile-follow (is_set f.cpu_profile) (is_set f.mem_profile)))))

    start_tcp-follow :
        (f : Flags) (tls : Option Config)
        → tls_of_flags fails abs parse_duration tls_config f ≡ pure tls
        → start_tcp fails abs parse_duration tls_config f
          ≡ follow (collector_plan (codes "tcp") f.tcp_iface f.input_format tls)
    unfolding start_tcp start_tcp_collector
    start_tcp-follow f tls t =
        rw (t) (collector-follow (codes "tcp") f.tcp_iface f.input_format tls)

    start_udp-follow :
        (f : Flags)
        → start_udp_collector fails abs parse_duration tls_config f.udp_iface f.input_format
          ≡ follow (collector_plan (codes "udp") f.udp_iface f.input_format none)
    unfolding start_udp_collector
    start_udp-follow f = collector-follow (codes "udp") f.udp_iface f.input_format none

    -- Where the data directory and the retention period can be read and the configuration for TLS, if
    -- its paths are set, can be made, the command does what its flags ask for in the order of `steps`,
    -- up to the first action that must succeed and fails: behind that the process ends, and nothing
    -- else is done.
    pub main-plan :
        (f : Flags) (dir : Bytes) (retention : ℕ) (tls : Option Config)
        → abs f.datadir ≡ some dir
        → parse_duration f.retention_period ≡ some retention
        → tls_of_flags fails abs parse_duration tls_config f ≡ pure tls
        → main fails abs parse_duration tls_config f ≡ follow (concat (steps dir retention tls f))
    unfolding main
    main-plan f dir retention tls h k t =
        rw (h, k, main)
          (>>-follow _ _ (when-follow (is_set f.diag_iface) _ (attempt-follow _ refl)) (
            >>-follow (open_engine dir f.num_shards retention ∷ []) _ (attempt-follow _ refl) (
              >>-follow _ _ (when-follow (is_set f.query_iface) _ (attempt-follow _ refl)) (
                >>-follow _ _ (when-follow (is_set f.query_iface_http) _ (attempt-follow _ refl)) (
                  >>-follow
                    (start_batcher f.batch_size (milliseconds f.batch_timeout) f.index_max_pending
                      ∷ [])
                    _ (attempt-follow _ refl)
                    (>>-follow (drain_errors ∷ []) _ (act-follow _ refl) (
                      >>-follow _ _ (when-follow (is_set f.tcp_iface) _ (start_tcp-follow f tls t))
                        (>>-follow _ _ (when-follow (is_set f.udp_iface) _ (start_udp-follow f))
                          (last_steps-follow f)))))))))
