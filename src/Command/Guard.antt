-- ===== src/Command/Guard.antt =====
-- What the command does before its engine is open.
use ekanite.Prelude.{
  ℕ, ◌≡◌, refl, ap, Bool, true, false, ◌&&◌, List, [], ◌∷◌, Option, none, some, Bytes,
  if◌then◌else◌,
}
use ekanite.Command.{
  Flags, Action, start_status, open_engine, fatal, Run, is_set, ◌>>=◌, ◌>>◌, act, when, need,
  attempt, main, start_diag_server,
}

module _ {Config : Type 0} (fails : Action Config → Bool) where
  -- Of the actions in front of `open_engine`.
  abbrev is_early : Action Config → Bool
  is_early (start_status iface) = true
  is_early fatal = true
  is_early _ = false

  abbrev is_end : List (Action Config) → Bool
  is_end (fatal ∷ []) = true
  is_end _ = false

  -- Nothing but the status service is started in front of `open_engine`, and if that fails, the process
  -- ends.
  unfoldable pub is_guarded : List (Action Config) → Bool
  is_guarded [] = true
  is_guarded (open_engine path shards retention ∷ later) =
      if fails (open_engine path shards retention) then is_end later else true
  is_guarded (a ∷ later) = is_early a && is_guarded later

  module _ (abs : Bytes → Option Bytes) (parse_duration : Bytes → Option ℕ)
      (tls_config : Bytes → Bytes → Option Config) where
    need-guarded :
        {A : Type 0} (o : Option A) (k : A → Run Config (Unit {0}))
        → ((a : A) → is_guarded (k a).0 ≡ true)
        → is_guarded (need o >>= k).0 ≡ true
    unfolding is_guarded
    need-guarded none k h = refl
    need-guarded (some a) k h = h a

    status-guarded :
        (b : Bool) (iface : Bytes) (k : Run Config (Unit {0}))
        → is_guarded k.0 ≡ true
        → is_guarded (when b (start_diag_server fails abs parse_duration tls_config iface) >> k).0
          ≡ true
    unfolding is_guarded attempt
    status-guarded false iface k h = h
    status-guarded true iface k h = go (fails (start_status iface))
      where
        go :
            (b : Bool)
            → is_guarded
                ((elim b as (λ _. Run Config (Unit {0})) [
                  | true ↦ (start_status iface ∷ fatal ∷ [], none)
                  | false ↦ act (start_status iface)
                ])
                  >> k).0
              ≡ true
        go true = refl
        go false = h

    opened-guarded :
        (path : Bytes) (shards retention : ℕ) (k : Run Config (Unit {0}))
        → is_guarded
            (attempt fails abs parse_duration tls_config (open_engine path shards retention) >> k).0
          ≡ true
    unfolding is_guarded attempt
    opened-guarded path shards retention k = go (fails (open_engine path shards retention)) refl
      where
        go :
            (b : Bool)
            → fails (open_engine path shards retention) ≡ b
            → is_guarded
                ((elim b as (λ _. Run Config (Unit {0})) [
                  | true ↦ (open_engine path shards retention ∷ fatal ∷ [], none)
                  | false ↦ act (open_engine path shards retention)
                ])
                  >> k).0
              ≡ true
        go true e = ap (λ c. if c then true else true) e
        go false e = ap (λ c. if c then is_end k.0 else true) e

    -- Whatever the flags are and whatever fails, the command starts nothing but the status service in
    -- front of the opening of the engine, and does nothing behind an opening that fails but end.
    pub main-guarded :
        (f : Flags) → is_guarded (main fails abs parse_duration tls_config f).0 ≡ true
    unfolding main
    main-guarded f = need-guarded (abs f.datadir) _ (λ dir.
        need-guarded (parse_duration f.retention_period) _ (λ retention.
          status-guarded (is_set f.diag_iface) f.diag_iface _
            (opened-guarded dir f.num_shards retention _)))
