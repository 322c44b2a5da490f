-- ===== src/Status/Registry.antt =====
-- What becomes of the registry of a service that `NewService` made.
use ekanite.Prelude.{ℕ, ◌≡◌, refl, ◌∙◌, Bool, List, [], Option, none, Bytes, ◌⊎◌, arith}
use ekanite.System.{ok, panic}
use ekanite.Status.{
  Service, Info, Request, new_service, start, register, is_pretty, statuses, handle_status, reply,
}

module _ {Listener Provider : Type 0} where
  -- A client's use of the service: it is started, its public field is set, or a provider is registered.
  pub data Use : Service Listener Provider → Service Listener Provider → Type 0 where
    started :
        {s s' : Service Listener Provider} (listen : Bytes → Option Listener)
        → start listen s ≡ ok s'
        → Use s s'
    informed :
        {s : Service Listener Provider} (info : List (Bytes × Info))
        → Use s (record s { build_info = info })
    registered :
        {s s' : Service Listener Provider} (key : Bytes) (p : Provider)
        → register key p s ≡ ok s'
        → Use s s'

  -- The services that a new one becomes.
  pub data IsReached (addr : Bytes) (now : ℕ) : Service Listener Provider → Type 0 where
    made : IsReached addr now (new_service addr now)
    used :
        {s s' : Service Listener Provider} → IsReached addr now s → Use s s' → IsReached addr now s'

  start-providers :
      (listen : Bytes → Option Listener) (s s' : Service Listener Provider)
      → start listen s ≡ ok s'
      → s'.providers ≡ s.providers
  unfolding start
  start-providers listen s s' h = ground arith

  register-nil :
      (key : Bytes) (p : Provider) (s : Service Listener Provider)
      → s.providers ≡ none
      → register key p s ≡ panic
  unfolding register
  register-nil key p s h = rw (h, register)

  no_providers :
      (addr : Bytes) (now : ℕ) (s : Service Listener Provider)
      → IsReached addr now s
      → s.providers ≡ none
  no_providers addr now _ IsReached.made = refl
  no_providers addr now s' (IsReached.used {s} r (Use.started listen h)) =
      start-providers listen s s' h ∙ no_providers addr now s r
  no_providers addr now _ (IsReached.used {s} r (Use.informed info)) = no_providers addr now s r
  no_providers addr now s' (IsReached.used {s} r (Use.registered key p h)) =
      absurd (cc (register-nil key p s (no_providers addr now s r)))

  module _ {Value : Type 0} (status : Provider → Option Value)
      (range : List (Bytes × Provider) → List (Bytes × Provider))
      (marshal : Bool → List (Bytes × Value) → Bytes ⊎ Bytes) (write_fails : Bool) where
    -- Whatever is done with a service that `NewService` made, a call of `Register` panics, and a
    -- request for the status is answered with the empty map.
    pub reached_registry :
        (addr : Bytes) (now : ℕ) (s : Service Listener Provider) (key : Bytes) (p : Provider)
        (r : Request)
        → IsReached addr now s
        → (register key p s ≡ panic)
          × (handle_status status range marshal write_fails s r
              ≡ reply status range marshal write_fails (marshal (is_pretty r).0 []))
    unfolding handle_status
    reached_registry addr now s key p r h =
        let nil = no_providers addr now s h in
        (register-nil key p s nil, rw (nil, handle_status, statuses) refl)
