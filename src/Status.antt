-- ===== src/Status.antt =====
-- status/service.go: the service, its registry of providers, and the answers to HTTP requests.
-- `Listener` and `Provider` are types of the caller; `range` is the order in which Go ranges over a
-- map. The mutex, which each method holds to its end, and logging are left out.
pub mod Registry
pub mod Answers
mod Tests
use ekanite.Prelude.{
  ◌⊎◌, inl, inr, ℕ, Bool, true, false, List, [], ◌∷◌, ◌++◌, Option, none, some, Bytes, codes, equal,
  ◌==◌, ◌&&◌, if◌then◌else◌,
}
use ekanite.System.{Result, ok, err, panic}

-- A Go map with strings for keys: `m[key] = value`.
unfoldable pub put : {V : Type 0} → Bytes → V → List (Bytes × V) → List (Bytes × V)
unfolding equal
put k v [] = (k, v) ∷ []
put k v ((k', v') ∷ m) = let rest = put k v m in if equal k k' then (k, v) ∷ m else (k', v') ∷ rest

-- `m[key]`
unfoldable pub get : {V : Type 0} → Bytes → List (Bytes × V) → Option V
unfolding equal
get k [] = none
get k ((k', v') ∷ m) = let rest = get k m in if equal k k' then some v' else rest

-- A value of the map `BuildInfo`: a string, or one of another type.
pub data Info : Type 0 where
  string : Bytes → Info
  other : Info

-- `providers` is `none` where the map is nil, and `ln` where the listener is.
pub record Service (Listener Provider : Type 0) : Type 0 where
  pub addr : Bytes
  pub ln : Option Listener
  pub start : ℕ
  pub providers : Option (List (Bytes × Provider))
  pub build_info : List (Bytes × Info)

module _ {Listener Provider : Type 0} where
  -- `NewService`, at the time `now`: the map of providers is not made.
  abbrev pub new_service : Bytes → ℕ → Service Listener Provider
  new_service addr now = record {
    addr = addr;
    ln = none;
    start = now;
    providers = none;
    build_info = [];
  }

  -- `Start`, over what `net.Listen` gives for the address.
  unfoldable pub start :
      (Bytes → Option Listener) → Service Listener Provider → Result (Service Listener Provider)
  start listen s = elim (listen s.addr) [ none ↦ err | some l ↦ ok (record s { ln = some l }) ]

  -- `Close` and `Addr`, of the listener that they use: a nil `ln` is a panic.
  abbrev pub listener : Service Listener Provider → Result Listener
  listener s = elim (s.ln) [ none ↦ panic | some l ↦ ok l ]

  -- `Register`: an assignment to a nil map is a panic.
  unfoldable pub register :
      Bytes → Provider → Service Listener Provider → Result (Service Listener Provider)
  unfolding put
  register key p s = elim (s.providers) [
    | none ↦ panic
    | some m ↦ ok (record s { providers = some (put key p m) })
  ]

-- What a handler does with its `ResponseWriter`; `error` is `http.Error`.
pub data Effect : Type 0 where
  add_header set_header : (key value : Bytes) → Effect
  write_header : ℕ → Effect
  write : Bytes → Effect
  error : (text : Bytes) (code : ℕ) → Effect
  profile : Bytes → Effect

-- `form` has the keys of `Form`, and is `none` where `ParseForm` fails.
pub record Request : Type 0 where
  pub path : Bytes
  pub form : Option (List Bytes)

abbrev pub has_key : Bytes → List Bytes → Bool
has_key k [] = false
has_key k (k' ∷ ks) = if equal k k' then true else has_key k ks

-- `queryParam`: the flag, and whether there is an error.
abbrev pub query_param : Request → Bytes → Bool × Bool
query_param r param = elim (r.form) [ none ↦ (false, true) | some ks ↦ (has_key param ks, false) ]

-- `isPretty`
abbrev pub is_pretty : Request → Bool × Bool
is_pretty r = query_param r (codes "pretty")

-- `strings.HasPrefix`
unfoldable pub has_prefix : (s prefix : Bytes) → Bool
has_prefix s [] = true
has_prefix [] (d ∷ p) = false
has_prefix (c ∷ s) (d ∷ p) = c == d && has_prefix s p

-- The header with the version, where `BuildInfo` has one that is a string.
unfoldable pub version_header : List (Bytes × Info) → Effect
unfolding get
version_header info = elim (get (codes "version") info) [
  | some (string v) ↦ add_header (codes "X-EKANITE-VERSION") v
  | _ ↦ add_header (codes "X-EKANITE-VERSION") (codes "unknown")
]

-- The loop of `serveExpvar` over the variables, with the flag `first`, and its function; `quote` is
-- `%q`.
unfoldable pub expvar_entries : (quote : Bytes → Bytes) → Bool → List (Bytes × Bytes) → List Effect
expvar_entries quote first [] = []
expvar_entries quote first ((key, value) ∷ vars) =
    (if first then [] else write (codes ",\n") ∷ [])
    ++ write (quote key ++ codes ": " ++ value) ∷ expvar_entries quote false vars

unfoldable pub serve_expvar : (quote : Bytes → Bytes) → List (Bytes × Bytes) → List Effect
unfolding expvar_entries
serve_expvar quote vars =
    set_header (codes "Content-Type") (codes "application/json; charset=utf-8")
      ∷ write (codes "{\n")
      ∷ expvar_entries quote true vars
    ++ write (codes "\n}\n") ∷ []

-- `servePprof`: the function of the package pprof that answers.
unfoldable pub serve_pprof : Bytes → Bytes
unfolding equal
serve_pprof path =
    if equal path (codes "/debug/pprof/cmdline")
    then codes "Cmdline"
    else if equal path (codes "/debug/pprof/profile")
    then codes "Profile"
    else if equal path (codes "/debug/pprof/symbol")
    then codes "Symbol"
    else codes "Index"

-- `status` calls a provider, and is `none` for an error; `marshal` is `json.Marshal`, or
-- `json.MarshalIndent` where the flag is set, with the bytes or the text of an error.
module _ {Provider Value : Type 0} (status : Provider → Option Value)
    (range : List (Bytes × Provider) → List (Bytes × Provider))
    (marshal : Bool → List (Bytes × Value) → Bytes ⊎ Bytes) (write_fails : Bool) where
  -- The loop of `handleStatus`, from the statuses so far: it stops at the first error.
  unfoldable pub statuses :
      List (Bytes × Value) → List (Bytes × Provider) → Option (List (Bytes × Value))
  unfolding put
  statuses acc [] = some acc
  statuses acc ((k, p) ∷ ps) = elim (status p) [ none ↦ none | some v ↦ statuses (put k v acc) ps ]

  abbrev pub reply : Bytes ⊎ Bytes → List Effect
  reply (inl b) = write b ∷ (if write_fails then write_header 500 ∷ [] else [])
  reply (inr e) = error e 500 ∷ []

  -- A nil map has nothing to range over.
  abbrev pub registered : {Listener : Type 0} → Service Listener Provider → List (Bytes × Provider)
  registered s = elim (s.providers) [ none ↦ [] | some m ↦ range m ]

  -- `handleStatus`
  unfoldable pub handle_status :
      {Listener : Type 0} → Service Listener Provider → Request → List Effect
  unfolding statuses
  handle_status s r = elim (statuses [] (registered s)) [
    | none ↦ write_header 500 ∷ []
    | some m ↦ reply (marshal (is_pretty r).0 m)
  ]

  -- `ServeHTTP`, with the variables of expvar.
  unfoldable pub serve_http :
      {Listener : Type 0} (quote : Bytes → Bytes)
      → List (Bytes × Bytes)
      → Service Listener Provider
      → Request
      → List Effect
  unfolding version_header has_prefix handle_status serve_expvar serve_pprof equal
  serve_http quote vars s r =
      version_header s.build_info
      ∷ (if has_prefix r.path (codes "/status")
          then handle_status s r
          else if equal r.path (codes "/debug/vars")
          then serve_expvar quote vars
          else if has_prefix r.path (codes "/debug/pprof")
          then profile (serve_pprof r.path) ∷ []
          else write_header 404 ∷ [])
