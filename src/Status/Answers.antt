-- ===== src/Status/Answers.antt =====
-- The answers of a service whose map of providers is there.
use ekanite.Prelude.{
  ◌≡◌, refl, ap, true, Bool, List, [], ◌∷◌, ◌++◌, Option, Option-cases, none, some, Bytes, codes,
  ◌⊎◌, inl, inr, arith,
}
use ekanite.Status.{
  Service, Request, write_header, has_prefix, version_header, statuses, handle_status, serve_http,
  put,
}

module _ {Provider Value : Type 0} (status : Provider → Option Value)
    (range : List (Bytes × Provider) → List (Bytes × Provider))
    (marshal : Bool → List (Bytes × Value) → Bytes ⊎ Bytes) (write_fails : Bool) where
  statuses-failed :
      (before : List (Bytes × Provider)) (acc : List (Bytes × Value)) (key : Bytes) (p : Provider)
      (after : List (Bytes × Provider))
      → status p ≡ none
      → statuses status range marshal write_fails acc (before ++ (key, p) ∷ after) ≡ none
  unfolding statuses
  statuses-failed [] acc key p after h = rw (h) refl
  statuses-failed ((k, q) ∷ before) acc key p after h = elim (Option-cases (status q)) [
    | inl failed ↦ rw (failed, statuses) refl
    | inr (v, ok) ↦ rw (ok, statuses) (statuses-failed before (put k v acc) key p after h)
  ]

  -- One provider whose status is an error, wherever it is among those that are registered, makes the
  -- answer to a request for the status the header with the version and the code 500, with no body,
  -- whatever the other providers say.
  pub serve_http-failed :
      {Listener : Type 0} (quote : Bytes → Bytes) (vars : List (Bytes × Bytes))
      (s : Service Listener Provider) (r : Request) (m before : List (Bytes × Provider))
      (key : Bytes) (p : Provider) (after : List (Bytes × Provider))
      → has_prefix r.path (codes "/status") ≡ true
      → s.providers ≡ some m
      → range m ≡ before ++ (key, p) ∷ after
      → status p ≡ none
      → serve_http status range marshal write_fails quote vars s r
        ≡ version_header s.build_info ∷ write_header 500 ∷ []
  unfolding serve_http handle_status
  serve_http-failed quote vars s r m before key p after path there ranged h = rw (path) (
      ap (λ l. version_header s.build_info ∷ l)
        (ground (arith, there, ranged, statuses-failed before [] key p after h)))
