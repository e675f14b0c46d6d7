-- ===== src/Manager/Kinds.antt =====
-- cmd/main.go: the scheme has the types that the controllers watch.
use fusioninfer.Prelude.{subst, ◌≡◌, refl, arith, Option, none, some, List, [], ◌∷◌, ◌++◌}
use fusioninfer.Prelude.Lists.{All}
use fusioninfer.Controller.Outcome.{Result, ok, err}
use fusioninfer.Manager.Scheme.{
  registered_types, ApiType, Schemes, GroupVersion, group_version, add_to_scheme, init_scheme, must,
  inference_service_for, inference_service_owns, model_loader_for,
}

-- The types of k8s.io/api that the controllers watch.
abbrev pub client_types : List ApiType
client_types =
    ApiType.config_map ∷ ApiType.service ∷ ApiType.service_account ∷ ApiType.deployment
    ∷ ApiType.rbac_role ∷ ApiType.role_binding ∷ []

module _ (L : Schemes) (Knows : L.Scheme → ApiType → Type 0) where
  -- If the function returns no error, the scheme has the types, and those that it had.
  abbrev pub Adds : (L.Scheme → Result L.Scheme) → List ApiType → Type 0
  Adds add types =
      (s s' : L.Scheme)
      → add s ≡ ok s'
      → All (Knows s') types × ((t : ApiType) → Knows s t → Knows s' t)

  -- What the libraries add.
  pub record SchemeLaws : Type 0 where
    pub client_go : Adds L.client_go client_types
    pub builder : (g : GroupVersion) (types : List ApiType) → Adds (L.builder g types) types
    pub gateway : Adds L.gateway (ApiType.http_route ∷ [])
    pub inference : Adds L.inference (ApiType.inference_pool ∷ [])
    pub lws : Adds L.lws (ApiType.leader_worker_set ∷ [])
    pub volcano : Adds L.volcano (ApiType.pod_group ∷ [])

  abbrev Knowing : Option L.Scheme → List ApiType → Type 0
  Knowing m types = (s : L.Scheme) → m ≡ some s → All (Knows s) types

  knows_still :
      {s s' : L.Scheme} (types : List ApiType)
      → ((t : ApiType) → Knows s t → Knows s' t)
      → All (Knows s) types
      → All (Knows s') types
  knows_still [] keeps h = h
  knows_still (t ∷ types) keeps h = (keeps t h.0, knows_still types keeps h.1)

  All-append :
      (s : L.Scheme) (ts us : List ApiType)
      → All (Knows s) ts
      → All (Knows s) us
      → All (Knows s) (ts ++ us)
  All-append s [] us h k = k
  All-append s (t ∷ ts) us h k = (h.0, All-append s ts us h.1 k)

  must-Knowing :
      (add : L.Scheme → Result L.Scheme) (types : List ApiType)
      → Adds add types
      → (m : Option L.Scheme) (known : List ApiType) → Knowing m known
      → Knowing (must L m add) (types ++ known)
  must-Knowing add types adds none known h s e = absurd (ground arith)
  must-Knowing add types adds (some t) known h s e = go (add t) refl e
    where
      go :
          (r : Result L.Scheme)
          → add t ≡ r
          → (elim r [ ok t' ↦ some t' | err x ↦ none ]) ≡ some s
          → All (Knows s) (types ++ known)
      go (ok t') r eq =
          let added = adds t t' r in
          let same : t' ≡ s = cc in
          subst (λ u. All (Knows u) (types ++ known)) same
            (All-append t' types known added.0 (knows_still known added.1 (h t refl)))
      go (err x) r eq = absurd (ground arith)

  -- All that init adds, the last library first.
  abbrev added_types : List ApiType
  added_types =
      ApiType.pod_group ∷ ApiType.leader_worker_set ∷ ApiType.inference_pool ∷ ApiType.http_route
        ∷ registered_types
      ++ client_types

  init_scheme-Knowing : SchemeLaws → Knowing (init_scheme L) added_types
  unfolding init_scheme add_to_scheme
  init_scheme-Knowing laws =
      let client =
        must-Knowing L.client_go client_types laws.client_go (some L.new_scheme) [] (λ s e. tt) in
      let own =
        must-Knowing (L.builder group_version registered_types) registered_types
          (laws.builder group_version registered_types) _ client_types client in
      let route =
        must-Knowing L.gateway (ApiType.http_route ∷ []) laws.gateway _
          (registered_types ++ client_types) own in
      let pool =
        must-Knowing L.inference (ApiType.inference_pool ∷ []) laws.inference _
          (ApiType.http_route ∷ registered_types ++ client_types) route in
      let lws =
        must-Knowing L.lws (ApiType.leader_worker_set ∷ []) laws.lws _
          (ApiType.inference_pool ∷ ApiType.http_route ∷ registered_types ++ client_types) pool in
      must-Knowing L.volcano (ApiType.pod_group ∷ []) laws.volcano _
        (ApiType.leader_worker_set ∷ ApiType.inference_pool ∷ ApiType.http_route ∷ registered_types
          ++ client_types)
        lws

  -- If the libraries add their types: where init does not panic, the scheme has the type of `For` and
  -- those of `Owns` of the InferenceService controller, and that of the ModelLoader controller.
  pub init_scheme_knows :
      SchemeLaws
      → (s : L.Scheme) → init_scheme L ≡ some s
      → All (Knows s) (inference_service_for ∷ model_loader_for ∷ inference_service_owns)
  init_scheme_knows laws s e = let k = init_scheme-Knowing laws s e in ground arith
