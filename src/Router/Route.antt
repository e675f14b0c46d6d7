-- ===== src/Router/Route.antt =====
-- pkg/router/httproute.go: the HTTPRoute.
use fusioninfer.Prelude.{String, Option, none, some, [], ◌∷◌, from_option}
use fusioninfer.Prelude.Dict.{Dict, insert}
use fusioninfer.Kube.{Kube, object_meta}
use fusioninfer.Kube.Objects.{HttpRoute, HttpRouteSpec, HttpBackendRef, route_spec}
use fusioninfer.Kube.Externals.{Externals}
use fusioninfer.Api.{Role, RawExtension, InferenceService}
use fusioninfer.Hash.{compute_spec_hash}
use fusioninfer.Workload.{label_service, label_spec_hash}
use fusioninfer.Router.{generate_pool_name, generate_http_route_name}

abbrev pub inference_pool_group : String
inference_pool_group = "inference.networking.k8s.io"

abbrev pub inference_pool_kind : String
inference_pool_kind = "InferencePool"

unfoldable pub build_inference_pool_backend_ref : (K : Kube) → String → HttpBackendRef K
build_inference_pool_backend_ref K pool_name = record {
  group = some inference_pool_group;
  kind = some inference_pool_kind;
  name = pool_name;
  rest = K.no_rest;
}

module _ {K : Kube} (X : Externals K) where
  -- The spec that the user provides, if it decodes without an error.
  unfoldable pub parse_http_route : Option RawExtension → Option (HttpRouteSpec K)
  parse_http_route none = none
  parse_http_route (some r) = elim r.raw [
    | none ↦ none
    | some raw ↦ X.unmarshal_http_route_spec raw
  ]

  unfoldable pub build_http_route : InferenceService K → Role → HttpRoute K
  unfolding build_inference_pool_backend_ref generate_http_route_name generate_pool_name
  build_http_route infer_svc role =
      let user_spec : HttpRouteSpec K =
        from_option (record { rules = []; rest = K.no_rest }) (parse_http_route role.http_route) in
      let pool_name = generate_pool_name infer_svc.metadata.name in
      let spec : HttpRouteSpec K = record user_spec {
        rules =
            (record {
              backend_refs = build_inference_pool_backend_ref K pool_name ∷ [];
              rest = K.no_rest;
            })
            ∷ [];
      } in
      let labels : Dict String = (label_service, infer_svc.metadata.name) ∷ [] in
      record {
        metadata =
            object_meta (generate_http_route_name infer_svc.metadata.name)
              infer_svc.metadata.namespace
              (insert label_spec_hash (compute_spec_hash X (route_spec spec)) labels);
        body = spec;
      }
