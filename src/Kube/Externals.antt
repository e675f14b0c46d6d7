-- ===== src/Kube/Externals.antt =====
-- The functions of other packages that the builders call, as parameters: the JSON decoders of
-- Kubernetes' types, the dump and the encoding that `ComputeSpecHash` uses, and the environment.
use Prim.Native.Nat.{ℕ}
use fusioninfer.Prelude.{String, Option, List}
use fusioninfer.Kube.{Kube, PodTemplateSpec}
use fusioninfer.Kube.Objects.{Hashable, HttpRouteSpec}

pub record Externals (K : Kube) : Type 0 where
  -- json.Unmarshal into a PodTemplateSpec and into an HTTPRouteSpec: `none` is an error.
  pub unmarshal_pod_template : String → Option (PodTemplateSpec K)
  pub unmarshal_http_route_spec : String → Option (HttpRouteSpec K)
  -- The bytes of k8s.io/apimachinery's dump.ForHash, and its rand.SafeEncodeString.
  pub for_hash : Hashable K → List ℕ
  pub safe_encode_string : String → String
  -- os.Getenv, which is "" for a variable that is not set.
  pub getenv : String → String
