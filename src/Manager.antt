-- ===== src/Manager.antt =====
-- cmd/main.go: the flags of the manager binary and the options it makes of them.
pub mod Scheme
pub mod Run
pub mod Servers
pub mod Exits
pub mod Kinds
use fusioninfer.Prelude.{
  String, ◌==◌, if◌then◌else◌, Bool, true, false, Option, none, some, List, [], ◌∷◌,
}

-- The flags, parsed.
pub record Flags : Type 0 where
  pub metrics_addr : String
  pub metrics_cert_path : String
  pub metrics_cert_name : String
  pub metrics_cert_key : String
  pub webhook_cert_path : String
  pub webhook_cert_name : String
  pub webhook_cert_key : String
  pub enable_leader_election : Bool
  pub probe_addr : String
  pub secure_metrics : Bool
  pub enable_http2 : Bool

-- The flags of a command line that gives none.
abbrev pub default_flags : Flags
default_flags = record {
  metrics_addr = "0";
  metrics_cert_path = "";
  metrics_cert_name = "tls.crt";
  metrics_cert_key = "tls.key";
  webhook_cert_path = "";
  webhook_cert_name = "tls.crt";
  webhook_cert_key = "tls.key";
  enable_leader_election = false;
  probe_addr = ":8081";
  secure_metrics = true;
  enable_http2 = false;
}

-- crypto/tls.Config: the field that the program sets, and the others.
pub record TlsConfig (R : Type 0) : Type 0 where
  pub next_protos : List String
  pub rest : R

-- `func(*tls.Config)`
abbrev pub TlsOption : Type 0 → Type 0
TlsOption R = TlsConfig R → TlsConfig R

abbrev pub disable_http2 : {R : Type 0} → TlsOption R
disable_http2 c = record c { next_protos = "http/1.1" ∷ [] }

unfoldable pub tls_opts : {R : Type 0} → Flags → List (TlsOption R)
tls_opts flags = if flags.enable_http2 then [] else disable_http2 ∷ []

-- webhook.Options; the certificate's fields are empty where Go leaves their zero values.
pub record WebhookOptions (R : Type 0) : Type 0 where
  pub tls_opts : List (TlsOption R)
  pub cert_dir : String
  pub cert_name : String
  pub key_name : String

unfoldable pub webhook_server_options : {R : Type 0} → Flags → WebhookOptions R
webhook_server_options flags =
    if flags.webhook_cert_path == ""
    then record { tls_opts = tls_opts flags; cert_dir = ""; cert_name = ""; key_name = "" }
    else record {
      tls_opts = tls_opts flags;
      cert_dir = flags.webhook_cert_path;
      cert_name = flags.webhook_cert_name;
      key_name = flags.webhook_cert_key;
    }

-- metricsserver.Options, with `F` for the type of filter providers.
pub record MetricsOptions (R F : Type 0) : Type 0 where
  pub bind_address : String
  pub secure_serving : Bool
  pub tls_opts : List (TlsOption R)
  pub filter_provider : Option F
  pub cert_dir : String
  pub cert_name : String
  pub key_name : String

-- `with_authentication` is filters.WithAuthenticationAndAuthorization.
unfoldable pub metrics_server_options : {R F : Type 0} → F → Flags → MetricsOptions R F
metrics_server_options {R} {F} with_authentication flags =
    let options : MetricsOptions R F = record {
      bind_address = flags.metrics_addr;
      secure_serving = flags.secure_metrics;
      tls_opts = tls_opts flags;
      filter_provider = if flags.secure_metrics then some with_authentication else none;
      cert_dir = "";
      cert_name = "";
      key_name = "";
    } in
    if flags.metrics_cert_path == "" then options else record options {
      cert_dir = flags.metrics_cert_path;
      cert_name = flags.metrics_cert_name;
      key_name = flags.metrics_cert_key;
    }
