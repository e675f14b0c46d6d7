-- ===== src/Manager/Servers.antt =====
-- cmd/main.go: what the webhook server and the metrics server offer.
use fusioninfer.Prelude.{◌≡◌, arith, ◌∙◌, List, [], ◌∷◌, if◌then◌else◌, ap, Bool-cases, inl, inr}
use fusioninfer.Manager.{
  Flags, TlsConfig, TlsOption, disable_http2, tls_opts, webhook_server_options,
  metrics_server_options,
}

-- A server of controller-runtime calls its TLS options on its config, in order.
pub record TlsServer (R : Type 0) : Type 0 where
  pub configure : List (TlsOption R) → TlsConfig R → TlsConfig R
  pub none : (c : TlsConfig R) → configure [] c ≡ c
  pub next :
      (opt : TlsOption R) (opts : List (TlsOption R)) (c : TlsConfig R)
      → configure (opt ∷ opts) c ≡ configure opts (opt c)

module _ {R F : Type 0} (with_authentication : F) (flags : Flags) where
  webhook-tls_opts : (webhook_server_options {R = R} flags).tls_opts ≡ tls_opts flags
  unfolding webhook_server_options
  webhook-tls_opts = ground arith

  metrics-tls_opts :
      (metrics_server_options {R = R} with_authentication flags).tls_opts ≡ tls_opts flags
  unfolding metrics_server_options
  metrics-tls_opts = ground arith

  configured :
      (S : TlsServer R) (c : TlsConfig R)
      → (S.configure (tls_opts flags) c).next_protos
        ≡ (if flags.enable_http2 then c.next_protos else "http/1.1" ∷ [])
  unfolding tls_opts
  configured S c = elim (Bool-cases flags.enable_http2) [
    | inl enabled ↦ rw enabled (ap (λ (d : TlsConfig R). d.next_protos) (S.none c))
    | inr disabled ↦ rw disabled (
        ap (λ (d : TlsConfig R). d.next_protos)
          (S.next disable_http2 [] c ∙ S.none (disable_http2 c)))
  ]

  -- If the servers call their TLS options: whatever the other flags, the webhook server and the
  -- metrics server offer HTTP/1.1 only, or with enable-http2 the protocols of the config that they
  -- start from.
  pub servers_offer :
      (S : TlsServer R) (c : TlsConfig R)
      → ((S.configure (webhook_server_options flags).tls_opts c).next_protos
          ≡ (if flags.enable_http2 then c.next_protos else "http/1.1" ∷ []))
        × ((S.configure (metrics_server_options with_authentication flags).tls_opts c).next_protos
            ≡ (if flags.enable_http2 then c.next_protos else "http/1.1" ∷ []))
  servers_offer S c = (rw webhook-tls_opts (configured S c), rw metrics-tls_opts (configured S c))
