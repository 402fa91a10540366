-- ===== src/Operator/Servers.antt =====
-- cmd/main.go: the flags, and the options of the two servers and of the manager.
use optipod.Prelude.{
  ◌≡◌, refl, String, str_eq, Bool, true, false, not, Option, none, some, List, [], ◌∷◌,
  if◌then◌else◌,
}
use optipod.Operator.{OperatorConfig, is_leader_election_enabled}

-- The flags that `main` declares itself.
pub record Flags : Type 0 where
  pub metrics_addr : String
  pub probe_addr : String
  pub secure_metrics : Bool
  pub webhook_cert_path : String
  pub webhook_cert_name : String
  pub webhook_cert_key : String
  pub metrics_cert_path : String
  pub metrics_cert_name : String
  pub metrics_cert_key : String
  pub enable_http2 : Bool

abbrev pub default_flags : Flags
default_flags = record {
  metrics_addr = "0";
  probe_addr = ":8081";
  secure_metrics = true;
  webhook_cert_path = "";
  webhook_cert_name = "tls.crt";
  webhook_cert_key = "tls.key";
  metrics_cert_path = "";
  metrics_cert_name = "tls.crt";
  metrics_cert_key = "tls.key";
  enable_http2 = false;
}

-- `tls.Config`: the protocols that are offered, or those of the package where the field is nil.
pub record TlsConfig : Type 0 where
  pub next_protos : Option (List String)

abbrev pub disable_http2 : TlsConfig → TlsConfig
disable_http2 c = record c { next_protos = some ("http/1.1" ∷ []) }

abbrev pub tls_opts : Flags → List (TlsConfig → TlsConfig)
tls_opts f = if not f.enable_http2 then disable_http2 ∷ [] else []

-- The directory, the name and the key of a certificate.
pub record CertFiles : Type 0 where
  pub cert_dir : String
  pub cert_name : String
  pub key_name : String

-- `webhook.Options` and the options of the metrics server, in what the source sets; a certificate
-- that is not set is `none`.
pub record WebhookOptions : Type 0 where
  pub tls_opts : List (TlsConfig → TlsConfig)
  pub cert : Option CertFiles

pub record MetricsServerOptions : Type 0 where
  pub bind_address : String
  pub secure_serving : Bool
  pub tls_opts : List (TlsConfig → TlsConfig)
  pub filtered : Bool
  pub cert : Option CertFiles

-- A path that is set.
abbrev cert_files : String → String → String → Option CertFiles
cert_files path name key =
    if str_eq path ""
    then none
    else some (record { cert_dir = path; cert_name = name; key_name = key })

unfoldable pub webhook_options : Flags → WebhookOptions
webhook_options f = record {
  tls_opts = tls_opts f;
  cert = cert_files f.webhook_cert_path f.webhook_cert_name f.webhook_cert_key;
}

-- With secure serving, requests are authenticated and authorized by a filter.
unfoldable pub metrics_server_options : Flags → MetricsServerOptions
metrics_server_options f = record {
  bind_address = f.metrics_addr;
  secure_serving = f.secure_metrics;
  tls_opts = tls_opts f;
  filtered = f.secure_metrics;
  cert = cert_files f.metrics_cert_path f.metrics_cert_name f.metrics_cert_key;
}

-- `ctrl.Options`
pub record ManagerOptions : Type 0 where
  pub metrics : MetricsServerOptions
  pub webhook : WebhookOptions
  pub health_probe_bind_address : String
  pub leader_election : Bool
  pub leader_election_id : String

unfoldable pub manager_options : OperatorConfig → Flags → ManagerOptions
manager_options c f = record {
  metrics = metrics_server_options f;
  webhook = webhook_options f;
  health_probe_bind_address = f.probe_addr;
  leader_election = is_leader_election_enabled c;
  leader_election_id = "2e85d309.optipod.io";
}

-- The options, one after the other.
abbrev applied : List (TlsConfig → TlsConfig) → TlsConfig → TlsConfig
applied [] c = c
applied (o ∷ os) c = applied os (o c)

abbrev pub OffersHttp1 : List (TlsConfig → TlsConfig) → TlsConfig → Type 0
OffersHttp1 os c = (applied os c).next_protos ≡ some ("http/1.1" ∷ [])

-- Without the flag for it, neither server offers HTTP/2, whatever the other flags and the defaults of
-- the servers are; and what the metrics server serves securely is filtered.
pub manager_options-secure :
    (c : OperatorConfig) (f : Flags) (t : TlsConfig)
    → f.enable_http2 ≡ false
    → OffersHttp1 (manager_options c f).metrics.tls_opts t
      × OffersHttp1 (manager_options c f).webhook.tls_opts t
      × ((manager_options c f).metrics.filtered ≡ (manager_options c f).metrics.secure_serving)
unfolding manager_options metrics_server_options webhook_options
manager_options-secure c f t h = rw h (refl, refl, refl)
