-- ===== src/Main/Options.antt =====
-- The flags of cmd/main.go, and the options of the manager that they make.
use bmc_secret_operator.Base.{String, Bool, true, false, Option, none, some, ◌==◌}
use bmc_secret_operator.Base.{List, [], ◌∷◌, if◌then◌else◌}

pub record Flags : Type 0 where
  pub metrics_addr : String
  pub probe_addr : String
  pub enable_leader_election : Bool
  pub secure_metrics : Bool
  pub webhook_cert_path : String
  pub webhook_cert_name : String
  pub webhook_cert_key : String
  pub metrics_cert_path : String
  pub metrics_cert_name : String
  pub metrics_cert_key : String
  pub enable_http2 : Bool

-- The flags of a command line that sets none.
abbrev pub default_flags : Flags
default_flags = record {
  metrics_addr = "0";
  probe_addr = ":8081";
  enable_leader_election = false;
  secure_metrics = true;
  webhook_cert_path = "";
  webhook_cert_name = "tls.crt";
  webhook_cert_key = "tls.key";
  metrics_cert_path = "";
  metrics_cert_name = "tls.crt";
  metrics_cert_key = "tls.key";
  enable_http2 = false;
}

-- The field of Go's `tls.Config` that is set here.
pub record TlsConfig : Type 0 where
  pub next_protos : List String

abbrev pub TlsOption : Type 0
TlsOption = TlsConfig → TlsConfig

unfoldable pub disable_http2 : TlsOption
disable_http2 c = record c { next_protos = "http/1.1" ∷ [] }

unfoldable pub tls_options : Flags → List TlsOption
tls_options flags = if flags.enable_http2 then [] else disable_http2 ∷ []

-- `webhook.Options`, with "" for a field that is not set
pub record WebhookOptions : Type 0 where
  pub tls_opts : List TlsOption
  pub cert_dir : String
  pub cert_name : String
  pub key_name : String

pub data FilterProvider : Type 0 where
  with_authentication_and_authorization : FilterProvider

-- `metricsserver.Options`
pub record MetricsOptions : Type 0 where
  pub bind_address : String
  pub secure_serving : Bool
  pub tls_opts : List TlsOption
  pub filter_provider : Option FilterProvider
  pub cert_dir : String
  pub cert_name : String
  pub key_name : String

unfoldable pub webhook_server_options : Flags → WebhookOptions
unfolding tls_options
webhook_server_options flags =
    let options : WebhookOptions = record {
      tls_opts = tls_options flags;
      cert_dir = "";
      cert_name = "";
      key_name = "";
    } in
    if flags.webhook_cert_path == "" then options else record options {
      cert_dir = flags.webhook_cert_path;
      cert_name = flags.webhook_cert_name;
      key_name = flags.webhook_cert_key;
    }

unfoldable pub metrics_server_options : Flags → MetricsOptions
unfolding tls_options
metrics_server_options flags =
    let options : MetricsOptions = record {
      bind_address = flags.metrics_addr;
      secure_serving = flags.secure_metrics;
      tls_opts = tls_options flags;
      filter_provider = none;
      cert_dir = "";
      cert_name = "";
      key_name = "";
    } in
    let protected : MetricsOptions =
      if flags.secure_metrics
      then record options { filter_provider = some with_authentication_and_authorization }
      else options in
    if flags.metrics_cert_path == "" then protected else record protected {
      cert_dir = flags.metrics_cert_path;
      cert_name = flags.metrics_cert_name;
      key_name = flags.metrics_cert_key;
    }

-- `ctrl.Options`
pub record ManagerOptions : Type 0 where
  pub metrics : MetricsOptions
  pub webhook_server : WebhookOptions
  pub health_probe_bind_address : String
  pub leader_election : Bool
  pub leader_election_id : String

unfoldable pub manager_options : Flags → ManagerOptions
unfolding metrics_server_options webhook_server_options
manager_options flags = record {
  metrics = metrics_server_options flags;
  webhook_server = webhook_server_options flags;
  health_probe_bind_address = flags.probe_addr;
  leader_election = flags.enable_leader_election;
  leader_election_id = "bd36b7a2.metal.ironcore.dev";
}
