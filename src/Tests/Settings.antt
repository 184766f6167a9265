-- ===== src/Tests/Settings.antt =====
-- tftpos/mnemonics.py, tftpos/config.py and tftpos/console.py on small inputs.
use tftp_os.Prelude.{
  ◌≤◌, some, truthy, strip, ◌≡◌, refl, true, false, none, [], ◌∷◌, codes, text_eq, text_beq, lower,
  lower_char, has_char, All,
}
use tftp_os.Prelude.Text.{Text}
use tftp_os.Result.{ok}
use tftp_os.Json.{text, arr, obj, nil, cons, end, field}
use tftp_os.Console.{
  serial, ConsoleConfig, console_type_of, port_of, host_port, endpoint_re, more_digits, parse_set,
  from_host_rule, or_empty,
}
use tftp_os.Console.Endpoint.{IsEndpoint, from_host_rule-IsEndpoint}
use tftp_os.Mnemonics.{init, register, resolve}
use tftp_os.Mnemonics.Aliases.{DistroAlias}
use tftp_os.Mnemonics.Reached.{resolve-register_dash}
use tftp_os.Audit.{default_config}
use tftp_os.Webhooks.{WebhookConfig}
use tftp_os.Config.{TomlFile, table}
use tftp_os.Config.Settings.{TftpOsConfig, load_config, webhook_config, webhooks_of, config_without}
use tftp_os.Config.Schemes.{has_scheme, load_config-has_scheme}

abbrev alias : DistroAlias
alias = record { os_family = codes "arch"; vendor = codes "lab"; version = codes "1" }

resolve-register_dash_example :
    resolve (register init (codes "lab-os") alias) (codes "lab-os") ≡ resolve init (codes "lab-os")
unfolding lower lower_char has_char
resolve-register_dash_example =
    resolve-register_dash init (codes "lab-os") (codes "lab-os") alias refl

-- The scheme by the first character.
abbrev scheme : Text → Text
scheme [] = []
scheme (c ∷ s) = codes "https"

abbrev file : TomlFile
file = table (
    field (codes "webhooks")
      (arr (cons (obj (field (codes "url") (text (codes "https://a")) end)) nil)) end)

abbrev hook : WebhookConfig
hook = record { url = codes "https://a"; events = []; secret = []; retry_count = 3; timeout = 10 }

abbrev config : TftpOsConfig
config = record {
  server_host = codes "0.0.0.0";
  server_port = 8443;
  tls_cert = none;
  tls_key = none;
  tls_auto_generate = true;
  tftp_root = codes "/srv/tftp";
  distro_root = codes "/srv/tftpos/distros";
  data_dir = codes "/etc/tftpos";
  auth_enabled = false;
  service_name = codes "tftpos";
  enable_discovery = false;
  rate_limit = record {
    enabled = false;
    tftp_requests_per_minute = 300;
    tftp_burst = 50;
    api_requests_per_minute = 60;
    api_burst = 20;
    auth_requests_per_minute = 10;
    auth_burst = 5;
  };
  logging = record {
    level = codes "INFO";
    json_format = false;
    log_file = none;
    max_bytes = 10485760;
    backup_count = 5;
    syslog_enabled = false;
    syslog_address = codes "/dev/log";
    journald_enabled = false;
  };
  audit = default_config;
  database = record { backend = codes "sqlite"; url = codes "sqlite:///tftpos.db" };
  webhooks = hook ∷ [];
}

loaded_run : load_config scheme file ≡ ok config
unfolding load_config config_without webhooks_of webhook_config text_beq
loaded_run = refl

load_config-has_scheme_example : All (λ wh. has_scheme scheme wh ≡ true) config.webhooks
load_config-has_scheme_example = load_config-has_scheme scheme file config loaded_run

abbrev console : ConsoleConfig
console = record { console_type = serial; host = codes "bmc-1"; port = 5900 }

console_run :
    from_host_rule (some (codes "Serial ")) (some (codes "bmc-1:5900")) ≡ ok (some console)
unfolding from_host_rule parse_set console_type_of endpoint_re host_port port_of more_digits strip
    lower text_beq
console_run = refl

from_host_rule-IsEndpoint_example :
    (console_type_of (strip (lower (or_empty (some (codes "Serial "))))) ≡ ok console.console_type)
    × (1 ≤ console.port)
    × (console.port ≤ 65535)
    × (truthy console.host ≡ true)
    × IsEndpoint (strip (or_empty (some (codes "bmc-1:5900")))) console.host console.port
from_host_rule-IsEndpoint_example =
    from_host_rule-IsEndpoint (some (codes "Serial ")) (some (codes "bmc-1:5900")) console
      console_run
