-- ===== src/Config/Settings.antt =====
-- load_config: the sections of the configuration, each with its defaults.
use tftp_os.Prelude.{ℕ, Bool, true, false, Option, List, [], codes, text_eq}
use tftp_os.Prelude.Text.{Text}
use tftp_os.Result.{Result, ok, ◌>>=◌}
use tftp_os.Json.{Fields}
use tftp_os.Audit.{AuditConfig}
use tftp_os.Webhooks.{WebhookConfig, new_webhook}
use tftp_os.Config.{TomlFile, config_table}
use tftp_os.Config.Read.{
  need_text, text_or, num_or, bool_or, option_text_of, fields_of, items_of, texts_of, each_table,
  or_text, if_text,
}

pub record DatabaseConfig : Type 0 where
  pub backend : Text
  pub url : Text

pub record RateLimitSettings : Type 0 where
  pub enabled : Bool
  pub tftp_requests_per_minute : ℕ
  pub tftp_burst : ℕ
  pub api_requests_per_minute : ℕ
  pub api_burst : ℕ
  pub auth_requests_per_minute : ℕ
  pub auth_burst : ℕ

pub record LoggingConfig : Type 0 where
  pub level : Text
  pub json_format : Bool
  pub log_file : Option Text
  pub max_bytes : ℕ
  pub backup_count : ℕ
  pub syslog_enabled : Bool
  pub syslog_address : Text
  pub journald_enabled : Bool

pub record TftpOsConfig : Type 0 where
  pub server_host : Text
  pub server_port : ℕ
  pub tls_cert : Option Text
  pub tls_key : Option Text
  pub tls_auto_generate : Bool
  pub tftp_root : Text
  pub distro_root : Text
  pub data_dir : Text
  pub auth_enabled : Bool
  pub service_name : Text
  pub enable_discovery : Bool
  pub rate_limit : RateLimitSettings
  pub logging : LoggingConfig
  pub audit : AuditConfig
  pub database : DatabaseConfig
  pub webhooks : List WebhookConfig

unfoldable pub rate_limit_settings : Fields → Result RateLimitSettings
unfolding num_or bool_or
rate_limit_settings rl = do
  enabled ← bool_or (codes "enabled") false rl
  tftp_requests ← num_or (codes "tftp_requests_per_minute") 300 rl
  tftp_burst ← num_or (codes "tftp_burst") 50 rl
  api_requests ← num_or (codes "api_requests_per_minute") 60 rl
  api_burst ← num_or (codes "api_burst") 20 rl
  auth_requests ← num_or (codes "auth_requests_per_minute") 10 rl
  auth_burst ← num_or (codes "auth_burst") 5 rl
  ok (record {
    enabled = enabled;
    tftp_requests_per_minute = tftp_requests;
    tftp_burst = tftp_burst;
    api_requests_per_minute = api_requests;
    api_burst = api_burst;
    auth_requests_per_minute = auth_requests;
    auth_burst = auth_burst;
  })

unfoldable pub logging_config : Fields → Result LoggingConfig
unfolding text_or num_or bool_or option_text_of
logging_config log = do
  level ← text_or (codes "level") (codes "INFO") log
  json_format ← bool_or (codes "json_format") false log
  log_file ← option_text_of (codes "log_file") log
  max_bytes ← num_or (codes "max_bytes") 10485760 log
  backup_count ← num_or (codes "backup_count") 5 log
  syslog_enabled ← bool_or (codes "syslog_enabled") false log
  syslog_address ← text_or (codes "syslog_address") (codes "/dev/log") log
  journald_enabled ← bool_or (codes "journald_enabled") false log
  ok (record {
    level = level;
    json_format = json_format;
    log_file = if_text log_file;
    max_bytes = max_bytes;
    backup_count = backup_count;
    syslog_enabled = syslog_enabled;
    syslog_address = syslog_address;
    journald_enabled = journald_enabled;
  })

unfoldable pub audit_config : Fields → Result AuditConfig
unfolding text_or num_or bool_or option_text_of
audit_config section = do
  enabled ← bool_or (codes "enabled") true section
  log_file ← option_text_of (codes "log_file") section
  max_bytes ← num_or (codes "max_bytes") 52428800 section
  backup_count ← num_or (codes "backup_count") 10 section
  log_to_stdout ← bool_or (codes "log_to_stdout") false section
  buffer_size ← num_or (codes "buffer_size") 1000 section
  syslog_enabled ← bool_or (codes "syslog_enabled") false section
  syslog_address ← text_or (codes "syslog_address") (codes "/dev/log") section
  ok (record {
    enabled = enabled;
    log_file = if_text log_file;
    max_bytes = max_bytes;
    backup_count = backup_count;
    log_to_stdout = log_to_stdout;
    buffer_size = buffer_size;
    syslog_enabled = syslog_enabled;
    syslog_address = syslog_address;
  })

unfoldable pub database_config : Fields → Result DatabaseConfig
unfolding text_or
database_config section = do
  backend ← text_or (codes "backend") (codes "sqlite") section
  url ← text_or (codes "url") (codes "sqlite:///tftpos.db") section
  ok (record { backend = backend; url = url })

-- The scheme of a URL is that of `urlparse`.
unfoldable pub webhook_config : (Text → Text) → Fields → Result WebhookConfig
unfolding need_text texts_of text_or num_or new_webhook
webhook_config scheme wh = do
  url ← need_text (codes "url") wh
  events ← texts_of (codes "events") wh
  secret ← text_or (codes "secret") [] wh
  retry_count ← num_or (codes "retry_count") 3 wh
  timeout ← num_or (codes "timeout") 10 wh
  new_webhook scheme (record {
    url = url;
    events = events;
    secret = secret;
    retry_count = retry_count;
    timeout = timeout;
  })

-- The webhooks of the file.
unfoldable pub webhooks_of : (Text → Text) → Fields → Result (List WebhookConfig)
unfolding items_of each_table webhook_config
webhooks_of scheme whole = items_of (codes "webhooks") whole >>= each_table (webhook_config scheme)

-- All but the webhooks.
unfoldable pub config_without : Fields → Result TftpOsConfig
unfolding text_or num_or bool_or option_text_of fields_of rate_limit_settings logging_config
    audit_config database_config
config_without whole = do
  server ← fields_of (codes "server") whole
  paths ← fields_of (codes "paths") whole
  auth ← fields_of (codes "auth") whole
  discovery ← fields_of (codes "discovery") whole
  tls_section ← fields_of (codes "tls") whole
  cert ← option_text_of (codes "cert") tls_section
  server_cert ← option_text_of (codes "tls_cert") server
  key ← option_text_of (codes "key") tls_section
  server_key ← option_text_of (codes "tls_key") server
  tls_auto_generate ← bool_or (codes "auto_generate") true tls_section
  rate_limit ← fields_of (codes "rate_limit") whole >>= rate_limit_settings
  logging ← fields_of (codes "logging") whole >>= logging_config
  audit ← fields_of (codes "audit") whole >>= audit_config
  database ← fields_of (codes "database") whole >>= database_config
  server_host ← text_or (codes "host") (codes "0.0.0.0") server
  server_port ← num_or (codes "port") 8443 server
  tftp_root ← text_or (codes "tftp_root") (codes "/srv/tftp") paths
  distro_root ← text_or (codes "distro_root") (codes "/srv/tftpos/distros") paths
  data_dir ← text_or (codes "data_dir") (codes "/etc/tftpos") paths
  auth_enabled ← bool_or (codes "enabled") false auth
  service_name ← text_or (codes "service_name") (codes "tftpos") discovery
  enable_discovery ← bool_or (codes "enabled") false discovery
  ok (record {
    server_host = server_host;
    server_port = server_port;
    tls_cert = if_text (or_text cert server_cert);
    tls_key = if_text (or_text key server_key);
    tls_auto_generate = tls_auto_generate;
    tftp_root = tftp_root;
    distro_root = distro_root;
    data_dir = data_dir;
    auth_enabled = auth_enabled;
    service_name = service_name;
    enable_discovery = enable_discovery;
    rate_limit = rate_limit;
    logging = logging;
    audit = audit;
    database = database;
    webhooks = [];
  })

unfoldable pub config_of : (Text → Text) → Fields → Result TftpOsConfig
unfolding config_without webhooks_of
config_of scheme whole = do
  config ← config_without whole
  webhooks ← webhooks_of scheme whole
  ok (record config { webhooks = webhooks })

unfoldable pub load_config : (Text → Text) → TomlFile → Result TftpOsConfig
unfolding config_of
load_config scheme f = config_table f >>= config_of scheme
