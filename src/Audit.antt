-- ===== src/Audit.antt =====
-- tftpos/audit.py: the audit log. An entry is a dict; what the handlers (file, output, syslog) are
-- given is the list `written`. The time and the random id of an entry are arguments. The handlers
-- themselves are code of the logging library.
pub mod Events
pub mod Query
pub mod Buffer
pub mod Search
pub mod Typed
use tftp_os.Prelude.{
  ℕ, Bool, true, false, Option, none, some, List, [], ◌∷◌, ◌++◌, if◌then◌else◌, codes, text_eq,
}
use tftp_os.Prelude.Recent.{keep_last}
use tftp_os.Prelude.Text.{Text}
use tftp_os.Json.{Json, num, text}
use tftp_os.Dict
use tftp_os.Dict.{Dict}

pub record AuditConfig : Type 0 where
  pub enabled : Bool
  pub log_file : Option Text
  pub max_bytes : ℕ
  pub backup_count : ℕ
  pub log_to_stdout : Bool
  pub buffer_size : ℕ
  pub syslog_enabled : Bool
  pub syslog_address : Text

abbrev pub default_config : AuditConfig
default_config = record {
  enabled = true;
  log_file = none;
  max_bytes = 52428800;
  backup_count = 10;
  log_to_stdout = false;
  buffer_size = 1000;
  syslog_enabled = false;
  syslog_address = codes "/dev/log";
}

abbrev pub Entry : Type 0
Entry = Dict Text Json

-- What one entry takes from its surroundings: the time, and the id.
pub record Stamp : Type 0 where
  pub time : ℕ
  pub event_id : Text

-- entry.update(details)
unfoldable pub update : Entry → Dict Text Json → Entry
update entry [] = entry
update entry ((k, v) ∷ details) = update (Dict.put k v entry) details

abbrev pub with_client : Option Text → Entry → Entry
with_client none entry = entry
with_client (some ip) entry = Dict.put (codes "client_ip") (text ip) entry

-- The fields of every entry.
abbrev pub first_fields : Stamp → Text → Entry
first_fields stamp event_type =
    (codes "timestamp", num stamp.time)
    ∷ (codes "event_id", text stamp.event_id)
    ∷ (codes "event_type", text event_type)
    ∷ []

unfoldable pub make_entry : Stamp → Text → Dict Text Json → Option Text → Entry
unfolding update
make_entry stamp event_type details client_ip =
    update (with_client client_ip (first_fields stamp event_type)) details

pub record AuditLogger : Type 0 where
  pub config : AuditConfig
  pub buffer : List Entry
  pub written : List Entry

unfoldable pub init : AuditConfig → AuditLogger
init config = record { config = config; buffer = []; written = [] }

-- The append to a `deque` with a greatest length.
unfoldable pub append : AuditLogger → Entry → AuditLogger
unfolding keep_last
append l entry = record l {
  written = l.written ++ entry ∷ [];
  buffer = keep_last l.config.buffer_size (l.buffer ++ entry ∷ []);
}

unfoldable pub log : AuditLogger → Stamp → Text → Dict Text Json → Option Text → AuditLogger × Entry
unfolding make_entry append
log l stamp event_type details client_ip =
    if l.config.enabled
    then (let entry = make_entry stamp event_type details client_ip in (append l entry, entry))
    else (l, [])

-- The module's `_audit_logger`: `init_audit` and `get_audit_logger`.
unfoldable pub init_audit : Option AuditConfig → Option AuditLogger × AuditLogger
unfolding init
init_audit none = (some (init default_config), init default_config)
init_audit (some config) = (some (init config), init config)

unfoldable pub get_audit_logger : Option AuditLogger → Option AuditLogger × AuditLogger
unfolding init
get_audit_logger none = (some (init default_config), init default_config)
get_audit_logger (some l) = (some l, l)
