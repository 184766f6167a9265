-- ===== src/Tests/Logs.antt =====
-- tftpos/audit.py with a buffer of one entry.
use tftp_os.Prelude.{
  ◌≡◌, refl, text_beq, false, none, some, [], ◌∷◌, codes, map, filter, if◌then◌else◌,
}
use mathlib.Core.List.{reverse}
use tftp_os.Prelude.Recent.{take, keep_last}
use tftp_os.Result.{ok}
use tftp_os.Json.{Json, num, text}
use tftp_os.Dict.{Dict}
use tftp_os.Prelude.Text.{Text}
use tftp_os.Audit.{AuditConfig, default_config, AuditLogger, Stamp, init, log}
use tftp_os.Audit.Events.{log_netboot_change}
use tftp_os.Audit.Query.{query}
use tftp_os.Audit.Buffer.{Call, run, entry_of, run-buffer}
use tftp_os.Audit.Search.{passes}
use tftp_os.Audit.Typed.{IsLogged, started, logged, netboot_change, query-IsLogged}

abbrev config : AuditConfig
config = record default_config { buffer_size = 1 }

abbrev stamp : Stamp
stamp = record { time = 7; event_id = codes "0a" }

abbrev call : Call
call = record {
  stamp = stamp;
  event_type = codes "boot_request";
  details = (codes "mac", text (codes "aa")) ∷ [];
  client_ip = none;
}

run-buffer_example :
    ((run (init config) (call ∷ call ∷ [])).written
      ≡ (if config.enabled then map entry_of (call ∷ call ∷ []) else []))
    × ((run (init config) (call ∷ call ∷ [])).buffer ≡ (
        if config.enabled
        then keep_last config.buffer_size (map entry_of (call ∷ call ∷ []))
        else []))
run-buffer_example = run-buffer config (call ∷ call ∷ [])

abbrev details : Dict Text Json
details = (codes "mac", text (codes "AA")) ∷ (codes "timestamp", num 8) ∷ []

abbrev logger : AuditLogger
logger =
    (log_netboot_change (log (init config) stamp (codes "custom") details none).0 stamp (codes "aa")
      false none).0

logger-IsLogged : IsLogged logger
unfolding text_beq
logger-IsLogged =
    netboot_change stamp (codes "aa") false none
      (logged stamp (codes "custom") details none (refl, (refl, tt)) (started config))

query-IsLogged_example :
    query logger (some (codes "A")) none (some 7) 5
    ≡ ok (take 5 (reverse (filter (passes (some (codes "A")) none (some 7)) logger.buffer)))
query-IsLogged_example = query-IsLogged logger (some (codes "A")) none (some 7) 5 logger-IsLogged
