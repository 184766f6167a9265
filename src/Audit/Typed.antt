-- ===== src/Audit/Typed.antt =====
-- The logs that the methods of AuditLogger write: a query on them raises nothing.
use tftp_os.Prelude.{
  ℕ, ◌≡◌, refl, arith, Bool, true, false, ◌&&◌, Option, none, some, [], ◌∷◌, if◌then◌else◌, codes,
  text_eq, text_beq, ◌==◌, filter, All, Bool-cases, inl, inr,
}
use mathlib.Core.List.{reverse}
use tftp_os.Prelude.Recent.{take, All-append, All-keep_last}
use tftp_os.Prelude.Text.{Text}
use tftp_os.Result.{ok}
use tftp_os.Json.{Json, Fields}
use tftp_os.Dict
use tftp_os.Dict.{Dict}
use tftp_os.Dict.Laws.{get-put}
use tftp_os.Audit.{
  AuditConfig, AuditLogger, Entry, Stamp, init, update, first_fields, with_client, make_entry,
  append, log,
}
use tftp_os.Audit.Events.{
  when_text, when_num, log_boot_request, log_autoinstall_fetch, log_state_transition,
  log_host_rule_change, log_auth_event, log_api_key_change, log_webhook_delivery,
  log_netboot_change, mac_details, transition_details, rule_details, auth_details, key_details,
  delivery_details, netboot_details,
}
use tftp_os.Audit.Query.{query}
use tftp_os.Audit.Search.{is_text, is_num, IsTyped, passes, query_lem}

-- The detail is no MAC address that is not a text, and no time that is not a number.
abbrev pub fits : Text → Json → Bool
fits k v =
    (if k == codes "mac" then is_text (some v) else true)
    && (if k == codes "timestamp" then is_num (some v) else true)

abbrev pub Fits : Text × Json → Type 0
Fits p = fits p.0 p.1 ≡ true

put-IsTyped : (k : Text) (v : Json) (e : Entry) → Fits (k, v) → IsTyped e → IsTyped (Dict.put k v e)
put-IsTyped k v e f (m, t) = rw (get-put, get-put) (ground arith)

update-IsTyped :
    (e : Entry) (details : Dict Text Json)
    → All Fits details
    → IsTyped e
    → IsTyped (update e details)
unfolding update
update-IsTyped e [] f t = t
update-IsTyped e ((k, v) ∷ details) (f, fs) t =
    update-IsTyped (Dict.put k v e) details fs (put-IsTyped k v e f t)

make_entry-IsTyped :
    (stamp : Stamp) (t : Text) (details : Dict Text Json) (ip : Option Text)
    → All Fits details
    → IsTyped (make_entry stamp t details ip)
unfolding make_entry Dict.get text_beq Dict.put
make_entry-IsTyped stamp t details none fs =
    update-IsTyped (with_client none (first_fields stamp t)) details fs (refl, refl)
make_entry-IsTyped stamp t details (some ip) fs =
    update-IsTyped (with_client (some ip) (first_fields stamp t)) details fs (refl, refl)

log-IsTyped :
    (l : AuditLogger) (stamp : Stamp) (t : Text) (details : Dict Text Json) (ip : Option Text)
    → All IsTyped l.buffer
    → All Fits details
    → All IsTyped (log l stamp t details ip).0.buffer
unfolding log append
log-IsTyped l stamp t details ip typed fs = elim (Bool-cases l.config.enabled) [
  | inl on ↦ simp on (
      All-keep_last IsTyped l.config.buffer_size _ (
        All-append IsTyped l.buffer (make_entry stamp t details ip ∷ []) typed
          (make_entry-IsTyped stamp t details ip fs, tt)))
  | inr off ↦ simp off typed
]

when_text-Fits :
    (k : Text) (o : Option Text) → (k == codes "timestamp") ≡ false → All Fits (when_text k o)
unfolding when_text
when_text-Fits k none h = tt
when_text-Fits k (some t) h = ground arith

when_num-Fits : (o : Option ℕ) → All Fits (when_num (codes "status_code") o)
unfolding when_num text_beq
when_num-Fits none = tt
when_num-Fits (some n) = (refl, tt)

-- The loggers that the program has: a new one, and what each method makes of one; the details that
-- `log` is given directly name a MAC address by a text and a time by a number, if at all.
pub data IsLogged : AuditLogger → Type 0 where
  started : (config : AuditConfig) → IsLogged (init config)
  logged :
      {l : AuditLogger} (s : Stamp) (event_type : Text) (details : Dict Text Json)
      (ip : Option Text)
      → All Fits details
      → IsLogged l
      → IsLogged (log l s event_type details ip).0
  boot_request :
      {l : AuditLogger} (s : Stamp) (mac : Text) (profile ip : Option Text)
      → IsLogged l
      → IsLogged (log_boot_request l s mac profile ip).0
  autoinstall_fetch :
      {l : AuditLogger} (s : Stamp) (mac : Text) (profile ip : Option Text)
      → IsLogged l
      → IsLogged (log_autoinstall_fetch l s mac profile ip).0
  state_transition :
      {l : AuditLogger} (s : Stamp) (mac old_state new_state : Text)
      (profile error_message : Option Text)
      → IsLogged l
      → IsLogged (log_state_transition l s mac old_state new_state profile error_message).0
  host_rule_change :
      {l : AuditLogger} (s : Stamp) (action : Text) (rule_data : Fields) (ip : Option Text)
      → IsLogged l
      → IsLogged (log_host_rule_change l s action rule_data ip).0
  auth_event :
      {l : AuditLogger} (s : Stamp) (success : Bool)
      (key_name role required_role reason ip : Option Text)
      → IsLogged l
      → IsLogged (log_auth_event l s success key_name role required_role reason ip).0
  api_key_change :
      {l : AuditLogger} (s : Stamp) (action key_name : Text) (role ip : Option Text)
      → IsLogged l
      → IsLogged (log_api_key_change l s action key_name role ip).0
  webhook_delivery :
      {l : AuditLogger} (s : Stamp) (id url event : Text) (success : Bool) (attempts : ℕ)
      (status : Option ℕ) (error : Option Text)
      → IsLogged l
      → IsLogged (log_webhook_delivery l s id url event success attempts status error).0
  netboot_change :
      {l : AuditLogger} (s : Stamp) (mac : Text) (enabled : Bool) (ip : Option Text)
      → IsLogged l
      → IsLogged (log_netboot_change l s mac enabled ip).0

IsLogged-IsTyped : {l : AuditLogger} → IsLogged l → All IsTyped l.buffer
unfolding log_boot_request log_autoinstall_fetch log_state_transition log_host_rule_change
    log_auth_event log_api_key_change log_webhook_delivery log_netboot_change init text_beq
IsLogged-IsTyped (started config) = tt
IsLogged-IsTyped (logged {l = l} s t details ip fs h) =
    log-IsTyped l s t details ip (IsLogged-IsTyped h) fs
IsLogged-IsTyped (boot_request {l = l} s mac p ip h) =
    log-IsTyped l s _ (mac_details mac p) ip (IsLogged-IsTyped h)
      (refl, when_text-Fits (codes "profile") p refl)
IsLogged-IsTyped (autoinstall_fetch {l = l} s mac p ip h) =
    log-IsTyped l s _ (mac_details mac p) ip (IsLogged-IsTyped h)
      (refl, when_text-Fits (codes "profile") p refl)
IsLogged-IsTyped (state_transition {l = l} s mac o n p e h) =
    log-IsTyped l s _ (transition_details mac o n p e) none (IsLogged-IsTyped h) (
      refl,
      (
        refl,
        (
          refl,
          All-append Fits (when_text (codes "profile") p) (when_text (codes "error_message") e)
              (when_text-Fits (codes "profile") p refl)
              (when_text-Fits (codes "error_message") e refl),
        ),
      ),
    )
IsLogged-IsTyped (host_rule_change {l = l} s a r ip h) =
    log-IsTyped l s _ (rule_details a r) ip (IsLogged-IsTyped h) (refl, (refl, tt))
IsLogged-IsTyped (auth_event {l = l} s b k r q w ip h) =
    log-IsTyped l s _ (auth_details k r q w) ip (IsLogged-IsTyped h) (
      All-append Fits _ _ (when_text-Fits (codes "key_name") k refl) (
        All-append Fits _ _ (when_text-Fits (codes "role") r refl) (
          All-append Fits _ _ (when_text-Fits (codes "required_role") q refl)
            (when_text-Fits (codes "reason") w refl))))
IsLogged-IsTyped (api_key_change {l = l} s a k r ip h) =
    log-IsTyped l s _ (key_details a k r) ip (IsLogged-IsTyped h)
      (refl, (refl, when_text-Fits (codes "role") r refl))
IsLogged-IsTyped (webhook_delivery {l = l} s i u e b n c w h) =
    log-IsTyped l s _ (delivery_details i u e b n c w) none (IsLogged-IsTyped h) (
      refl,
      (
        refl,
        (
          refl,
          (
            refl,
            (
              refl,
              All-append Fits (when_num (codes "status_code") c) (when_text (codes "error") w)
                  (when_num-Fits c) (when_text-Fits (codes "error") w refl),
            ),
          ),
        ),
      ),
    )
IsLogged-IsTyped (netboot_change {l = l} s mac b ip h) =
    log-IsTyped l s _ (netboot_details mac b) ip (IsLogged-IsTyped h) (refl, (refl, tt))

-- On every logger that the program has, whatever log and the methods for one kind of event have logged,
-- where the details given to log itself have no mac that is not a text and no timestamp that is not a
-- number: a query raises nothing, and answers the entries of the buffer that pass every given filter,
-- the newest first, and of them at most as many as the limit.
pub query-IsLogged :
    (l : AuditLogger) (mac event_type : Option Text) (since : Option ℕ) (limit : ℕ)
    → IsLogged l
    → query l mac event_type since limit
      ≡ ok (take limit (reverse (filter (passes mac event_type since) l.buffer)))
query-IsLogged l mac event_type since limit h =
    query_lem l mac event_type since limit (IsLogged-IsTyped h)
