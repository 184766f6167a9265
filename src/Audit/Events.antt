-- ===== src/Audit/Events.antt =====
-- The methods of AuditLogger that log one kind of event each.
use tftp_os.Prelude.{
  ℕ, Bool, Option, none, some, [], ◌∷◌, ◌++◌, if◌then◌else◌, codes, text_eq, truthy, ◌==◌,
}
use tftp_os.Prelude.Text.{Text}
use tftp_os.Json.{Json, num, text, bool, obj, Fields}
use tftp_os.Dict.{Dict}
use tftp_os.Audit.{AuditLogger, Entry, Stamp, log}

-- if value: details[key] = value
unfoldable pub when_text : Text → Option Text → Dict Text Json
when_text key none = []
when_text key (some value) = if truthy value then (key, text value) ∷ [] else []

-- if status_code is not None: details["status_code"] = status_code
unfoldable pub when_num : Text → Option ℕ → Dict Text Json
when_num key none = []
when_num key (some n) = (key, num n) ∷ []

-- The details of each method.
abbrev pub mac_details : Text → Option Text → Dict Text Json
mac_details mac profile = (codes "mac", text mac) ∷ when_text (codes "profile") profile

abbrev pub transition_details : Text → Text → Text → Option Text → Option Text → Dict Text Json
transition_details mac old_state new_state profile error_message =
    (codes "mac", text mac)
    ∷ (codes "old_state", text old_state)
    ∷ (codes "new_state", text new_state)
    ∷ (when_text (codes "profile") profile ++ when_text (codes "error_message") error_message)

abbrev pub rule_details : Text → Fields → Dict Text Json
rule_details action rule_data = (codes "action", text action) ∷ (codes "rule", obj rule_data) ∷ []

abbrev pub auth_details : Option Text → Option Text → Option Text → Option Text → Dict Text Json
auth_details key_name role required_role reason =
    when_text (codes "key_name") key_name
    ++ (when_text (codes "role") role
        ++ (when_text (codes "required_role") required_role ++ when_text (codes "reason") reason))

abbrev pub key_details : Text → Text → Option Text → Dict Text Json
key_details action key_name role =
    (codes "action", text action)
    ∷ (codes "key_name", text key_name)
    ∷ when_text (codes "role") role

abbrev pub delivery_details :
    Text → Text → Text → Bool → ℕ → Option ℕ → Option Text → Dict Text Json
delivery_details delivery_id webhook_url event success attempts status_code error =
    (codes "delivery_id", text delivery_id)
    ∷ (codes "webhook_url", text webhook_url)
    ∷ (codes "event", text event)
    ∷ (codes "success", bool success)
    ∷ (codes "attempts", num attempts)
    ∷ (when_num (codes "status_code") status_code ++ when_text (codes "error") error)

abbrev pub netboot_details : Text → Bool → Dict Text Json
netboot_details mac enabled = (codes "mac", text mac) ∷ (codes "netboot_enabled", bool enabled) ∷ []

module _ (l : AuditLogger) (stamp : Stamp) where
  unfoldable pub log_boot_request : Text → Option Text → Option Text → AuditLogger × Entry
  unfolding log
  log_boot_request mac profile client_ip =
      log l stamp (codes "boot_request") (mac_details mac profile) client_ip

  unfoldable pub log_autoinstall_fetch : Text → Option Text → Option Text → AuditLogger × Entry
  unfolding log
  log_autoinstall_fetch mac profile client_ip =
      log l stamp (codes "autoinstall_fetch") (mac_details mac profile) client_ip

  unfoldable pub log_state_transition :
      Text → Text → Text → Option Text → Option Text → AuditLogger × Entry
  unfolding log
  log_state_transition mac old_state new_state profile error_message =
      log l stamp (codes "state_transition")
        (transition_details mac old_state new_state profile error_message) none

  unfoldable pub log_host_rule_change : Text → Fields → Option Text → AuditLogger × Entry
  unfolding log
  log_host_rule_change action rule_data client_ip =
      log l stamp (codes "host_rule_change") (rule_details action rule_data) client_ip

  unfoldable pub log_auth_event :
      Bool
      → Option Text
      → Option Text
      → Option Text
      → Option Text
      → Option Text
      → AuditLogger × Entry
  unfolding log
  log_auth_event success key_name role required_role reason client_ip =
      log l stamp (if success then codes "auth_success" else codes "auth_failure")
        (auth_details key_name role required_role reason) client_ip

  unfoldable pub log_api_key_change : Text → Text → Option Text → Option Text → AuditLogger × Entry
  unfolding log
  log_api_key_change action key_name role client_ip =
      log l stamp
        (if action == codes "created" then codes "api_key_created" else codes "api_key_deleted")
        (key_details action key_name role) client_ip

  unfoldable pub log_webhook_delivery :
      Text → Text → Text → Bool → ℕ → Option ℕ → Option Text → AuditLogger × Entry
  unfolding log
  log_webhook_delivery delivery_id webhook_url event success attempts status_code error =
      log l stamp (codes "webhook_delivery")
        (delivery_details delivery_id webhook_url event success attempts status_code error) none

  unfoldable pub log_netboot_change : Text → Bool → Option Text → AuditLogger × Entry
  unfolding log
  log_netboot_change mac enabled client_ip =
      log l stamp (codes "netboot_change") (netboot_details mac enabled) client_ip
