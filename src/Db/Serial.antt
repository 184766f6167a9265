-- ===== src/Db/Serial.antt =====
-- `_record_to_dict` and `_dict_to_record`, with `ProvisionState(value)`. A field of a type that the
-- program does not write is refused here.
use tftp_os.Prelude.{
  ℕ, true, List, [], ◌∷◌, ◌≡◌, refl, ◌==◌, text_eq, text_beq, codes, if◌then◌else◌,
}
use tftp_os.Prelude.Text.{Text}
use tftp_os.Result.{Result, ok, raise, value_error, ◌>>=◌}
use tftp_os.ProvisionRecord.{
  ProvisionState, registered, booting, installing, post_install, complete, failed, ProvisionRecord,
  state_value,
}
use tftp_os.Json.{
  Json, null, bool, num, text, arr, obj, Items, nil, cons, Fields, end, field, item, item_or,
  as_text, as_num, as_bool, as_fields, as_items, as_option_num, as_option_text, option_num,
  option_text, as_option_num-option_num, as_option_text-option_text,
}

-- ProvisionState(value)
unfoldable pub state_of : Text → Result ProvisionState
state_of v =
    if v == codes "registered"
    then ok registered
    else if v == codes "booting"
    then ok booting
    else if v == codes "installing"
    then ok installing
    else if v == codes "post_install"
    then ok post_install
    else if v == codes "complete"
    then ok complete
    else if v == codes "failed"
    then ok failed
    else raise value_error

pub state_of-state_value : (s : ProvisionState) → state_of (state_value s) ≡ ok s
unfolding state_of state_value text_beq
state_of-state_value registered = refl
state_of-state_value booting = refl
state_of-state_value installing = refl
state_of-state_value post_install = refl
state_of-state_value complete = refl
state_of-state_value failed = refl

unfoldable pub history_to_items : List (ProvisionState × ℕ) → Items
unfolding state_value
history_to_items [] = nil
history_to_items ((s, ts) ∷ h) =
    cons
      (obj (field (codes "state") (text (state_value s)) (field (codes "timestamp") (num ts) end)))
      (history_to_items h)

entry_of : Json → Result (ProvisionState × ℕ)
unfolding as_num state_of item as_text as_fields
entry_of v = do
  h ← as_fields v
  state ← item (codes "state") h
  value ← as_text state
  s ← state_of value
  stamp ← item (codes "timestamp") h
  ts ← as_num stamp
  ok (s, ts)

unfoldable pub items_to_history : Items → Result (List (ProvisionState × ℕ))
unfolding entry_of
items_to_history nil = ok []
items_to_history (cons v vs) =
    let rest = items_to_history vs in do e ← entry_of v; h ← rest; ok (e ∷ h)

unfoldable pub record_to_dict : ProvisionRecord → Fields
unfolding history_to_items state_value option_num option_text
record_to_dict r = field (codes "mac") (text r.mac) (
    field (codes "profile") (text r.profile) (
      field (codes "os_family") (text r.os_family) (
        field (codes "os_version") (text r.os_version) (
          field (codes "state") (text (state_value r.state)) (
            field (codes "started_at") (option_num r.started_at) (
              field (codes "updated_at") (option_num r.updated_at) (
                field (codes "completed_at") (option_num r.completed_at) (
                  field (codes "error_message") (option_text r.error_message) (
                    field (codes "history") (arr (history_to_items r.history))
                      (field (codes "netboot_enabled") (bool r.netboot_enabled) end))))))))))

unfoldable pub dict_to_record : Fields → Result ProvisionRecord
unfolding items_to_history item item_or as_text as_bool as_items as_option_num as_option_text
    state_of
dict_to_record d = do
  history_items ← as_items (item_or (codes "history") (arr nil) d)
  history ← items_to_history history_items
  mac ← item (codes "mac") d
  mac ← as_text mac
  profile ← item (codes "profile") d
  profile ← as_text profile
  os_family ← item (codes "os_family") d
  os_family ← as_text os_family
  os_version ← item (codes "os_version") d
  os_version ← as_text os_version
  state ← item (codes "state") d
  state ← as_text state
  state ← state_of state
  started_at ← as_option_num (item_or (codes "started_at") null d)
  updated_at ← as_option_num (item_or (codes "updated_at") null d)
  completed_at ← as_option_num (item_or (codes "completed_at") null d)
  error_message ← as_option_text (item_or (codes "error_message") null d)
  netboot_enabled ← as_bool (item_or (codes "netboot_enabled") (bool true) d)
  ok (record {
    mac = mac;
    profile = profile;
    os_family = os_family;
    os_version = os_version;
    state = state;
    started_at = started_at;
    updated_at = updated_at;
    completed_at = completed_at;
    error_message = error_message;
    history = history;
    netboot_enabled = netboot_enabled;
  })

pub items_to_history-history_to_items :
    (h : List (ProvisionState × ℕ)) → items_to_history (history_to_items h) ≡ ok h
unfolding items_to_history history_to_items text_beq
items_to_history-history_to_items [] = refl
items_to_history-history_to_items ((s, ts) ∷ h) =
    rw (state_of-state_value s, items_to_history-history_to_items h) refl

-- A record that is written as a dict is read back as it was.
pub dict_to_record-record_to_dict : (r : ProvisionRecord) → dict_to_record (record_to_dict r) ≡ ok r
unfolding dict_to_record record_to_dict text_beq
dict_to_record-record_to_dict r =
    rw
      (
        items_to_history-history_to_items r.history,
        state_of-state_value r.state,
        as_option_num-option_num r.started_at,
        as_option_num-option_num r.updated_at,
        as_option_num-option_num r.completed_at,
        as_option_text-option_text r.error_message,
      )
      refl
