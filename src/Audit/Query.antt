-- ===== src/Audit/Query.antt =====
-- `query` of AuditLogger. A filter reads a value of an entry at the type that it needs, and raises
-- where the value has another. The limit is a natural number.
use tftp_os.Prelude.{
  ℕ, Bool, false, Option, none, some, List, [], ◌∷◌, if◌then◌else◌, codes, text_eq, lower, contains,
  leb, ◌==◌, length,
}
use mathlib.Core.List.{reverse}
use tftp_os.Prelude.Recent.{take}
use tftp_os.Prelude.Text.{Text}
use tftp_os.Result.{Result, ok, raise, attribute_error, type_error, ◌>>=◌}
use tftp_os.Json.{Json, num, text}
use tftp_os.Dict
use tftp_os.Audit.{AuditLogger, Entry}

-- mac_lower in e.get("mac", "").lower()
unfoldable pub mac_matches : Text → Option Json → Result Bool
mac_matches mac_lower none = ok (contains [] mac_lower)
mac_matches mac_lower (some (text t)) = ok (contains (lower t) mac_lower)
mac_matches mac_lower (some v) = raise attribute_error

-- e.get("event_type") == event_type
unfoldable pub type_matches : Text → Option Json → Bool
type_matches event_type (some (text t)) = t == event_type
type_matches event_type _ = false

-- e.get("timestamp", 0) >= since
unfoldable pub time_matches : ℕ → Option Json → Result Bool
time_matches since none = ok (leb since 0)
time_matches since (some (num n)) = ok (leb since n)
time_matches since (some v) = raise type_error

-- [e for e in entries if test(e)]
unfoldable pub keep_if : (Entry → Result Bool) → List Entry → Result (List Entry)
keep_if test [] = ok []
keep_if test (e ∷ entries) =
    let rest = keep_if test entries in do b ← test e; kept ← rest; ok (if b then e ∷ kept else kept)

-- if value is not None: entries = [e for e in entries if test(value, e)]
unfoldable pub keep_given :
    {V : Type 0} → (V → Entry → Result Bool) → Option V → List Entry → Result (List Entry)
unfolding keep_if
keep_given test none entries = ok entries
keep_given test (some value) entries = keep_if (test value) entries

unfoldable pub query : AuditLogger → Option Text → Option Text → Option ℕ → ℕ → Result (List Entry)
unfolding keep_given mac_matches type_matches time_matches take contains
query l mac event_type since limit = do
  by_mac ← keep_given (λ m e. mac_matches (lower m) (Dict.get (codes "mac") e)) mac l.buffer
  by_type ←
      keep_given (λ t e. ok (type_matches t (Dict.get (codes "event_type") e))) event_type by_mac
  by_time ← keep_given (λ s e. time_matches s (Dict.get (codes "timestamp") e)) since by_type
  ok (take limit (reverse by_time))

unfoldable pub buffer_size : AuditLogger → ℕ
buffer_size l = length l.buffer
