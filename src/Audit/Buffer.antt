-- ===== src/Audit/Buffer.antt =====
-- What the buffer of the audit log holds.
use tftp_os.Prelude.{
  ◌≤◌, ◌≡◌, refl, sym, ◌∙◌, ap, arith, true, false, Option, List, [], ◌∷◌, ◌++◌, map, if◌then◌else◌,
  length, Bool-cases, inl, inr,
}
use mathlib.Core.List.{append_assoc, append-nil}
use tftp_os.Prelude.Recent.{keep_last, keep_last-append, keep_last_self, length-keep_last}
use tftp_os.Prelude.Text.{Text}
use tftp_os.Json.{Json}
use tftp_os.Dict.{Dict}
use tftp_os.Audit.{AuditConfig, AuditLogger, Entry, Stamp, init, make_entry, append, log}

-- One call of `log`.
pub record Call : Type 0 where
  pub stamp : Stamp
  pub event_type : Text
  pub details : Dict Text Json
  pub client_ip : Option Text

-- The logger after the calls, one after the other.
unfoldable pub run : AuditLogger → List Call → AuditLogger
run l [] = l
run l (c ∷ calls) = run (log l c.stamp c.event_type c.details c.client_ip).0 calls

-- The entry of a call.
unfoldable pub entry_of : Call → Entry
entry_of c = make_entry c.stamp c.event_type c.details c.client_ip

log_off :
    (l : AuditLogger) (c : Call)
    → l.config.enabled ≡ false
    → (log l c.stamp c.event_type c.details c.client_ip).0 ≡ l
unfolding log
log_off l c off = simp off

log_on :
    (l : AuditLogger) (c : Call)
    → l.config.enabled ≡ true
    → (log l c.stamp c.event_type c.details c.client_ip).0 ≡ append l (entry_of c)
unfolding log entry_of
log_on l c on = simp on

run_disabled : (l : AuditLogger) (calls : List Call) → l.config.enabled ≡ false → run l calls ≡ l
unfolding run
run_disabled l [] off = refl
run_disabled l (c ∷ calls) off = rw (log_off l c off) (run_disabled l calls off)

run_enabled :
    (l : AuditLogger) (calls : List Call)
    → l.config.enabled ≡ true
    → length l.buffer ≤ l.config.buffer_size
    → ((run l calls).buffer ≡ keep_last l.config.buffer_size (l.buffer ++ map entry_of calls))
      × ((run l calls).written ≡ l.written ++ map entry_of calls)
unfolding run append
run_enabled l [] on short =
    (rw append-nil (sym (keep_last_self l.config.buffer_size l.buffer short)), rw append-nil refl)
run_enabled l (c ∷ calls) on short =
    let next = append l (entry_of c) in
    let (kept, told) =
      run_enabled next calls on
        (omega (arith, length-keep_last l.config.buffer_size (l.buffer ++ entry_of c ∷ []))) in
    (
      ap (λ m. (run m calls).buffer) (log_on l c on)
          ∙ kept
          ∙ keep_last-append l.config.buffer_size (l.buffer ++ entry_of c ∷ []) (map entry_of calls)
          ∙ ap (keep_last l.config.buffer_size)
              (append_assoc l.buffer (entry_of c ∷ []) (map entry_of calls)),
      ap (λ m. (run m calls).written) (log_on l c on)
          ∙ told
          ∙ append_assoc l.written (entry_of c ∷ []) (map entry_of calls),
    )

-- After any calls on a new logger, the handlers were given the entries of all calls, in their order,
-- and the buffer holds the last of them, as many as its size allows; where the logger is disabled,
-- both are empty.
pub run-buffer :
    (config : AuditConfig) (calls : List Call)
    → ((run (init config) calls).written ≡ (if config.enabled then map entry_of calls else []))
      × ((run (init config) calls).buffer
          ≡ (if config.enabled then keep_last config.buffer_size (map entry_of calls) else []))
unfolding init
run-buffer config calls = elim (Bool-cases config.enabled) [
  | inl on ↦
      let (kept, told) = run_enabled (init config) calls on (omega arith) in simp on (told, kept)
  | inr off ↦
      let same = run_disabled (init config) calls off in
      simp off (ap (λ l. l.written) same, ap (λ l. l.buffer) same)
]
