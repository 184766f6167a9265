-- ===== src/Tracker/Transition.antt =====
-- What a transition changes, on each branch.
use tftp_os.Prelude.{
  ℕ, true, false, Option, none, some, List, [], ◌∷◌, ◌≡◌, ◌≢◌, refl, arith, if◌then◌else◌, lower,
  text_eq, ◌==◌,
}
use tftp_os.Prelude.Text.{Text}
use tftp_os.Result.{Error, Result, ok, raise, value_error}
use tftp_os.Dict.Laws.{get-put, get-put_self, get-put_ne}
use tftp_os.ProvisionRecord.{ProvisionState, ProvisionRecord}
use tftp_os.Db.Interface.{StorageBackend}
use tftp_os.Tracker.{
  ProvisionTracker, Callback, advance, run_callbacks, get, transition, transition_found,
  disable_netboot, enable_netboot, set_netboot, is_netboot_enabled, answer,
}

-- The first exception of the callbacks, if any of them raises.
unfoldable pub first_error : List Callback → ProvisionRecord → Option Error
first_error [] r = none
first_error (cb ∷ cbs) r =
    let rest = first_error cbs r in elim (cb.run r) [ none ↦ rest | some e ↦ some e ]

abbrev pub ending : ProvisionRecord → Option Error → Result ProvisionRecord
ending r none = ok r
ending r (some e) = raise e

run_callbacks-first_error :
    (cbs : List Callback) (r : ProvisionRecord)
    → answer r (run_callbacks cbs r).1 ≡ ending r (first_error cbs r)
unfolding run_callbacks first_error
run_callbacks-first_error [] r = refl
run_callbacks-first_error (cb ∷ cbs) r = ground (arith, run_callbacks-first_error cbs r)

module _ (b : StorageBackend) (t : ProvisionTracker b) (mac : Text) where
  -- A transition of an unknown MAC address raises and changes nothing.
  pub transition_unknown :
      (s : ProvisionState) (m : Option Text) (now : ℕ)
      → get b t mac ≡ none
      → transition b t mac s m now ≡ (t, raise value_error)
  unfolding transition
  transition_unknown s m now e = rw (e, transition_found) refl

  -- A transition of a known MAC address to any state, whatever state it is in, stores the advanced
  -- record under it, in any case of its letters, leaves the records of the other addresses, and ends as
  -- the callbacks of the new state do: with the first exception that one of them raises, or with the
  -- record.
  pub transition_known :
      (s : ProvisionState) (m : Option Text) (now : ℕ) (r : ProvisionRecord)
      → get b t mac ≡ some r
      → ((mac' : Text)
          → get b (transition b t mac s m now).0 mac'
            ≡ (if lower mac == lower mac' then some (advance r s m now) else get b t mac'))
        × ((transition b t mac s m now).1
            ≡ ending (advance r s m now) (first_error (t.callbacks s) (advance r s m now)))
  unfolding transition
  transition_known s m now r e =
      let r' = advance r s m now in
      (
        (λ mac'. rw (e, transition_found) (get-put (lower mac) (lower mac') r' t.records)),
        rw (e, transition_found) (run_callbacks-first_error (t.callbacks s) r'),
      )

  -- For a known MAC address, disabling netboot makes `is_netboot_enabled` answer false, enabling it
  -- makes it answer true, and neither changes the record of another address.
  pub netboot_switch :
      (r : ProvisionRecord)
      → get b t mac ≡ some r
      → (is_netboot_enabled b (disable_netboot b t mac).0 mac ≡ false)
        × (is_netboot_enabled b (enable_netboot b t mac).0 mac ≡ true)
        × ((mac' : Text)
            → lower mac ≢ lower mac'
            → (get b (disable_netboot b t mac).0 mac' ≡ get b t mac')
              × (get b (enable_netboot b t mac).0 mac' ≡ get b t mac'))
  unfolding disable_netboot enable_netboot is_netboot_enabled
  netboot_switch r e =
      let off = record r { netboot_enabled = false } in
      let on = record r { netboot_enabled = true } in
      (
        rw (e, set_netboot) (rw (get-put_self (lower mac) off t.records) refl),
        rw (e, set_netboot) (rw (get-put_self (lower mac) on t.records) refl),
        λ mac' ne. (
          rw (e, set_netboot) (get-put_ne (lower mac) (lower mac') off t.records ne),
          rw (e, set_netboot) (get-put_ne (lower mac) (lower mac') on t.records ne),
        ),
      )
