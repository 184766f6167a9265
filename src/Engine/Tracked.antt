-- ===== src/Engine/Tracked.antt =====
-- ensure_tracked of FirmwareEngine.
use tftp_os.Prelude.{
  ℕ, ◌≡◌, refl, Option, none, some, inl, inr, lower, text_eq, ◌==◌, ==_iff, Bool-cases,
  if◌then◌else◌,
}
use tftp_os.Prelude.Text.{Text}
use tftp_os.Result.{Result, ok, ◌>>=◌}
use tftp_os.HostRule.{HostRule}
use tftp_os.ProvisionRecord.{ProvisionRecord}
use tftp_os.Db.Interface.{StorageBackend}
use tftp_os.Dict
use tftp_os.Dict.{Dict}
use tftp_os.Dict.Laws.{get-put}
use tftp_os.Tracker
use tftp_os.Tracker.{ProvisionTracker, new_record}

module _ (b : StorageBackend) where
  abbrev pub ignore :
      ProvisionTracker b × Result ProvisionRecord → ProvisionTracker b × Result (Unit {0})
  ignore (t, result) = (t, result >>= λ r. ok tt)

  abbrev pub track_found :
      ProvisionTracker b
      → Text
      → HostRule
      → ℕ
      → Option ProvisionRecord
      → ProvisionTracker b × Result (Unit {0})
  track_found t mac rule now none =
      ignore (Tracker.register b t mac rule.profile rule.os_family rule.os_version now)
  track_found t mac rule now (some r) = (t, ok tt)

  -- Registers a MAC address that the tracker does not know.
  unfoldable pub ensure_tracked :
      ProvisionTracker b → Text → HostRule → ℕ → ProvisionTracker b × Result (Unit {0})
  unfolding Tracker.register Tracker.get
  ensure_tracked t mac rule now = track_found t mac rule now (Tracker.get b t mac)

  -- The record that a tracker has of a MAC address afterwards.
  abbrev pub known_or_new : Option ProvisionRecord → Text → HostRule → ℕ → ProvisionRecord
  known_or_new none mac rule now = new_record mac rule.profile rule.os_family rule.os_version now
  known_or_new (some r) mac rule now = r

  -- A key that is there reads as itself.
  get-same :
      (k j : Text) (r : ProvisionRecord) (d : Dict Text ProvisionRecord)
      → Dict.get k d ≡ some r
      → Dict.get j d ≡ (if k == j then some r else Dict.get j d)
  get-same k j r d h = elim (Bool-cases (k == j)) [
    | inl y ↦ let same : k ≡ j = (==_iff k j).0 y in let there = rw same at h in rw y there
    | inr n ↦ rw n refl
  ]

  get-track_found :
      (t : ProvisionTracker b) (mac j : Text) (rule : HostRule) (now : ℕ)
      (o : Option ProvisionRecord)
      → Dict.get (lower mac) t.records ≡ o
      → Tracker.get b (track_found t mac rule now o).0 j
        ≡ (if lower mac == lower j then some (known_or_new o mac rule now) else Tracker.get b t j)
  unfolding Tracker.get Tracker.register Tracker.store Tracker.fire
  get-track_found t mac j rule now none h =
      get-put (lower mac) (lower j) (known_or_new none mac rule now) t.records
  get-track_found t mac j rule now (some r) h = get-same (lower mac) (lower j) r t.records h

  -- After a host was ensured to be tracked, also where a callback raised, the tracker has the record
  -- that it had of the MAC address, or a new one of the rule; the records of the other addresses stay.
  pub get-ensure_tracked :
      (t : ProvisionTracker b) (mac j : Text) (rule : HostRule) (now : ℕ)
      → Tracker.get b (ensure_tracked t mac rule now).0 j ≡ (
          if lower mac == lower j
          then some (known_or_new (Tracker.get b t mac) mac rule now)
          else Tracker.get b t j)
  unfolding ensure_tracked Tracker.get
  get-ensure_tracked t mac j rule now =
      get-track_found t mac j rule now (Dict.get (lower mac) t.records) refl
