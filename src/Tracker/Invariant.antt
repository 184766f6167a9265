-- ===== src/Tracker/Invariant.antt =====
-- The invariant of the tracker, which every method keeps.
use tftp_os.Prelude.{
  ℕ, Bool, true, false, Option, none, some, List, [], ◌∷◌, ◌++◌, ◌≡◌, refl, arith, if◌then◌else◌,
  lower, text_eq, ==_iff, ◌==◌, Bool-cases, inl, inr, ◌||◌,
}
use mathlib.Core.Path.{subst}
use tftp_os.Prelude.Text.{Text}
use tftp_os.Dict
use tftp_os.Dict.{Dict}
use tftp_os.Dict.Laws.{get-put, present}
use tftp_os.ProvisionRecord.{ProvisionState, registered, ProvisionRecord, is_complete}
use tftp_os.Db.Interface.{StorageBackend}
use tftp_os.Tracker.{
  ProvisionTracker, advance, new_record, fire, store, register, get, transition, transition_found,
  disable_netboot, enable_netboot, set_netboot, clear, clear_of, save_to,
}

-- The last entry of a history.
unfoldable pub last_entry : List (ProvisionState × ℕ) → Option (ProvisionState × ℕ)
last_entry [] = none
last_entry (x ∷ []) = some x
last_entry (x ∷ y ∷ h) = last_entry (y ∷ h)

-- The record passed through COMPLETE.
abbrev pub completed : List (ProvisionState × ℕ) → Bool
completed [] = false
completed ((s, t) ∷ h) = is_complete s || completed h

-- The last entry of the history is the state, at the time of the last update, and the time of
-- completion is set exactly if the history passed through COMPLETE.
pub record IsRecord (r : ProvisionRecord) : Type 0 where
  pub current : (now : ℕ) × (r.updated_at ≡ some now) × (last_entry r.history ≡ some (r.state, now))
  pub completion : present r.completed_at ≡ completed r.history

last_entry-append :
    (h : List (ProvisionState × ℕ)) (x : ProvisionState × ℕ) → last_entry (h ++ x ∷ []) ≡ some x
unfolding last_entry
last_entry-append [] x = refl
last_entry-append (y ∷ []) x = refl
last_entry-append (y ∷ z ∷ h) x = last_entry-append (z ∷ h) x

completed-append :
    (h : List (ProvisionState × ℕ)) (s : ProvisionState) (t : ℕ)
    → completed (h ++ (s, t) ∷ []) ≡ (if is_complete s then true else completed h)
completed-append [] s t = ground arith
completed-append (x ∷ h) s t = ground (arith, completed-append h s t)

pub advance-IsRecord :
    (r : ProvisionRecord) (s : ProvisionState) (m : Option Text) (now : ℕ)
    → IsRecord r
    → IsRecord (advance r s m now)
unfolding advance
advance-IsRecord r s m now h = record {
  current = (now, refl, last_entry-append r.history (s, now));
  completion = ground (arith, completed-append r.history s now, h.completion);
}

new_record-IsRecord :
    (mac profile os_family os_version : Text) (now : ℕ)
    → IsRecord (new_record mac profile os_family os_version now)
unfolding new_record last_entry
new_record-IsRecord mac profile os_family os_version now = record {
  current = (now, refl, refl);
  completion = refl;
}

module _ (b : StorageBackend) where
  -- What the backend reads back of a record that the tracker holds.
  abbrev pub image : Option ProvisionRecord → Option ProvisionRecord
  image none = none
  image (some r) = some (b.stored r)

  -- The backend, if there is one, holds what the tracker holds.
  abbrev pub Agrees : Option b.Store → Dict Text ProvisionRecord → Type 0
  Agrees none records = Unit
  Agrees (some s) records =
      b.IsStore s × ((mac : Text) → b.get s mac ≡ image (Dict.get (lower mac) records))

  pub record IsValid (t : ProvisionTracker b) : Type 0 where
    pub keyed : (k : Text) (r : ProvisionRecord) → Dict.get k t.records ≡ some r → lower r.mac ≡ k
    pub recorded : (k : Text) (r : ProvisionRecord) → Dict.get k t.records ≡ some r → IsRecord r
    pub agrees : Agrees t.backend t.records

  save_to-Agrees :
      (o : Option b.Store) (d : Dict Text ProvisionRecord) (mac : Text) (r : ProvisionRecord)
      → lower r.mac ≡ lower mac
      → Agrees o d
      → Agrees (save_to b o r) (Dict.put (lower mac) r d)
  unfolding save_to
  save_to-Agrees none d mac r e h = tt
  save_to-Agrees (some s) d mac r e h =
      (b.save-IsStore s r h.0, λ m. rw (b.get-save s r m h.0, get-put, e) (ground (arith, h.1 m)))

  pub store-IsValid :
      (t : ProvisionTracker b) (mac : Text) (r : ProvisionRecord)
      → lower r.mac ≡ lower mac
      → IsRecord r
      → IsValid t
      → IsValid (store b t mac r)
  unfolding store
  store-IsValid t mac r e h v = record {
    keyed = λ k x p.
        ground (arith, get-put (lower mac) k r t.records, ==_iff (lower mac) k, v.keyed k x);
    recorded = λ k x p. elim (Bool-cases (lower mac == k)) [
      | inl same ↦
          let here : some r ≡ some x = rw (get-put, same) at p in
          let alike : r ≡ x = (cc) in subst IsRecord alike h
      | inr other ↦
          let there : Dict.get k t.records ≡ some x = rw (get-put, other) at p in
          v.recorded k x there
    ];
    agrees = save_to-Agrees t.backend t.records mac r e v.agrees;
  }

  fire-IsValid :
      (t : ProvisionTracker b) (s : ProvisionState) (r : ProvisionRecord)
      → IsValid t
      → IsValid (fire b t s r).0
  unfolding fire
  fire-IsValid t s r v = record { keyed = v.keyed; recorded = v.recorded; agrees = v.agrees }

  transition_found-IsValid :
      (t : ProvisionTracker b) (mac : Text) (s : ProvisionState) (m : Option Text) (now : ℕ)
      (o : Option ProvisionRecord)
      → get b t mac ≡ o
      → IsValid t
      → IsValid (transition_found b t mac s m now o).0
  unfolding transition_found get
  transition_found-IsValid t mac s m now none e v = v
  transition_found-IsValid t mac s m now (some r) e v =
      fire-IsValid (store b t mac (advance r s m now)) s (advance r s m now) (
        store-IsValid t mac (advance r s m now) (unfold advance in v.keyed (lower mac) r e)
          (advance-IsRecord r s m now (v.recorded (lower mac) r e)) v)

  netboot-IsRecord :
      (r : ProvisionRecord) (on : Bool) → IsRecord r → IsRecord (record r { netboot_enabled = on })
  netboot-IsRecord r on h = record { current = h.current; completion = h.completion }

  set_netboot-IsValid :
      (t : ProvisionTracker b) (mac : Text) (on : Bool) (o : Option ProvisionRecord)
      → get b t mac ≡ o
      → IsValid t
      → IsValid (set_netboot b t mac on o).0
  unfolding set_netboot get
  set_netboot-IsValid t mac on none e v = v
  set_netboot-IsValid t mac on (some r) e v =
      store-IsValid t mac (record r { netboot_enabled = on }) (v.keyed (lower mac) r e)
        (netboot-IsRecord r on (v.recorded (lower mac) r e)) v

  clear_of-Agrees :
      (o : Option b.Store) (d : Dict Text ProvisionRecord) → Agrees o d → Agrees (clear_of b o) []
  unfolding clear_of Dict.get
  clear_of-Agrees none d h = tt
  clear_of-Agrees (some s) d h = (b.clear-IsStore s, λ mac. b.get-clear s mac)

  -- Every method that changes the tracker keeps the invariant, whether it returns or raises.
  pub methods-IsValid :
      (t : ProvisionTracker b) (mac : Text)
      → IsValid t
      → ((profile os_family os_version : Text) (now : ℕ)
          → IsValid (register b t mac profile os_family os_version now).0)
        × ((s : ProvisionState) (m : Option Text) (now : ℕ)
            → IsValid (transition b t mac s m now).0)
        × IsValid (disable_netboot b t mac).0
        × IsValid (enable_netboot b t mac).0
        × IsValid (clear b t)
  unfolding register transition disable_netboot enable_netboot clear
  methods-IsValid t mac v = (
    (λ profile os_family os_version now.
        let r = new_record mac profile os_family os_version now in
        fire-IsValid (store b t mac r) registered r (
          store-IsValid t mac r (unfold new_record in refl)
            (new_record-IsRecord mac profile os_family os_version now) v)),
    (λ s m now. transition_found-IsValid t mac s m now (get b t mac) refl v),
    set_netboot-IsValid t mac false (get b t mac) refl v,
    set_netboot-IsValid t mac true (get b t mac) refl v,
    record {
      keyed = λ k r p. unfold Dict.get in cc p;
      recorded = λ k r p. absurd (unfold Dict.get in cc p);
      agrees = clear_of-Agrees t.backend t.records v.agrees;
    },
  )
