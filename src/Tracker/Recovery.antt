-- ===== src/Tracker/Recovery.antt =====
-- A new tracker over the backend of another one answers as that one did.
use tftp_os.Prelude.{Option, none, some, List, [], ◌∷◌, ◌≡◌, refl, arith, lower, text_eq, ◌∙◌}
use tftp_os.Prelude.Text.{Text}
use tftp_os.Dict
use tftp_os.Dict.{Dict}
use tftp_os.Dict.Laws.{get-put}
use tftp_os.ProvisionRecord.{ProvisionRecord}
use tftp_os.Db.Interface.{StorageBackend, last_with, or_else}
use tftp_os.Tracker.{ProvisionTracker, preload, loaded, init, get}
use tftp_os.Tracker.Invariant.{IsValid, Agrees, image}

module _ (b : StorageBackend) where
  -- The loop keeps, for each MAC address, the last record of the list.
  get-preload :
      (mac : Text) (rs : List ProvisionRecord) (d : Dict Text ProvisionRecord)
      → Dict.get (lower mac) (preload b rs d) ≡ or_else (last_with mac rs) (Dict.get (lower mac) d)
  unfolding preload last_with
  get-preload mac [] d = refl
  get-preload mac (r ∷ rs) d = ground (
    arith,
    get-preload mac rs (Dict.put (lower r.mac) r d),
    get-put (lower r.mac) (lower mac) r d,
  )

  or_else-none : (o : Option ProvisionRecord) → or_else o none ≡ o
  or_else-none none = refl
  or_else-none (some r) = refl

  get-loaded :
      (mac : Text) (o : Option b.Store) (s : b.Store) (d : Dict Text ProvisionRecord)
      → o ≡ some s
      → Agrees b o d
      → Dict.get (lower mac) (loaded b o) ≡ image b (Dict.get (lower mac) d)
  unfolding loaded Dict.get
  get-loaded mac none s d e h = absurd (ground arith)
  get-loaded mac (some s') s d e h =
      get-preload mac (b.list_all s') []
      ∙ or_else-none (last_with mac (b.list_all s'))
      ∙ b.last_with-list_all s' mac h.0
      ∙ h.1 mac

  -- After any operations, a tracker that is started on the same backend returns for every MAC
  -- address what the backend makes of the record that the first tracker holds, and no record
  -- where it holds none.
  pub get-init :
      (t : ProvisionTracker b) (s : b.Store) (mac : Text)
      → t.backend ≡ some s
      → IsValid b t
      → get b (init b t.backend) mac ≡ image b (get b t mac)
  unfolding get init
  get-init t s mac e v = get-loaded mac t.backend s t.records e v.agrees
