-- ===== src/Auth/Removal.antt =====
-- What deleting and revoking keys by name leave.
use tftp_os.Prelude.{
  ◌≡◌, ◌≢◌, ◌⊎◌, inl, inr, refl, sym, ◌∙◌, Bool, true, false, Option, none, some, List, [], ◌∷◌,
  arith, ◌==◌, ==_iff, ==_refl, text_eq, if◌then◌else◌, Bool-cases,
}
use tftp_os.Prelude.Text.{Text}
use tftp_os.Result.{ok}
use tftp_os.Dict
use tftp_os.Dict.{Dict}
use tftp_os.Dict.Laws.{get-put, get-remove, among}
use tftp_os.Dict.Distinct.{IsDistinct, put-IsDistinct, remove-IsDistinct}
use tftp_os.Auth.{
  ApiKey, KeyFile, write, disable_first, named, remove_all, revoked, deleted, revoke, delete,
}
use tftp_os.Auth.File.{IsKeyed, Holds, put-IsKeyed, remove-IsKeyed, write-Holds}

-- What `delete` leaves of the key under a hash.
abbrev pub without : Text → Option ApiKey → Option ApiKey
without name none = none
without name (some k) = if k.name == name then none else some k

get-remove_all :
    (hs : List Text) (keys : Dict Text ApiKey) (h : Text)
    → Dict.get h (remove_all hs keys) ≡ (if among h hs then none else Dict.get h keys)
unfolding remove_all among
get-remove_all [] keys h = refl
get-remove_all (j ∷ hs) keys h =
    ground (arith, get-remove_all hs (Dict.remove j keys) h, get-remove j h keys)

remove_all-IsDistinct :
    (hs : List Text) (keys : Dict Text ApiKey) → IsDistinct keys → IsDistinct (remove_all hs keys)
unfolding remove_all
remove_all-IsDistinct [] keys d = d
remove_all-IsDistinct (h ∷ hs) keys d =
    remove_all-IsDistinct hs (Dict.remove h keys) (remove-IsDistinct h keys d)

remove_all-IsKeyed :
    (hs : List Text) (keys : Dict Text ApiKey) → IsKeyed keys → IsKeyed (remove_all hs keys)
unfolding remove_all
remove_all-IsKeyed [] keys r = r
remove_all-IsKeyed (h ∷ hs) keys r =
    remove_all-IsKeyed hs (Dict.remove h keys) (remove-IsKeyed h keys r)

abbrev has_name : Text → Option ApiKey → Bool
has_name name none = false
has_name name (some k) = k.name == name

among-named :
    (name h : Text) (keys : Dict Text ApiKey)
    → IsDistinct keys
    → among h (named name keys) ≡ has_name name (Dict.get h keys)
unfolding named among Dict.get
among-named name h [] d = refl
among-named name h ((j, k) ∷ keys) d =
    ground (arith, among-named name h keys d.1, among-named name j keys d.1, ==_iff j h)

-- On a file that holds keys, `delete` returns, and leaves exactly the keys of other names.
pub delete-Holds :
    (f : KeyFile) (keys : Dict Text ApiKey) (name : Text)
    → Holds f keys
    → (f' : KeyFile) × (keys' : Dict Text ApiKey) × (b : Bool) × (delete f name ≡ ok (f', b))
      × Holds f' keys'
      × ((h : Text) → Dict.get h keys' ≡ without name (Dict.get h keys))
unfolding delete
delete-Holds f keys name r = go (named name keys) refl
  where
    go :
        (hs : List Text)
        → named name keys ≡ hs
        → (f' : KeyFile) × (keys' : Dict Text ApiKey) × (b : Bool) × (delete f name ≡ ok (f', b))
          × Holds f' keys'
          × ((h : Text) → Dict.get h keys' ≡ without name (Dict.get h keys))
    go [] e = (
      f,
      keys,
      false,
      rw (delete, r.reads, e, deleted) refl,
      r,
      λ h.
          let nobody : has_name name (Dict.get h keys) ≡ false =
            sym (among-named name h keys r.distinct) ∙ rw e (unfold among in refl) in
          ground arith,
    )
    go (x ∷ hs) e =
        let left = remove_all (x ∷ hs) keys in
        let (keys', held, same) =
          write-Holds left (remove_all-IsDistinct (x ∷ hs) keys r.distinct)
            (remove_all-IsKeyed (x ∷ hs) keys r.keyed) in
        (
          write left,
          keys',
          true,
          rw (delete, r.reads, e, deleted) refl,
          held,
          λ h.
              rw same (
                ground (arith, get-remove_all (x ∷ hs) keys h, among-named name h keys r.distinct)),
        )

-- One key of the name is disabled, in its place.
abbrev IsFirst : Text → Dict Text ApiKey → Dict Text ApiKey → Type 0
IsFirst name keys keys' =
    (h : Text) × (k : ApiKey) × (Dict.get h keys ≡ some k)
    × (k.name ≡ name)
    × (keys' ≡ Dict.put h (record k { enabled = false }) keys)
    × (k.key_hash ≡ h)

first_lem :
    (name : Text) (keys : Dict Text ApiKey)
    → IsDistinct keys
    → IsKeyed keys
    → ((disable_first name keys ≡ none)
        × ((h : Text) (k : ApiKey) → Dict.get h keys ≡ some k → k.name ≢ name))
      ⊎ ((keys' : Dict Text ApiKey) × (disable_first name keys ≡ some keys')
          × IsFirst name keys keys')
unfolding disable_first Dict.get Dict.put
first_lem name [] d r = inl (refl, λ h k e. cc)
first_lem name ((j, x) ∷ keys) d r = elim (Bool-cases (x.name == name)) [
  | inl here ↦
      let named_so : x.name ≡ name = (==_iff x.name name).0 here in
      inr (
        (j, record x { enabled = false }) ∷ keys,
        rw here refl,
        (j, x, rw (==_refl j) refl, named_so, rw (==_refl j) refl, r.0),
      )
  | inr other ↦ elim (first_lem name keys d.1 r.1) [
    | inl (gone, differ) ↦ inl (
      rw (other, gone) refl,
      λ h k e. elim (Bool-cases (j == h)) [
        | inl same ↦ ground (arith, ==_iff x.name name)
        | inr behind ↦ differ h k (ground arith)
      ],
    )
    | inr (keys', found, (h, k, there, named_so, left, keyed)) ↦
        let apart : j == h ≡ false = ground (arith, ==_iff j h) in
        inr (
          (j, x) ∷ keys',
          rw (other, found) refl,
          (h, k, rw apart there, named_so, rw (apart, left) refl, keyed),
        )
  ]
]

-- On a file that holds keys, `revoke` returns: `false`, where no key has the name; otherwise `true`,
-- and it disables one key of the name, and leaves all others, also those of the same name.
pub revoke-Holds :
    (f : KeyFile) (keys : Dict Text ApiKey) (name : Text)
    → Holds f keys
    → ((revoke f name ≡ ok (f, false))
        × ((h : Text) (k : ApiKey) → Dict.get h keys ≡ some k → k.name ≢ name))
      ⊎ ((f' : KeyFile) × (keys' : Dict Text ApiKey) × (h : Text) × (k : ApiKey) × (revoke f name
            ≡ ok (f', true))
          × Holds f' keys'
          × (Dict.get h keys ≡ some k)
          × (k.name ≡ name)
          × ((j : Text)
              → Dict.get j keys'
                ≡ (if h == j then some (record k { enabled = false }) else Dict.get j keys)))
unfolding revoke
revoke-Holds f keys name r = elim (first_lem name keys r.distinct r.keyed) [
  | inl (gone, differ) ↦ inl (rw (r.reads, gone, revoked) refl, differ)
  | inr (left, found, (h, k, there, named_so, e, keyed)) ↦
      let off : ApiKey = record k { enabled = false } in
      let (keys', held, same) =
        write-Holds (Dict.put h off keys) (put-IsDistinct h off keys r.distinct)
          (put-IsKeyed h off keys keyed r.keyed) in
      inr (
        write (Dict.put h off keys),
        keys',
        h,
        k,
        rw (r.reads, found, revoked, e) refl,
        held,
        there,
        named_so,
        λ j. rw same (get-put h j off keys),
      )
]
