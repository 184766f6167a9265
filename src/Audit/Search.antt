-- ===== src/Audit/Search.antt =====
-- What `query` answers, and that it answers on every log of the methods of AuditLogger.
use tftp_os.Prelude.{
  ℕ, ◌≡◌, refl, sym, ap, Bool, true, false, ◌&&◌, Option, none, some, List, [], ◌∷◌, codes, text_eq,
  lower, contains, leb, filter, All, Bool-cases, inl, inr,
}
use mathlib.Core.List.{reverse}
use tftp_os.Prelude.Recent.{take, filter-filter, filter_all, All-filter}
use tftp_os.Prelude.Text.{Text}
use tftp_os.Result.{Result, ok}
use tftp_os.Json.{Json, num, text}
use tftp_os.Dict
use tftp_os.Dict.{Dict}
use tftp_os.Audit.{AuditLogger, Entry}
use tftp_os.Audit.Query.{mac_matches, type_matches, time_matches, keep_if, keep_given, query}

abbrev pub is_text : Option Json → Bool
is_text none = true
is_text (some (text t)) = true
is_text (some v) = false

abbrev pub is_num : Option Json → Bool
is_num none = true
is_num (some (num n)) = true
is_num (some v) = false

-- The entry has no MAC address that is not a text, and no time that is not a number.
abbrev pub IsTyped : Entry → Type 0
IsTyped e =
    (is_text (Dict.get (codes "mac") e) ≡ true) × (is_num (Dict.get (codes "timestamp") e) ≡ true)

-- The tests of the query on a typed entry.
abbrev pub text_value : Option Json → Text
text_value (some (text t)) = t
text_value _ = []

abbrev pub num_value : Option Json → ℕ
num_value (some (num n)) = n
num_value _ = 0

abbrev pub given : {V : Type 0} → (V → Entry → Bool) → Option V → Entry → Bool
given test none e = true
given test (some v) e = test v e

abbrev pub has_mac : Text → Entry → Bool
has_mac m e = contains (lower (text_value (Dict.get (codes "mac") e))) (lower m)

abbrev pub has_type : Text → Entry → Bool
has_type t e = type_matches t (Dict.get (codes "event_type") e)

abbrev pub not_before : ℕ → Entry → Bool
not_before s e = leb s (num_value (Dict.get (codes "timestamp") e))

keep_if-filter :
    (test : Entry → Result Bool) (p : Entry → Bool) (es : List Entry)
    → ((e : Entry) → IsTyped e → test e ≡ ok (p e))
    → All IsTyped es
    → keep_if test es ≡ ok (filter p es)
unfolding keep_if filter
keep_if-filter test p [] h typed = refl
keep_if-filter test p (e ∷ es) h (t, typed) =
    rw (h e t, keep_if-filter test p es h typed)
      (elim (Bool-cases (p e)) [ inl y ↦ rw y refl | inr n ↦ rw n refl ])

keep_given-filter :
    {V : Type 0} (test : V → Entry → Result Bool) (p : V → Entry → Bool) (o : Option V)
    (es : List Entry)
    → ((v : V) (e : Entry) → IsTyped e → test v e ≡ ok (p v e))
    → All IsTyped es
    → keep_given test o es ≡ ok (filter (given p o) es)
unfolding keep_given
keep_given-filter test p none es h typed = ap ok (sym (filter_all es))
keep_given-filter test p (some v) es h typed = keep_if-filter (test v) (p v) es (h v) typed

mac_matches-ok :
    (m : Text) (o : Option Json)
    → is_text o ≡ true
    → mac_matches m o ≡ ok (contains (lower (text_value o)) m)
unfolding mac_matches lower
mac_matches-ok m none h = refl
mac_matches-ok m (some (text t)) h = refl
mac_matches-ok m (some v) h = cc h

time_matches-ok :
    (s : ℕ) (o : Option Json) → is_num o ≡ true → time_matches s o ≡ ok (leb s (num_value o))
unfolding time_matches
time_matches-ok s none h = refl
time_matches-ok s (some (num n)) h = refl
time_matches-ok s (some v) h = cc h

-- The entries that pass every given filter.
abbrev pub passes : Option Text → Option Text → Option ℕ → Entry → Bool
passes mac event_type since e =
    (given has_mac mac e && given has_type event_type e) && given not_before since e

-- On a log whose entries are typed, a query raises nothing; it answers the entries that pass every
-- given filter, the newest first, and of them at most as many as the limit.
pub query_lem :
    (l : AuditLogger) (mac event_type : Option Text) (since : Option ℕ) (limit : ℕ)
    → All IsTyped l.buffer
    → query l mac event_type since limit
      ≡ ok (take limit (reverse (filter (passes mac event_type since) l.buffer)))
unfolding query
query_lem l mac event_type since limit typed =
    let es = l.buffer in
    let fs = filter (given has_mac mac) es in
    let gs = filter (given has_type event_type) fs in
    let typed' = All-filter IsTyped (given has_mac mac) es typed in
    rw
      (
        keep_given-filter _ has_mac mac es
            (λ m e t. mac_matches-ok (lower m) (Dict.get (codes "mac") e) t.0) typed,
        keep_given-filter _ has_type event_type fs (λ m e t. refl) typed',
        keep_given-filter _ not_before since gs
            (λ s e t. time_matches-ok s (Dict.get (codes "timestamp") e) t.1)
            (All-filter IsTyped (given has_type event_type) fs typed'),
        filter-filter (given has_mac mac) (given has_type event_type) es,
        filter-filter (λ e. given has_mac mac e && given has_type event_type e)
            (given not_before since) es,
      )
      refl
