-- ===== src/Console/Endpoint.antt =====
-- What a console that is configured has.
use tftp_os.Prelude.{
  ◌∙◌, ℕ, ◌≡◌, ◌≤◌, refl, ap, arith, true, not, ◌&&◌, ◌||◌, Option, none, some, [], ◌∷◌, truthy,
  leb, nat_beq, strip, lower, every, Bool-cases, inl, inr, nat_beq_iff, some-injective, ◌++◌,
}
use tftp_os.Prelude.Text.{Text}
use tftp_os.Result.{Result, ok, raise, value_error, ◌>>◌, guard, >>=-eq-ok, ok-injective}
use tftp_os.Names.{is_name_char}
use tftp_os.Console.{
  ConsoleType, ConsoleConfig, console_type_of, endpoint_re, host_port, checked, parse_set,
  from_host_rule, or_empty, port_of, no_host, with_host,
}

none-some : {A : Type 0} (a : A) → ◌≡◌ {A = Option A} none (some a) → ⊥
none-some a h = cc h

raise-ok :
    (c : ConsoleConfig)
    → ◌≡◌ {A = Result (Option ConsoleConfig)} (raise value_error) (ok (some c))
    → ⊥
raise-ok c h = cc h

none-ok : (c : ConsoleConfig) → ◌≡◌ {A = Result (Option ConsoleConfig)} (ok none) (ok (some c)) → ⊥
none-ok c h = cc h

-- A text that is a host, a colon and a number.
abbrev pub IsEndpoint : Text → Text → ℕ → Type 0
IsEndpoint endpoint host port =
    (digits : Text) × (endpoint ≡ host ++ b':' ∷ digits)
    × (port_of digits ≡ some port)
    × (every is_name_char host ≡ true)

no_host-eq :
    (found : Option ℕ) (host : Text) (port : ℕ)
    → no_host found ≡ some (host, port)
    → ([] ≡ host) × (found ≡ some port)
no_host-eq none host port h = cc h
no_host-eq (some p) host port h =
    let same : ◌≡◌ {A = Text × ℕ} ([], p) (host, port) = some-injective h in
    (ap (λ q. q.0) same, ap (λ q. some q.1) same)

no_host-IsEndpoint :
    (digits host : Text) (port : ℕ)
    → no_host (port_of digits) ≡ some (host, port)
    → IsEndpoint (b':' ∷ digits) host port
unfolding every
no_host-IsEndpoint digits host port h =
    let (empty, number) = no_host-eq (port_of digits) host port h in
    rw (← empty) (digits, refl, number, refl)

with_host-IsEndpoint :
    (c : ℕ) (s host : Text) (port : ℕ) (found : Option (Text × ℕ))
    → is_name_char c ≡ true
    → ((host' : Text) (port' : ℕ) → found ≡ some (host', port') → IsEndpoint s host' port')
    → with_host c found ≡ some (host, port)
    → IsEndpoint (c ∷ s) host port × (truthy host ≡ true)
unfolding every
with_host-IsEndpoint c s host port none name rec h = cc h
with_host-IsEndpoint c s host port (some (host', port')) name rec h =
    let (digits, whole, number, names) = rec host' port' refl in
    let same : (c ∷ host', port') ≡ (host, port) = some-injective h in
    let whole_host : c ∷ host' ≡ host = ap (λ q. q.0) same in
    let whole_port : port' ≡ port = ap (λ q. q.1) same in
    rw (← whole_host, ← whole_port) ((digits, ap (λ t. c ∷ t) whole, number, rw name names), refl)

host_port-IsEndpoint :
    (s host : Text) (port : ℕ) → host_port s ≡ some (host, port) → IsEndpoint s host port
unfolding host_port
host_port-IsEndpoint [] host port h = cc h
host_port-IsEndpoint (c ∷ s) host port h = elim (Bool-cases (nat_beq c b':')) [
  | inl y ↦
      let colon : c ≡ b':' = (nat_beq_iff c b':').0 y in
      rw colon (no_host-IsEndpoint s host port (rw y at h))
  | inr n ↦ elim (Bool-cases (is_name_char c)) [
    | inl name ↦
        (with_host-IsEndpoint c s host port (host_port s) name (host_port-IsEndpoint s)
          (rw (n, name) at h)).0
    | inr other ↦ absurd (none-some (host, port) (rw (n, other) at h))
  ]
]

endpoint_re-IsEndpoint :
    (s host : Text) (port : ℕ)
    → endpoint_re s ≡ some (host, port)
    → IsEndpoint s host port × (truthy host ≡ true)
unfolding endpoint_re
endpoint_re-IsEndpoint [] host port h = cc h
endpoint_re-IsEndpoint (c ∷ s) host port h = elim (Bool-cases (is_name_char c)) [
  | inl name ↦
      with_host-IsEndpoint c s host port (host_port s) name (host_port-IsEndpoint s) (rw name at h)
  | inr other ↦ absurd (none-some (host, port) (rw other at h))
]

checked-port :
    (ct : ConsoleType) (found : Option (Text × ℕ)) (c : ConsoleConfig)
    → checked ct found ≡ ok (some c)
    → (found ≡ some (c.host, c.port)) × (ct ≡ c.console_type) × (1 ≤ c.port) × (c.port ≤ 65535)
checked-port ct none c h = cc h
checked-port ct (some (host, port)) c h =
    elim (Bool-cases (not (leb 1 port) || not (leb port 65535))) [
      | inl y ↦ absurd (raise-ok c (rw y at h))
      | inr n ↦
          let same : record { console_type = ct; host = host; port = port } ≡ c =
            some-injective (ok-injective (rw n at h)) in
          let (low, high) : (1 ≤ port) × (port ≤ 65535) = (ground arith, ground arith) in
          rw (← same) (refl, refl, low, high)
    ]

-- A console that from_host_rule returns has the type that the rule names, in lower case and without
-- white space around it, and a port from 1 to 65535; the endpoint of the rule, without white space around
-- it, is its host, of at least one letter, digit, dot, underscore or dash, then a colon and a text that
-- is read as its port.
pub from_host_rule-IsEndpoint :
    (t e : Option Text) (c : ConsoleConfig)
    → from_host_rule t e ≡ ok (some c)
    → (console_type_of (strip (lower (or_empty t))) ≡ ok c.console_type)
      × (1 ≤ c.port)
      × (c.port ≤ 65535)
      × (truthy c.host ≡ true)
      × IsEndpoint (strip (or_empty e)) c.host c.port
unfolding from_host_rule parse_set
from_host_rule-IsEndpoint t e c h =
    elim (Bool-cases (not (truthy (or_empty t)) && not (truthy (or_empty e)))) [
      | inl y ↦ absurd (none-ok c (rw y at h))
      | inr n ↦
          let (_, _, set) =
            >>=-eq-ok
              (guard (truthy (or_empty t)) value_error >> guard (truthy (or_empty e)) value_error) _
              (rw n at h) in
          let (ct, named, rest) = >>=-eq-ok (console_type_of (strip (lower (or_empty t)))) _ set in
          let (found, same, low, high) =
            checked-port ct (endpoint_re (strip (or_empty e))) c rest in
          let (parts, nonempty) = endpoint_re-IsEndpoint (strip (or_empty e)) c.host c.port found in
          (named ∙ ap ok same, low, high, nonempty, parts)
    ]
