-- ===== src/Matcher/Choice.antt =====
-- What the chosen rule is among the rules that apply.
use tftp_os.Prelude.{
  ℕ, ◌<◌, ◌≤◌, true, false, Option, none, some, List, [], ◌∷◌, ◌≡◌, refl, arith, Bool-cases, inl,
  inr, ◌⊎◌, All,
}
use tftp_os.Prelude.Text.{Text}
use tftp_os.HostRule.{HostRule}
use tftp_os.Matcher.{Library, Request, match_tier, candidate_le, init, match, mac_norm}
use tftp_os.Matcher.Best.{best, consider, rule_of, match-best}

-- The rule stands in the list.
abbrev pub OneOf : HostRule → List HostRule → Type 0
OneOf r [] = ⊥
OneOf r (x ∷ rs) = (r ≡ x) ⊎ OneOf r rs

-- A rule does not apply, or it comes after the candidate.
abbrev pub NotBefore : ℕ × HostRule → HostRule → Option ℕ → Type 0
NotBefore (t, r) x none = Unit
NotBefore (t, r) x (some s) = (t < s) ⊎ ((t ≡ s) × (r.priority ≤ x.priority))

module _ (lib : Library) (q : Request) (mac : Option Text) where
  abbrev pub Chosen : List HostRule → Option (ℕ × HostRule) → Type 0
  Chosen rs none = All (λ x. match_tier lib x q mac ≡ none) rs
  Chosen rs (some (t, r)) =
      OneOf r rs
      × (match_tier lib r q mac ≡ some t)
      × All (λ x. NotBefore (t, r) x (match_tier lib x q mac)) rs

  NotBefore-trans :
      (s t : ℕ) (x r : HostRule) (o : Option ℕ) (y : HostRule)
      → candidate_le (s, x) (t, r) ≡ true
      → NotBefore (t, r) y o
      → NotBefore (s, x) y o
  NotBefore-trans s t x r none y h n = tt
  NotBefore-trans s t x r (some u) y h n = ground arith

  All-trans :
      (s t : ℕ) (x r : HostRule) (rs : List HostRule)
      → candidate_le (s, x) (t, r) ≡ true
      → All (λ y. NotBefore (t, r) y (match_tier lib y q mac)) rs
      → All (λ y. NotBefore (s, x) y (match_tier lib y q mac)) rs
  All-trans s t x r [] h a = tt
  All-trans s t x r (y ∷ rs) h a =
      (NotBefore-trans s t x r (match_tier lib y q mac) y h a.0, All-trans s t x r rs h a.1)

  All-none :
      (s : ℕ) (x : HostRule) (rs : List HostRule)
      → All (λ y. match_tier lib y q mac ≡ none) rs
      → All (λ y. NotBefore (s, x) y (match_tier lib y q mac)) rs
  All-none s x [] a = tt
  All-none s x (y ∷ rs) a = (rw a.0 tt, All-none s x rs a.1)

  NotBefore-self : (s : ℕ) (x : HostRule) → NotBefore (s, x) x (some s)
  NotBefore-self s x = inr (refl, omega arith)

  consider-Chosen :
      (x : HostRule) (rs : List HostRule) (o : Option ℕ) (m : Option (ℕ × HostRule))
      → match_tier lib x q mac ≡ o
      → Chosen rs m
      → Chosen (x ∷ rs) (consider o x m)
  consider-Chosen x rs none none e h = (e, h)
  consider-Chosen x rs none (some (t, r)) e h = (inr h.0, h.1, (rw e tt, h.2))
  consider-Chosen x rs (some s) none e h =
      (inl refl, e, (rw e (NotBefore-self s x), All-none s x rs h))
  consider-Chosen x rs (some s) (some (t, r)) e h = elim (Bool-cases (candidate_le (s, x) (t, r))) [
    | inl le ↦ rw le (inl refl, e, (rw e (NotBefore-self s x), All-trans s t x r rs le h.2))
    | inr gt ↦ rw gt (inr h.0, h.1, (rw e (after s t x r gt), h.2))
  ]
    where
      after :
          (s t : ℕ) (x r : HostRule)
          → candidate_le (s, x) (t, r) ≡ false
          → NotBefore (t, r) x (some s)
      after s t x r gt = ground arith

  pub best-Chosen : (rs : List HostRule) → Chosen rs (best lib rs q mac)
  unfolding best
  best-Chosen [] = tt
  best-Chosen (x ∷ rs) =
      consider-Chosen x rs (match_tier lib x q mac) (best lib rs q mac) refl (best-Chosen rs)

-- The matcher returns nothing exactly where no rule applies; the rule that it returns is one of the
-- given ones and applies, and every rule that applies has a greater tier, or the same tier and no
-- lesser priority.
pub match-Chosen :
    (lib : Library) (rules : List HostRule) (q : Request)
    → (o : Option (ℕ × HostRule)) × (match lib (init rules) q ≡ rule_of o)
      × Chosen lib q (mac_norm q.mac) rules o
match-Chosen lib rules q = (
  best lib rules q (mac_norm q.mac),
  match-best lib rules q,
  best-Chosen lib q (mac_norm q.mac) rules,
)
