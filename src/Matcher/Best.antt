-- ===== src/Matcher/Best.antt =====
-- Sorting the rules, collecting the candidates and sorting these picks the rule that one pass over
-- the rules as they were given picks: the least tier, then the least priority, then the first.
use tftp_os.Prelude.{
  ℕ, false, Option, none, some, List, [], ◌∷◌, leb, if◌then◌else◌, ◌≡◌, refl, arith, Bool-cases,
  inl, inr, ap, ◌∙◌,
}
use tftp_os.Prelude.Sort.{insert, sort}
use tftp_os.Prelude.Text.{Text}
use tftp_os.HostRule.{HostRule}
use tftp_os.Matcher.{
  Library, Request, match_tier, candidates, priority_le, candidate_le, init, match, mac_norm, first,
  collect,
}

-- The better of a candidate and of one that stands after it.
abbrev pub pick : ℕ × HostRule → Option (ℕ × HostRule) → Option (ℕ × HostRule)
pick c none = some c
pick c (some d) = if candidate_le c d then some c else some d

unfoldable pub least : List (ℕ × HostRule) → Option (ℕ × HostRule)
least [] = none
least (c ∷ cs) = pick c (least cs)

abbrev pub consider : Option ℕ → HostRule → Option (ℕ × HostRule) → Option (ℕ × HostRule)
consider none r m = m
consider (some tier) r m = pick (tier, r) m

module _ (lib : Library) where
  -- One pass over the rules.
  unfoldable pub best : List HostRule → Request → Option Text → Option (ℕ × HostRule)
  best [] q mac = none
  best (r ∷ rs) q mac = consider (match_tier lib r q mac) r (best rs q mac)

abbrev pub rule_of : Option (ℕ × HostRule) → Option HostRule
rule_of none = none
rule_of (some (tier, r)) = some r

abbrev head? : List (ℕ × HostRule) → Option (ℕ × HostRule)
head? [] = none
head? (c ∷ cs) = some c

head?-insert :
    (c : ℕ × HostRule) (cs : List (ℕ × HostRule))
    → head? (insert candidate_le c cs) ≡ pick c (head? cs)
unfolding insert
head?-insert c [] = refl
head?-insert c (d ∷ cs) = ground arith

head?-sort : (cs : List (ℕ × HostRule)) → head? (sort candidate_le cs) ≡ least cs
unfolding sort least
head?-sort [] = refl
head?-sort (c ∷ cs) = head?-insert c (sort candidate_le cs) ∙ ap (pick c) (head?-sort cs)

-- Candidates of different priorities may be picked in either order.
pick_swap :
    (s t : ℕ) (a b : HostRule) (m : Option (ℕ × HostRule))
    → leb a.priority b.priority ≡ false
    → pick (t, b) (pick (s, a) m) ≡ pick (s, a) (pick (t, b) m)
pick_swap s t a b none h = ground arith
pick_swap s t a b (some (u, c)) h = ground arith

consider_swap :
    (o p : Option ℕ) (a b : HostRule) (m : Option (ℕ × HostRule))
    → leb a.priority b.priority ≡ false
    → consider p b (consider o a m) ≡ consider o a (consider p b m)
consider_swap none p a b m h = refl
consider_swap (some s) none a b m h = refl
consider_swap (some s) (some t) a b m h = pick_swap s t a b m h

least-collect :
    (o : Option ℕ) (r : HostRule) (cs : List (ℕ × HostRule))
    → least (collect o r cs) ≡ consider o r (least cs)
unfolding least
least-collect none r cs = refl
least-collect (some t) r cs = refl

first-head? : (cs : List (ℕ × HostRule)) → first cs ≡ rule_of (head? cs)
first-head? [] = refl
first-head? ((t, r) ∷ cs) = refl

module _ (lib : Library) (q : Request) (mac : Option Text) where
  least-candidates : (rs : List HostRule) → least (candidates lib rs q mac) ≡ best lib rs q mac
  unfolding candidates best
  least-candidates [] = unfold least in refl
  least-candidates (r ∷ rs) =
      least-collect (match_tier lib r q mac) r (candidates lib rs q mac)
      ∙ ap (consider (match_tier lib r q mac) r) (least-candidates rs)

  best-insert :
      (r : HostRule) (rs : List HostRule)
      → best lib (insert priority_le r rs) q mac ≡ best lib (r ∷ rs) q mac
  unfolding best insert
  best-insert r [] = refl
  best-insert r (s ∷ rs) = elim (Bool-cases (leb r.priority s.priority)) [
    | inl before ↦ rw (before, insert) refl
    | inr after ↦
        rw (after, insert)
          (ap (consider (match_tier lib s q mac) s) (best-insert r rs)
            ∙ consider_swap (match_tier lib r q mac) (match_tier lib s q mac) r s
                (best lib rs q mac) after)
  ]

  best-sort : (rs : List HostRule) → best lib (sort priority_le rs) q mac ≡ best lib rs q mac
  unfolding sort best
  best-sort [] = refl
  best-sort (r ∷ rs) =
      best-insert r (sort priority_le rs) ∙ ap (consider (match_tier lib r q mac) r) (best-sort rs)

-- The two sorts of the matcher pick the rule that one pass over the rules as they were given
-- picks: of those that apply, one of the least tier, among these of the least priority, and among
-- these the first.
pub match-best :
    (lib : Library) (rules : List HostRule) (q : Request)
    → match lib (init rules) q ≡ rule_of (best lib rules q (mac_norm q.mac))
unfolding match init
match-best lib rules q =
    first-head? (sort candidate_le (candidates lib (sort priority_le rules) q mac))
    ∙ ap rule_of (
        head?-sort (candidates lib (sort priority_le rules) q mac)
        ∙ least-candidates lib q mac (sort priority_le rules)
        ∙ best-sort lib q mac rules)
  where
    mac : Option Text
    mac = mac_norm q.mac
