-- ===== src/Matcher/Normal.antt =====
-- The spelling of a MAC address does not matter, and a rule without criteria catches everything.
use tftp_os.Prelude.{Option, some, List, [], ◌∷◌, ◌≡◌, refl, arith, lower_char, ap}
use tftp_os.Prelude.Text.{Text}
use tftp_os.HostRule.{HostRule}
use tftp_os.Matcher.{
  Library, Request, HostMatcher, match, mac_norm, normal_mac, match_tier, candidates,
}

pub normal_mac-normal_mac : (m : Text) → normal_mac (normal_mac m) ≡ normal_mac m
unfolding normal_mac lower_char
normal_mac-normal_mac [] = refl
normal_mac-normal_mac (c ∷ m) = ground (arith, normal_mac-normal_mac m)

mac_norm-normal_mac : (m : Text) → mac_norm (some (normal_mac m)) ≡ mac_norm (some m)
unfolding mac_norm
mac_norm-normal_mac [] = unfold normal_mac in refl
mac_norm-normal_mac (c ∷ m) = ap some (normal_mac-normal_mac (c ∷ m))

module _ (lib : Library) (mac mac' : Option Text) (q : Request) where
  abbrev with_mac : Option Text → Request
  with_mac m = record q { mac = m }

  same_tier :
      (r : HostRule) (m : Option Text)
      → match_tier lib r (with_mac mac) m ≡ match_tier lib r (with_mac mac') m
  unfolding match_tier
  same_tier r m = refl

  same_candidates :
      (rs : List HostRule) (m : Option Text)
      → candidates lib rs (with_mac mac) m ≡ candidates lib rs (with_mac mac') m
  unfolding candidates
  same_candidates [] m = refl
  same_candidates (r ∷ rs) m = rw (same_tier r m, same_candidates rs m) refl

-- A MAC address in capitals or with dashes gets the rule that its normal spelling gets.
pub match-normal_mac :
    (lib : Library) (h : HostMatcher) (q : Request) (m : Text)
    → match lib h (record q { mac = some m }) ≡ match lib h (record q { mac = some (normal_mac m) })
unfolding match
match-normal_mac lib h q m =
    rw
      (
        mac_norm-normal_mac m,
        same_candidates lib (some m) (some (normal_mac m)) q h.rules (mac_norm (some m)),
      )
      refl
