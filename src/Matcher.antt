-- ===== src/Matcher.antt =====
-- tftpos/matcher.py: which host rule a request gets. `fnmatch.fnmatch` and the parsers and the
-- membership of `ipaddress` are parameters, as functions of the texts that they are given.
pub mod Best
pub mod Choice
pub mod Normal
use tftp_os.Prelude.{
  ℕ, Bool, true, false, not, ◌&&◌, ◌||◌, Option, none, some, List, [], ◌∷◌, ltb, leb, nat_beq,
  if◌then◌else◌, ◌==◌, text_eq, truthy, lower, replace_char, starts_with, ◌≡◌,
}
use tftp_os.Prelude.Text.{Text}
use tftp_os.Prelude.Sort.{sort}
use tftp_os.HostRule.{HostRule, present_text}

-- What the matcher calls of the standard library.
pub record Library : Type 0 where
  -- fnmatch.fnmatch(name, pattern)
  pub fnmatch : Text → Text → Bool
  -- ip_address(client_ip) in ip_network(cidr, strict=False), or `none` where either raises
  pub in_network : Text → Text → Option Bool

-- The arguments of `match`.
pub record Request : Type 0 where
  pub mac : Option Text
  pub hostname : Option Text
  pub subnet : Option Text
  pub serial : Option Text
  pub groups : Option (List Text)
  pub arch : Option Text

-- mac.lower().replace("-", ":")
unfoldable pub normal_mac : Text → Text
unfolding replace_char lower
normal_mac mac = replace_char b'-' b':' (lower mac)

-- mac_norm
unfoldable pub mac_norm : Option Text → Option Text
unfolding normal_mac
mac_norm none = none
mac_norm (some m) = if truthy m then some (normal_mac m) else none

-- key in groups
unfoldable pub among_texts : Text → List Text → Bool
among_texts k [] = false
among_texts k (j ∷ ks) = j == k || among_texts k ks

-- `if a and b: return test(a, b)`, and the statements that follow.
abbrev pub when_both : Option Text → Option Text → (Text → Text → Option ℕ) → Option ℕ → Option ℕ
when_both none b test rest = rest
when_both (some x) none test rest = rest
when_both (some x) (some y) test rest = if truthy x && truthy y then test x y else rest

abbrev pub truthy_list : List Text → Bool
truthy_list [] = false
truthy_list (x ∷ xs) = true

abbrev pub when_group :
    Option Text → Option (List Text) → (Text → List Text → Option ℕ) → Option ℕ → Option ℕ
when_group none b test rest = rest
when_group (some x) none test rest = rest
when_group (some x) (some ys) test rest = if truthy x && truthy_list ys then test x ys else rest

abbrev pub tier_if : Bool → ℕ → Option ℕ
tier_if b n = if b then some n else none

unfoldable pub has_criteria : HostRule → Bool
has_criteria r =
    present_text r.mac
    || present_text r.mac_prefix
    || present_text r.hostname_pattern
    || present_text r.subnet
    || present_text r.serial
    || present_text r.group
    || present_text r.arch

-- if tier is not None: candidates.append(...)
abbrev pub collect : Option ℕ → HostRule → List (ℕ × HostRule) → List (ℕ × HostRule)
collect none r cs = cs
collect (some tier) r cs = (tier, r) ∷ cs

module _ (lib : Library) where
  holds : Option Bool → Bool
  holds none = false
  holds (some b) = b

  unfoldable pub subnet_match : Text → Text → Bool
  unfolding holds
  subnet_match client_ip cidr = holds (lib.in_network client_ip cidr)

  -- `mac` is normalised already.
  unfoldable pub match_tier : HostRule → Request → Option Text → Option ℕ
  unfolding normal_mac subnet_match has_criteria among_texts
  match_tier r q mac =
      when_both r.mac mac (λ a b. tier_if (normal_mac a == b) 0)
        (when_both r.mac_prefix mac (λ a b. tier_if (starts_with b (normal_mac a)) 1)
          (when_both r.hostname_pattern q.hostname
            (λ a b. tier_if (lib.fnmatch (lower b) (lower a)) 2)
            (when_both r.subnet q.subnet (λ a b. tier_if (subnet_match b a) 3)
              (when_both r.serial q.serial (λ a b. tier_if (a == b) 4)
                (when_group r.group q.groups (λ a b. tier_if (among_texts a b) 5)
                  (when_both r.arch q.arch (λ a b. tier_if (lower a == lower b) 6)
                    (tier_if (not (has_criteria r)) 7)))))))

  -- The loop that collects the candidates, with their tiers.
  unfoldable pub candidates : List HostRule → Request → Option Text → List (ℕ × HostRule)
  candidates [] q mac = []
  candidates (r ∷ rs) q mac = collect (match_tier r q mac) r (candidates rs q mac)

-- key=lambda r: r.priority
abbrev pub priority_le : HostRule → HostRule → Bool
priority_le a b = leb a.priority b.priority

-- key=lambda t: (t[0], t[1])
abbrev pub candidate_le : ℕ × HostRule → ℕ × HostRule → Bool
candidate_le (s, a) (t, b) = ltb s t || (nat_beq s t && leb a.priority b.priority)

pub record HostMatcher : Type 0 where
  pub rules : List HostRule

unfoldable pub init : List HostRule → HostMatcher
unfolding sort
init rules = record { rules = sort priority_le rules }

abbrev first : List (ℕ × HostRule) → Option HostRule
first [] = none
first ((tier, r) ∷ cs) = some r

unfoldable pub match : Library → HostMatcher → Request → Option HostRule
unfolding candidates sort mac_norm
match lib m q = first (sort candidate_le (candidates lib m.rules q (mac_norm q.mac)))
