-- ===== src/Tests/Rules.antt =====
-- tftpos/matcher.py on three rules, with an exact comparison for `fnmatch`, and no networks.
use tftp_os.Prelude.{
  ℕ, ◌≡◌, refl, Option, none, some, List, [], ◌∷◌, codes, ◌==◌, text_eq, text_beq, lower,
  lower_char, replace_char, starts_with,
}
use tftp_os.Prelude.Sort.{sort, insert}
use tftp_os.HostRule.{HostRule}
use tftp_os.Matcher.{Library, Request, init, match, mac_norm, normal_mac, candidates, match_tier}
use tftp_os.Matcher.Best.{best, rule_of, match-best}
use tftp_os.Matcher.Choice.{Chosen, match-Chosen}

abbrev lib : Library
lib = record { fnmatch = λ name pattern. name == pattern; in_network = λ ip cidr. none }

abbrev catch_all : HostRule
catch_all = record {
  profile = codes "default";
  os_family = codes "debian";
  os_version = codes "12";
  vendor = [];
  priority = 1;
  mac = none;
  mac_prefix = none;
  hostname_pattern = none;
  subnet = none;
  serial = none;
  group = none;
  arch = none;
  bmc_host = none;
  bmc_user = none;
  bmc_password = none;
  bmc_driver = none;
  deploy_mode = codes "netboot";
  console_type = none;
  console_endpoint = none;
}

abbrev by_prefix : HostRule
by_prefix = record catch_all {
  profile = codes "rack";
  priority = 50;
  mac_prefix = some (codes "AA-BB");
}

abbrev by_mac : HostRule
by_mac = record catch_all { profile = codes "web"; priority = 100; mac = some (codes "aa-bb-01") }

abbrev rules : List HostRule
rules = by_mac ∷ catch_all ∷ by_prefix ∷ []

abbrev request : Request
request = record {
  mac = some (codes "AA:BB:01");
  hostname = none;
  subnet = some (codes "10.0.0.7");
  serial = none;
  groups = none;
  arch = some (codes "x86_64");
}

-- The exact MAC address wins, though its priority is the greatest number.
match_run : match lib (init rules) request ≡ some by_mac
unfolding match init candidates sort insert mac_norm normal_mac match_tier lower lower_char
    replace_char text_beq starts_with
match_run = refl

match-best_example :
    match lib (init rules) request ≡ rule_of (best lib rules request (mac_norm request.mac))
match-best_example = match-best lib rules request

match-Chosen_example :
    (o : Option (ℕ × HostRule)) × (match lib (init rules) request ≡ rule_of o)
    × Chosen lib request (mac_norm request.mac) rules o
match-Chosen_example = match-Chosen lib rules request
