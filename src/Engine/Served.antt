-- ===== src/Engine/Served.antt =====
-- What the engine serves.
use tftp_os.Prelude.{
  ◌≡◌, refl, sym, ap, Option, none, some, some-injective, if◌then◌else◌, text_eq, Bool-cases, inl,
  inr,
}
use tftp_os.Result.{Result, ok, raise, ok-injective, raise-injective, ◌>>=◌, ◌>>◌}
use tftp_os.HostRule.{HostRule, ProvisionProfile}
use tftp_os.Matcher.{Request}
use tftp_os.Cache
use tftp_os.Cache.{wrapped}
use tftp_os.Cache.Memo.{IsMemo, Agrees, get-IsMemo, wrapped-Agrees}
use tftp_os.Paths.{FilePath, path_eq}
use tftp_os.Engine.{
  Setting, Profiles, Clock, loader, bare_profile, after_call, profile_path, resolve_rule,
  cached_load_profile, checked_profile, load_checked, load_profile_for_rule, plugin_path,
  serve_loaded, serve_rule, serve,
}

-- The profile and the path without a cache.
abbrev pub load_uncached : Setting → HostRule → Result ProvisionProfile
load_uncached e rule =
    if e.fs.exists (profile_path e rule.profile)
    then e.load (profile_path e rule.profile)
    else ok (bare_profile rule)

abbrev pub profile_uncached : Setting → HostRule → Result ProvisionProfile
profile_uncached e rule = checked_profile e rule >> load_uncached e rule

abbrev pub serve_uncached : Setting → Request → Result FilePath
serve_uncached e q = do
  rule ← resolve_rule e q
  profile ← profile_uncached e rule
  plugin_path e rule profile

module _ (e : Setting) (t : Clock) where
  -- The cache holds what loading gives, and the answer is this one.
  abbrev pub Answers {ℓ} : {A : Type ℓ} → Profiles × Result A → Result A → Type ℓ
  Answers (s, r) r' = IsMemo (loader e.load) s.0 × (r ≡ r')

  after_call-Answers :
      (looked : Profiles) (r : Result (Profiles × Option ProvisionProfile))
      (l : Result ProvisionProfile)
      → IsMemo (loader e.load) looked.0
      → Agrees (loader e.load) r (l >>= λ p. ok (some p))
      → Answers (after_call looked r) l
  after_call-Answers looked (raise x) (raise y) m h = (m, ap raise (sym (raise-injective h)))
  after_call-Answers looked (raise x) (ok p) m h = cc h
  after_call-Answers looked (ok (c, none)) (raise y) m h = cc (h.1)
  after_call-Answers looked (ok (c, none)) (ok p) m h = cc (h.1)
  after_call-Answers looked (ok (c, some p)) (raise y) m h = cc (h.1)
  after_call-Answers looked (ok (c, some p)) (ok p') m h =
      (h.0, ap ok (some-injective (ok-injective (sym (h.1)))))

  cached-Answers :
      (s : Profiles) (path : FilePath)
      → IsMemo (loader e.load) s.0
      → Answers (cached_load_profile e t s path) (e.load path)
  unfolding cached_load_profile
  cached-Answers (c, g) path m =
      after_call-Answers (Cache.get c g path t.first).0
        (wrapped (loader e.load) c g path t.first t.second t.third) (e.load path)
        (get-IsMemo (loader e.load) c g path t.first m)
        (wrapped-Agrees (loader e.load) c g path t.first t.second t.third m)

  load_checked-Answers :
      (s : Profiles) (rule : HostRule) (r : Result (Unit {0}))
      → IsMemo (loader e.load) s.0
      → Answers (load_checked e t s rule r) (r >> load_uncached e rule)
  load_checked-Answers s rule (raise x) m = (m, refl)
  load_checked-Answers s rule (ok u) m =
      elim (Bool-cases (e.fs.exists (profile_path e rule.profile))) [
        | inl y ↦ rw y (cached-Answers s (profile_path e rule.profile) m)
        | inr n ↦ rw n (m, refl)
      ]

  serve_loaded-Answers :
      (rule : HostRule) (p : Profiles × Result ProvisionProfile) (l : Result ProvisionProfile)
      → Answers p l
      → Answers (serve_loaded e t rule p) (l >>= λ profile. plugin_path e rule profile)
  serve_loaded-Answers rule (s, raise x) l (m, same) = (m, rw (← same) refl)
  serve_loaded-Answers rule (s, ok profile) l (m, same) = (m, rw (← same) refl)

  serve_rule-Answers :
      (s : Profiles) (r : Result HostRule)
      → IsMemo (loader e.load) s.0
      → Answers
          (serve_rule e t s r)
          (r >>= λ rule. profile_uncached e rule >>= λ profile. plugin_path e rule profile)
  unfolding load_profile_for_rule
  serve_rule-Answers s (raise x) m = (m, refl)
  serve_rule-Answers s (ok rule) m =
      serve_loaded-Answers rule (load_checked e t s rule (checked_profile e rule))
        (checked_profile e rule >> load_uncached e rule)
        (load_checked-Answers s rule (checked_profile e rule) m)

-- With a cache that holds what loading gives, whatever has expired or been evicted, a request is
-- served as it is without a cache, also where it is refused, and the cache is such a one again.
pub serve-serve_uncached :
    (e : Setting) (t : Clock) (s : Profiles) (q : Request)
    → IsMemo (loader e.load) s.0
    → IsMemo (loader e.load) (serve e t s q).0.0 × ((serve e t s q).1 ≡ serve_uncached e q)
unfolding serve
serve-serve_uncached e t s q m = serve_rule-Answers e t s (resolve_rule e q) m
