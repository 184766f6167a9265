-- ===== src/Lib.antt =====
-- tftp-os, a Python library for unattended installation of operating systems over the network.
-- It keeps, for each machine, a record of its installation; picks the rule by which a request of a
-- machine is served; orders the installation of clusters of machines; and protects the service with
-- rate limits and caches. The library is used by one process; times are arguments of the model.
--
-- Parts, their source, and the files that model them:
--   RateLimit.antt     tftpos/rate_limit.py   RateLimiter (check, remaining, retry_after, reset,
--                                             cleanup) and the global limiters
--   Cache.antt         tftpos/cache.py        TTLCacheWrapper, the decorator ttl_cache
--   ProvisionRecord.antt, Tracker.antt
--                      tftpos/state.py        ProvisionRecord, ProvisionTracker
--   Db.antt            tftpos/db.py           StorageBackend (Db/Interface), MemoryBackend
--                                             (Db/Memory), JSONBackend (Db/JsonFile), rows (Db/Row),
--                                             records as dicts (Db/Serial)
--   HostRule.antt      tftpos/models.py       HostRule, ProvisionProfile
--   Matcher.antt       tftpos/matcher.py      HostMatcher
--   Names.antt         tftpos/cluster.py and tftpos/named_objects.py, the check of names
--   Cluster.antt       tftpos/cluster.py      data classes (Cluster/Definition), dicts
--                                             (Cluster/Serial), ClusterStore (Cluster/Store),
--                                             ClusterManager (Cluster/Manager; marks of single
--                                             hosts in Manager/Marks, the status in Manager/Status)
--   Auth.antt          tftpos/auth.py         Role, ApiKeyStore
--   NamedObjects.antt  tftpos/named_objects.py  NamedObjectStore
--   Validation.antt    tftpos/validation.py   shell values, XML, safe names, packages, MAC addresses
--                                             (Validation/Mac), hosts and URLs (Validation/Host)
--   Plugins.antt       tftpos/plugins/base.py FirmwarePlugin; Plugins/Static and Plugins/OpenWrt are
--                                             the two plugins of tftpos/plugins/
--   Registry.antt      tftpos/registry.py     PluginRegistry
--   Staging.antt       tftpos/staging.py      stage, unstage, list_staged
--   Engine.antt        tftpos/engine.py       FirmwareEngine (what it serves in Engine/Guarded)
--   Audit.antt         tftpos/audit.py        AuditLogger (Audit/Events, Audit/Query)
--   Webhooks.antt      tftpos/webhooks.py     a delivery (Webhooks/Deliver), WebhookManager
--                                             (Webhooks/Manager)
--   Secrets.antt       tftpos/secrets.py      the stores of secrets (Secrets/File,
--                                             Secrets/Environment), SecretsManager (Secrets/Resolve,
--                                             Secrets/Profile)
--   Power.antt         tftpos/power.py        PowerManager, the drivers (Power/Ipmi, Power/Redfish),
--                                             create_driver (Power/Create)
--   Mnemonics.antt     tftpos/mnemonics.py    MnemonicRegistry
--   Config.antt        tftpos/config.py       load_config (Config/Settings), load_hosts and
--                                             load_profile (Config/Hosts)
--   Console.antt       tftpos/console.py      ConsoleConfig, the proxies
--   Mirrors.antt       tftpos/repo_mirror.py  RepoManager
--   Tests.antt                                runs on concrete inputs
--
-- Prelude, Result, Dict and Json hold texts, exceptions, Python's dict and JSON values. A class is a
-- record, a method a function that takes the object and returns the changed one with its answer; a
-- method that may raise returns a Result. The tracker is written over the record StorageBackend, an
-- interface with laws, and the in-memory backend fills it; the JSON backend is shown to refine that
-- one. The clusters use the names, the dicts and the store. The engine composes the matcher, the
-- registry, the cache, the tracker and staging; Paths holds what they ask the file system.
--
-- Bounds. Times are natural numbers of clock ticks; the rate limiter counts tokens in parts of a token
-- small enough that its arithmetic is exact, where the source has floating-point numbers. A rate is a
-- whole number of requests in a minute, a burst is at least one, a priority is not negative. Texts are
-- lists of code points; lower case is that of ASCII. No definition runs on fuel: every loop is
-- structural recursion.
--
-- Parameters, for code outside the repository: fnmatch and ipaddress (Matcher.Library), the file system
-- (Paths.FileSystem), callbacks of the users, the function that a cache wraps, the hash of API keys,
-- the random part of a new one, the HTTP library, the HMAC, ipmitool, rsync and wget, shutil.rmtree
-- (only its calls are kept), urlparse, the environment, and what the TOML library reads. json.dumps and
-- json.loads are taken to be inverse to one another, and reads and writes of files to succeed, where
-- nothing else is said.
--
-- Not modelled: locks and threads (each method is one step), the SQL backend, whose state is in a
-- database library, templates, hypervisors, the set-up of logging, TLS, metrics, and the
-- inspection of images: they call outside programs and libraries, or are left for later.
pub mod Prelude
pub mod Result
pub mod Dict
pub mod RateLimit
pub mod Cache
pub mod Json
pub mod ProvisionRecord
pub mod Db
pub mod Tracker
pub mod HostRule
pub mod Matcher
pub mod Names
pub mod Cluster
pub mod Auth
pub mod Validation
pub mod NamedObjects
pub mod Audit
pub mod Webhooks
pub mod Secrets
pub mod Power
pub mod Mnemonics
pub mod Config
pub mod Console
pub mod Paths
pub mod Plugins
pub mod Registry
pub mod Staging
pub mod Engine
pub mod Mirrors
pub mod Tests
