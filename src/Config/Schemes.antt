-- ===== src/Config/Schemes.antt =====
-- The webhooks of a configuration.
use tftp_os.Prelude.{
  ◌≡◌, ap, Bool, true, ◌||◌, List, [], codes, text_eq, ◌==◌, All, Bool-cases, inl, inr,
}
use tftp_os.Prelude.Text.{Text}
use tftp_os.Result.{Result, ok, raise, value_error, >>=-eq-ok, ok-injective}
use tftp_os.Json.{Items, nil, cons, Fields, as_fields}
use tftp_os.Webhooks.{WebhookConfig, new_webhook}
use tftp_os.Config.{TomlFile, config_table}
use tftp_os.Config.Read.{each_table, items_of, need_text, texts_of, text_or, num_or}
use tftp_os.Config.Settings.{
  TftpOsConfig, webhook_config, webhooks_of, config_without, config_of, load_config,
}

-- What every read of one table gives holds of all that are read.
each_table-All :
    {A : Type 0} (P : A → Type 0) (read : Fields → Result A) (items : Items) (all_read : List A)
    → ((fs : Fields) (a : A) → read fs ≡ ok a → P a)
    → each_table read items ≡ ok all_read
    → All P all_read
unfolding each_table
each_table-All P read nil all_read each h = rw (← ok-injective h) tt
each_table-All P read (cons v items) all_read each h =
    let (fs, _, h₁) = >>=-eq-ok (as_fields v) _ h in
    let (a, one, h₂) = >>=-eq-ok (read fs) _ h₁ in
    let (rest, others, h₃) = >>=-eq-ok (each_table read items) _ h₂ in
    rw (← ok-injective h₃) (each fs a one, each_table-All P read items rest each others)

abbrev pub has_scheme : (Text → Text) → WebhookConfig → Bool
has_scheme scheme wh = scheme wh.url == codes "http" || scheme wh.url == codes "https"

new_webhook-has_scheme :
    (scheme : Text → Text) (wh wh' : WebhookConfig)
    → new_webhook scheme wh ≡ ok wh'
    → has_scheme scheme wh' ≡ true
unfolding new_webhook
new_webhook-has_scheme scheme wh wh' h = elim (Bool-cases (has_scheme scheme wh)) [
  | inl y ↦ let same : wh ≡ wh' = ok-injective (rw y at h) in rw same at y
  | inr n ↦ absurd (no_ok (rw n at h))
]
  where
    no_ok : raise value_error ≡ ok wh' → ⊥
    no_ok h = cc h

webhook_config-has_scheme :
    (scheme : Text → Text) (fs : Fields) (wh : WebhookConfig)
    → webhook_config scheme fs ≡ ok wh
    → has_scheme scheme wh ≡ true
unfolding webhook_config
webhook_config-has_scheme scheme fs wh h =
    let (url, _, h₁) = >>=-eq-ok (need_text (codes "url") fs) _ h in
    let (events, _, h₂) = >>=-eq-ok (texts_of (codes "events") fs) _ h₁ in
    let (secret, _, h₃) = >>=-eq-ok (text_or (codes "secret") [] fs) _ h₂ in
    let (count, _, h₄) = >>=-eq-ok (num_or (codes "retry_count") 3 fs) _ h₃ in
    let (timeout, _, h₅) = >>=-eq-ok (num_or (codes "timeout") 10 fs) _ h₄ in
    new_webhook-has_scheme scheme _ wh h₅

-- The webhooks of every configuration that load_config returns have a URL of the scheme http or https.
pub load_config-has_scheme :
    (scheme : Text → Text) (f : TomlFile) (c : TftpOsConfig)
    → load_config scheme f ≡ ok c
    → All (λ wh. has_scheme scheme wh ≡ true) c.webhooks
unfolding load_config config_of webhooks_of
load_config-has_scheme scheme f c h =
    let (whole, _, h₁) = >>=-eq-ok (config_table f) _ h in
    let (base, _, h₂) = >>=-eq-ok (config_without whole) _ h₁ in
    let (hooks, listed, h₃) = >>=-eq-ok (webhooks_of scheme whole) _ h₂ in
    let (items, _, read) = >>=-eq-ok (items_of (codes "webhooks") whole) _ listed in
    let same : hooks ≡ c.webhooks = ap (λ d. d.webhooks) (ok-injective h₃) in
    rw (← same) (
      each_table-All (λ wh. has_scheme scheme wh ≡ true) (webhook_config scheme) items hooks
        (webhook_config-has_scheme scheme) read)
