-- ===== src/Webhooks/Sent.antt =====
-- What a manager has sent, and what it keeps of it.
use tftp_os.Prelude.{
  text_eq, ℕ, zero, suc, ◌+◌, ◌≤◌, ◌≡◌, refl, sym, ap, ◌∙◌, arith, List, [], ◌∷◌, ◌++◌, map, filter,
  if◌then◌else◌, length, Bool-cases, inl, inr,
}
use mathlib.Core.List.{append_assoc, append-nil, reverse}
use tftp_os.Prelude.Recent.{keep_last, take, keep_last-append, keep_last_self, length-keep_last}
use tftp_os.Prelude.Text.{Text}
use tftp_os.Json.{Json}
use tftp_os.Dict.{Dict}
use tftp_os.Dict.Laws.{among}
use tftp_os.Webhooks.{WebhookConfig, WebhookDelivery, subscribed}
use tftp_os.Webhooks.Deliver.{
  Answer, answered, raised, is_success, new_delivery, after, attempts_from, attempt_delivery,
}
use tftp_os.Webhooks.Manager.{
  WebhookManager, max_deliveries, record_delivery, Surroundings, Task, deliver, deliver_each,
  submit_each, send_each, fire, fire_sync, get_recent_deliveries,
}

-- The tasks of the webhooks that an event is sent to, in their order.
abbrev pub tasks_of : Text → Dict Text Json → List WebhookConfig → List Task
tasks_of event payload webhooks =
    map (λ wh. record { webhook = wh; event = event; payload = payload })
      (filter (subscribed event) webhooks)

submit_each-tasks_of :
    (event : Text) (payload : Dict Text Json) (webhooks : List WebhookConfig) (dispatched : ℕ)
    → submit_each event payload webhooks dispatched
      ≡ (dispatched + length (tasks_of event payload webhooks), tasks_of event payload webhooks)
unfolding submit_each filter
submit_each-tasks_of event payload [] dispatched =
    let same : dispatched ≡ dispatched + 0 = omega arith in ap (λ n. (n, [])) same
submit_each-tasks_of event payload (wh ∷ webhooks) dispatched =
    elim (Bool-cases (subscribed event wh)) [
      | inl y ↦
          let tasks = tasks_of event payload webhooks in
          let same : suc dispatched + length tasks ≡ dispatched + suc (length tasks) =
            omega arith in
          rw (y, submit_each-tasks_of event payload webhooks (suc dispatched), same) refl
      | inr n ↦ rw n (submit_each-tasks_of event payload webhooks dispatched)
    ]

module _ (around : Surroundings) where
  send_each-tasks_of :
      (event : Text) (payload : Dict Text Json) (webhooks : List WebhookConfig) (m : WebhookManager)
      → send_each around event payload webhooks m
        ≡ deliver_each around (tasks_of event payload webhooks) m
  unfolding send_each deliver_each filter
  send_each-tasks_of event payload [] m = refl
  send_each-tasks_of event payload (wh ∷ webhooks) m = elim (Bool-cases (subscribed event wh)) [
    | inl y ↦ rw (y, send_each-tasks_of event payload webhooks) refl
    | inr n ↦ rw n (send_each-tasks_of event payload webhooks m)
  ]

  length-deliver_each :
      (tasks : List Task) (m : WebhookManager)
      → length (deliver_each around tasks m).1 ≡ length tasks
  unfolding deliver_each
  length-deliver_each [] m = refl
  length-deliver_each (t ∷ tasks) m = ap suc (length-deliver_each tasks (deliver around t m).0)

  -- The tasks that the loop of fire gives to the pool, done one after the other, leave the manager and
  -- give the deliveries that the loop of fire_sync does; the number that fire returns is that of these
  -- deliveries.
  pub fire-fire_sync :
      (event : Text) (payload : Dict Text Json) (m : WebhookManager)
      → (fire_sync around event payload m ≡ deliver_each around (fire event payload m).1 m)
        × (length (fire_sync around event payload m).1 ≡ (fire event payload m).0)
  unfolding fire fire_sync deliver_each
  fire-fire_sync event payload m = elim (Bool-cases (among event m.supported_events)) [
    | inl y ↦
        let tasks = tasks_of event payload m.webhooks in
        let same : length tasks ≡ 0 + length tasks = omega arith in
        rw (y, submit_each-tasks_of event payload m.webhooks 0, send_each-tasks_of)
          (refl, length-deliver_each tasks m ∙ same)
    | inr n ↦ simp n (refl, refl)
  ]

  deliver_each-deliveries :
      (tasks : List Task) (m : WebhookManager)
      → length m.deliveries ≤ max_deliveries
      → (deliver_each around tasks m).0.deliveries
        ≡ keep_last max_deliveries (m.deliveries ++ (deliver_each around tasks m).1)
  unfolding deliver_each deliver record_delivery
  deliver_each-deliveries [] m short =
      rw append-nil (sym (keep_last_self max_deliveries m.deliveries short))
  deliver_each-deliveries (t ∷ tasks) m short =
      let n = max_deliveries in
      let (m', d) = deliver around t m in
      let within : length m'.deliveries ≤ n =
        omega (arith, length-keep_last n (m.deliveries ++ d ∷ [])) in
      let rs = (deliver_each around tasks m').1 in
      deliver_each-deliveries tasks m' within
      ∙ keep_last-append n (m.deliveries ++ d ∷ []) rs
      ∙ ap (keep_last n) (append_assoc m.deliveries (d ∷ []) rs)

after-url :
    (now k : ℕ) (a : Answer) (d : WebhookDelivery) → (after now k a d).webhook_url ≡ d.webhook_url
unfolding after
after-url now k (answered c) d = elim (Bool-cases (is_success (answered c))) [
  | inl y ↦ rw y refl
  | inr n ↦ rw n refl
]
after-url now k (raised m) d = refl

attempts_from-url :
    (post : ℕ → Answer) (now k left : ℕ) (d : WebhookDelivery)
    → (attempts_from post now k left d).0.webhook_url ≡ d.webhook_url
unfolding attempts_from
attempts_from-url post now k zero d = refl
attempts_from-url post now k (suc left) d =
    let once = after-url now k (post k) d in
    elim (Bool-cases (is_success (post k))) [
      | inl y ↦ rw y once
      | inr n ↦ rw n (attempts_from-url post now (suc k) left (after now k (post k) d) ∙ once)
    ]

module _ (around : Surroundings) where
  deliver_each-url :
      (tasks : List Task) (m : WebhookManager)
      → map (λ d. d.webhook_url) (deliver_each around tasks m).1 ≡ map (λ t. t.webhook.url) tasks
  unfolding deliver_each deliver attempt_delivery new_delivery
  deliver_each-url [] m = refl
  deliver_each-url (t ∷ tasks) m =
      rw (attempts_from-url _ _ _ _ _)
        (ap (λ us. t.webhook.url ∷ us) (deliver_each-url tasks (deliver around t m).0))

tasks_of-url :
    (event : Text) (payload : Dict Text Json) (webhooks : List WebhookConfig)
    → map (λ t. t.webhook.url) (tasks_of event payload webhooks)
      ≡ map (λ wh. wh.url) (filter (subscribed event) webhooks)
unfolding filter
tasks_of-url event payload [] = refl
tasks_of-url event payload (wh ∷ webhooks) =
    let rest = tasks_of-url event payload webhooks in
    elim (Bool-cases (subscribed event wh)) [
      | inl y ↦ rw y (ap (λ us. wh.url ∷ us) rest)
      | inr n ↦ rw n rest
    ]

-- A supported event goes once to each webhook that has no list of events or has this one in its
-- list, in the order of the webhooks, and another event to none; a manager that keeps at most 500
-- deliveries then answers the last 500 of the old and the new ones, the newest first, and of them at
-- most as many as the limit.
pub fire_sync-recent :
    (around : Surroundings) (event : Text) (payload : Dict Text Json) (limit : ℕ)
    (m : WebhookManager)
    → length m.deliveries ≤ max_deliveries
    → (map (λ d. d.webhook_url) (fire_sync around event payload m).1 ≡ (
        if among event m.supported_events
        then map (λ wh. wh.url) (filter (subscribed event) m.webhooks)
        else []))
      × (get_recent_deliveries limit (fire_sync around event payload m).0
          ≡ take limit (
              reverse
                (keep_last max_deliveries (m.deliveries ++ (fire_sync around event payload m).1))))
unfolding fire_sync get_recent_deliveries
fire_sync-recent around event payload limit m short =
    elim (Bool-cases (among event m.supported_events)) [
      | inl y ↦
          let tasks = tasks_of event payload m.webhooks in
          rw (y, send_each-tasks_of around event payload m.webhooks m)
            (
              deliver_each-url around tasks m ∙ tasks_of-url event payload m.webhooks,
              ap (λ ds. take limit (reverse ds)) (deliver_each-deliveries around tasks m short),
            )
      | inr n ↦ simp n (
        refl,
        rw append-nil (
            ap (λ ds. take limit (reverse ds))
              (sym (keep_last_self max_deliveries m.deliveries short))),
      )
    ]
