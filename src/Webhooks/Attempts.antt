-- ===== src/Webhooks/Attempts.antt =====
-- How often, and until when, a webhook is tried, and how long the delivery waits.
use tftp_os.Prelude.{
  ℕ, zero, suc, ◌+◌, ◌^◌, ◌-◌, ◌≤◌, ◌<◌, ◌≡◌, refl, sym, ap, ◌∙◌, arith, true, false, ◌⊎◌, inl, inr,
  List, [], ◌∷◌, Bool-cases,
}
use tftp_os.Prelude.Text.{Text}
use tftp_os.Json.{Json}
use tftp_os.Dict.{Dict}
use tftp_os.Webhooks.{WebhookConfig, WebhookDelivery}
use tftp_os.Webhooks.Deliver.{
  Answer, answered, raised, is_success, new_delivery, after, attempts_from, max_attempts,
  attempt_delivery,
}

-- So many waits, each twice the one before, from 2 ^ k.
abbrev pub doubling : ℕ → ℕ → List ℕ
doubling k zero = []
doubling k (suc n) = 2 ^ k ∷ doubling (suc k) n

-- How the attempts from the k-th on, so many at most, end: with the attempt `last`. All before it
-- failed; the delivery succeeded exactly if this one did, and otherwise no attempt was left; between
-- the attempts, the waits double.
pub record Ended (post : ℕ → Answer) (k left : ℕ) (result : WebhookDelivery × List ℕ) : Type 0 where
  pub last : ℕ
  pub attempts : result.0.attempts ≡ suc last
  pub from_first : k ≤ last
  pub within : last < k + left
  pub failed_before : (i : ℕ) → k ≤ i → i < last → is_success (post i) ≡ false
  pub verdict : result.0.success ≡ is_success (post last)
  pub exhausted : (is_success (post last) ≡ true) ⊎ (suc last ≡ k + left)
  pub waits : result.1 ≡ doubling k (last - k)

after-attempts : (now k : ℕ) (a : Answer) (d : WebhookDelivery) → (after now k a d).attempts ≡ suc k
unfolding after
after-attempts now k (answered c) d = elim (Bool-cases (is_success (answered c))) [
  | inl y ↦ rw y refl
  | inr n ↦ rw n refl
]
after-attempts now k (raised m) d = refl

after-success :
    (now k : ℕ) (a : Answer) (d : WebhookDelivery)
    → d.success ≡ false
    → (after now k a d).success ≡ is_success a
unfolding after
after-success now k (answered c) d h = elim (Bool-cases (is_success (answered c))) [
  | inl y ↦ rw y refl
  | inr n ↦ rw n h
]
after-success now k (raised m) d h = h

-- The attempt is the last.
Ended-here :
    (post : ℕ → Answer) (now k left : ℕ) (d : WebhookDelivery)
    → d.success ≡ false
    → (is_success (post k) ≡ true) ⊎ (left ≡ 0)
    → Ended post k (suc left) (after now k (post k) d, [])
Ended-here post now k left d h end = record {
  last = k;
  attempts = after-attempts now k (post k) d;
  from_first = omega arith;
  within = omega arith;
  failed_before = λ i l u. absurd (omega arith);
  verdict = after-success now k (post k) d h;
  exhausted = elim end [ inl y ↦ inl y | inr z ↦ inr (omega arith) ];
  waits = let z : k - k ≡ 0 = omega arith in rw z refl;
}

le_cases : (k i : ℕ) → k ≤ i → (k ≡ i) ⊎ (suc k ≤ i)
le_cases k i l = ground arith

-- The attempt failed, and the others followed after the wait.
Ended-later :
    (post : ℕ → Answer) (k left : ℕ) (d : WebhookDelivery) (waits : List ℕ)
    → is_success (post k) ≡ false
    → Ended post (suc k) left (d, waits)
    → Ended post k (suc left) (d, 2 ^ k ∷ waits)
Ended-later post k left d waits f e = record {
  last = e.last;
  attempts = e.attempts;
  from_first = omega (arith, e.from_first);
  within = omega (arith, e.within);
  failed_before = λ i l u. elim (le_cases k i l) [
    | inl same ↦ ap (λ j. is_success (post j)) (sym same) ∙ f
    | inr later ↦ e.failed_before i later u
  ];
  verdict = e.verdict;
  exhausted = elim e.exhausted [ inl y ↦ inl y | inr z ↦ inr (omega arith) ];
  waits =
      let z : e.last - k ≡ suc (e.last - suc k) = omega (arith, e.from_first) in
      rw z (ap (λ ws. 2 ^ k ∷ ws) e.waits);
}

attempts_from-Ended :
    (post : ℕ → Answer) (now k left : ℕ) (d : WebhookDelivery)
    → d.success ≡ false
    → Ended post k (suc left) (attempts_from post now k (suc left) d)
unfolding attempts_from
attempts_from-Ended post now k zero d h = elim (Bool-cases (is_success (post k))) [
  | inl y ↦ rw y (Ended-here post now k zero d h (inl y))
  | inr n ↦ rw n (Ended-here post now k zero d h (inr refl))
]
attempts_from-Ended post now k (suc left) d h = elim (Bool-cases (is_success (post k))) [
  | inl y ↦ rw y (Ended-here post now k (suc left) d h (inl y))
  | inr n ↦ rw n (
      Ended-later post k (suc left) _ _ n (
        attempts_from-Ended post now (suc k) left (after now k (post k) d)
          (after-success now k (post k) d h ∙ n)))
]

max_attempts-suc : (wh : WebhookConfig) → (n : ℕ) × (max_attempts wh ≡ suc n)
max_attempts-suc wh = of_count wh.retry_count
  where
    of_count : (count : ℕ) → (n : ℕ) × (elim count as (λ c. ℕ) [ zero ↦ 1 | suc n ↦ suc n ] ≡ suc n)
    of_count zero = (0, refl)
    of_count (suc n) = (n, refl)

-- A delivery of a webhook makes at least one attempt and at most max(1, retry_count): it stops with
-- the first attempt that is answered by a status from 200 to 299, and then it has succeeded, or after
-- the last one that is left, and then it has failed. It waits 1, 2, 4 and so on seconds between them.
pub attempt_delivery-Ended :
    (post : ℕ → Answer) (now : ℕ) (wh : WebhookConfig) (event id : Text) (payload : Dict Text Json)
    → Ended post 0 (max_attempts wh) (attempt_delivery post now wh event id payload)
unfolding attempt_delivery new_delivery
attempt_delivery-Ended post now wh event id payload =
    let (n, at_least_one) = max_attempts-suc wh in
    rw at_least_one (attempts_from-Ended post now 0 n (new_delivery wh event id payload) refl)
