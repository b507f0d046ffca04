-- ===== src/Engine/Outbox/Laws.antt =====
-- What becomes of a webhook delivery after an attempt, and when it is tried again.
use mrkt.Prelude.{
  ℕ, zero, suc, ◌+◌, ◌*◌, ◌^◌, ◌≤◌, String, ◌≡◌, ◌↔◌, refl, sym, ap, ◌∙◌, subst, ◌⊎◌, inl, inr,
  true, false, none, some, Memᴰ, arith, ne_of_test, leb, ltb, leb→le, ltb→lt, if◌then◌else◌,
  Bool-cases,
}
use mrkt.Store.Rows.{WebhookRow, Db}
use mrkt.Store.Query.Laws.{mem-update_where}
use mrkt.Engine.Env.{Env, minute}
use mrkt.Engine.Outbox.Attempts.{
  Reply, succeeded, is_final, settled_state, retry_delay, detail_of, is_attempt, finish_attempt,
}

-- The outcome of an attempt, independently of the order of the three assignments.
pub record IsSettled (attempts : ℕ) (r : Reply) (state : String) : Type 0 where
  pub delivered : (state ≡ "delivered") ↔ (succeeded r ≡ true)
  pub pending :
      (state ≡ "pending") ↔ ((succeeded r ≡ false) × (is_final r.status ≡ false) × (attempts ≤ 8))
  pub known : (state ≡ "delivered") ⊎ (state ≡ "pending") ⊎ (state ≡ "dead_letter")

-- No status is both a success and a refusal.
success_low : (r : Reply) → succeeded r ≡ true → ltb r.status 300 ≡ true
success_low r h = ground arith

success_not_final : (r : Reply) → succeeded r ≡ true → is_final r.status ≡ false
success_not_final r h =
    let b = ltb→lt r.status 300 (success_low r h) in
    let low : leb 400 r.status ≡ false = ground arith in rw low refl

settled-success :
    (attempts : ℕ) (r : Reply) → succeeded r ≡ true → settled_state attempts r ≡ "delivered"
unfolding settled_state
settled-success attempts r t =
    rw (t, success_not_final r t)
      (elim (Bool-cases (leb 9 attempts)) [ inl l ↦ rw l refl | inr l ↦ rw l refl ])

settled-final :
    (attempts : ℕ) (r : Reply) → is_final r.status ≡ true → settled_state attempts r ≡ "dead_letter"
unfolding settled_state
settled-final attempts r t = rw t refl

settled-failure :
    (attempts : ℕ) (r : Reply)
    → succeeded r ≡ false
    → is_final r.status ≡ false
    → settled_state attempts r ≡ (if leb 9 attempts then "dead_letter" else "pending")
unfolding settled_state
settled-failure attempts r f n =
    rw (f, n) (elim (Bool-cases (leb 9 attempts)) [ inl l ↦ rw l refl | inr l ↦ rw l refl ])

dead_letter-IsSettled :
    (attempts : ℕ) (r : Reply) (s : String)
    → s ≡ "dead_letter"
    → succeeded r ≡ false
    → ((is_final r.status ≡ false) → attempts ≤ 8 → ⊥)
    → IsSettled attempts r s
dead_letter-IsSettled attempts r s e f never = record {
  delivered = (λ d. absurd (ne_of_test s "delivered" (rw e refl) d), λ t. cc);
  pending = (λ d. absurd (ne_of_test s "pending" (rw e refl) d), λ h. absurd (never h.1 h.2));
  known = inr (inr e);
}

-- The state that a delivery gets from an attempt is "delivered" exactly where the status is a 2xx and
-- there was no error; it is "pending" exactly where the attempt failed, the status is not a 4xx other
-- than 408 and 429, and at most 8 attempts came before; and otherwise it is "dead_letter".
settled_state-IsSettled :
    (attempts : ℕ) (r : Reply) → IsSettled attempts r (settled_state attempts r)
settled_state-IsSettled attempts r = elim (Bool-cases (succeeded r)) [
  | inl t ↦
      let s = settled-success attempts r t in
      record {
        delivered = (λ _. t, λ _. s);
        pending = (λ d. absurd (ne_of_test "pending" "delivered" refl (cc)), λ h. cc);
        known = inl s;
      }
  | inr f ↦ elim (Bool-cases (is_final r.status)) [
    | inl t ↦
        dead_letter-IsSettled attempts r (settled_state attempts r) (settled-final attempts r t) f
          (λ n _. cc)
    | inr n ↦
        let s = settled-failure attempts r f n in
        elim (Bool-cases (leb 9 attempts)) [
          | inl l ↦
              dead_letter-IsSettled attempts r (settled_state attempts r) (rw l at s) f
                (λ _ few. omega (arith, leb→le 9 attempts l))
          | inr l ↦
              let p : settled_state attempts r ≡ "pending" = rw l at s in
              record {
                delivered = (λ d. absurd (ne_of_test "pending" "delivered" refl (cc)), λ t. cc);
                pending = (λ _. (f, n, ground arith), λ _. p);
                known = inr (inl p);
              }
        ]
  ]
]

power_pos : (n : ℕ) → 1 ≤ 2 ^ n
power_pos zero = omega arith
power_pos (suc n) = omega (arith, power_pos n)

power_mono : (n m : ℕ) → n ≤ m → 2 ^ n ≤ 2 ^ m
power_mono zero m h = power_pos m
power_mono (suc n) zero h = omega (arith, h)
power_mono (suc n) (suc m) h = omega (arith, power_mono n m (omega (arith, h)))

capped : ℕ → ℕ
capped n = if ltb 12 n then 12 else n

capped_mono : (n m : ℕ) → n ≤ m → (capped n ≤ capped m) × (capped m ≤ 12)
unfolding capped
capped_mono n m h = (ground arith, ground arith)

scaled : (a b : ℕ) → a ≤ b → a * minute ≤ b * minute
scaled a b h = omega (arith, h)

-- A delivery waits at least a minute and at most 4096 minutes before its next attempt, and no less
-- after more attempts.
retry_delay-bounds :
    (n m : ℕ)
    → n ≤ m
    → (minute ≤ retry_delay n) × (retry_delay n ≤ retry_delay m) × (retry_delay m ≤ 4096 * minute)
unfolding retry_delay capped
retry_delay-bounds n m h =
    let (grows, few) = capped_mono n m h in
    (
      scaled 1 (2 ^ capped n) (power_pos (capped n)),
      scaled (2 ^ capped n) (2 ^ capped m) (power_mono (capped n) (capped m) grows),
      scaled (2 ^ capped m) 4096 (power_mono (capped m) 12 few),
    )

-- After an attempt is recorded, the delivery that it was leased for is no longer leased; its state is
-- "delivered" exactly where the status is a 2xx and there was no error, "pending" exactly where the
-- attempt failed, the status is not a 4xx other than 408 and 429, and at most 8 attempts came before,
-- and otherwise "dead_letter"; and it is due again after the delay of that number of attempts, which is
-- at least one minute and at most 4096 minutes.
pub finish_attempt-IsSettled :
    (env : Env) (now : String) (at : ℕ) (w : WebhookRow) (attempt : String) (r : Reply) (db : Db)
    → (x : WebhookRow) → Memᴰ x (finish_attempt env now at w attempt r db).webhook_deliveries
    → is_attempt w.id attempt x ≡ true
    → IsSettled w.attempts r x.state
      × (x.lease_until ≡ none)
      × (x.next_at ≡ env.format (at + retry_delay w.attempts))
      × (minute ≤ retry_delay w.attempts)
      × (retry_delay w.attempts ≤ 4096 * minute)
unfolding finish_attempt
finish_attempt-IsSettled env now at w attempt r db x m mine =
    let change = λ (y : WebhookRow). record y {
      state = settled_state w.attempts r;
      last_status = some r.status;
      last_error = detail_of r;
      next_at = env.format (at + retry_delay w.attempts);
      lease_until = none;
      updated_at = now;
    } in
    let (least_delay, _, most) = retry_delay-bounds w.attempts w.attempts (omega arith) in
    let (y, _, e) = mem-update_where (is_attempt w.id attempt) change db.webhook_deliveries x m in
    elim (Bool-cases (is_attempt w.id attempt y)) [
      | inl t ↦
          let changed : x ≡ change y = rw t at e in
          (
            subst (λ (z : WebhookRow). IsSettled w.attempts r z.state) (sym changed)
                (settled_state-IsSettled w.attempts r),
            ap (λ (z : WebhookRow). z.lease_until) changed,
            ap (λ (z : WebhookRow). z.next_at) changed,
            least_delay,
            most,
          )
      | inr f ↦
          let kept : x ≡ y = rw f at e in
          let other : is_attempt w.id attempt x ≡ false = ap (is_attempt w.id attempt) kept ∙ f in
          cc
    ]
