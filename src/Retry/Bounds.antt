-- ===== src/Retry/Bounds.antt =====
-- How often and how long the retries of lib/util.ts and lib/services/large_result_set.js go on.
use snowflake_connector_node.Prelude.{
  ℕ, zero, suc, ◌+◌, ◌*◌, ◌/◌, ◌≤◌, ◌<◌, ◌≡◌, ◌⊎◌, refl, min, max, true, false, some, List, [], ◌∷◌,
  ◌++◌, All, length, arith, ap, ◌∙◌, inl, inr,
}
use snowflake_connector_node.Prelude.Int.{ℤ, pos, ◌≤ℤ◌, ◌+ℤ◌, ◌-ℤ◌}
use snowflake_connector_node.Retry.{
  next_sleep_time, distance, get_jittered_sleep_time, validate_heartbeat_frequency,
}
use snowflake_connector_node.Retry.LargeResultSet.{
  Answer, Delivery, body, Progress, Settings, Run, Reaction, deliver, retry_after, is_failure,
  is_retryable, on_answer, one_more, requests_from, get_object,
}

-- The next sleep lies between the base and three times the previous one, in either order, except
-- that the cap bounds it; whatever part of the distance is drawn.
pub next_sleep_time_bounds :
    (random : ℕ → ℕ) (base cap previous : ℕ)
    → ((d : ℕ) → random d ≤ d)
    → (min cap (min base (previous * 3)) ≤ next_sleep_time random base cap previous)
      × (next_sleep_time random base cap previous ≤ min cap (max base (previous * 3)))
unfolding next_sleep_time
next_sleep_time_bounds random base cap previous h =
    (omega arith, omega (arith, h (distance (previous * 3) base)))

-- Under a timeout the total of the sleeps never passes it, and a sleep is never longer than drawn;
-- the total grows by the sleep.
pub jittered_bounds :
    (next total : ℤ) (limit : ℕ)
    → 0 < limit
    → ((get_jittered_sleep_time next total limit).total_elapsed_time ≤ℤ pos limit)
      × ((get_jittered_sleep_time next total limit).sleep ≤ℤ next)
      × ((get_jittered_sleep_time next total limit).total_elapsed_time
          ≡ total +ℤ (get_jittered_sleep_time next total limit).sleep)
unfolding get_jittered_sleep_time ◌+ℤ◌ ◌-ℤ◌
jittered_bounds next total limit h = (ground arith, ground arith, refl)

-- The heartbeat frequency is the input moved into the range from a sixteenth to a quarter of the
-- master token's validity (rounded down in two steps), and a second call does not change it.
pub heartbeat_bounds :
    (input validity : ℕ)
    → (validate_heartbeat_frequency input validity
        ≡ max (validity / 4 / 4) (min input (validity / 4)))
      × (validate_heartbeat_frequency input validity ≤ validity / 4)
      × (validate_heartbeat_frequency (validate_heartbeat_frequency input validity) validity
          ≡ validate_heartbeat_frequency input validity)
unfolding validate_heartbeat_frequency
heartbeat_bounds input validity = (ground arith, ground arith, ground arith)

-- An answer that is tried again.
abbrev pub TriesAgain : Answer → Type 0
TriesAgain a = (is_failure a ≡ true) × (is_retryable a ≡ true)

-- Where the loop stands after a number of retries.
later :
    (cfg : Settings) (p : Progress) (a : Answer) (rest : List Answer)
    → TriesAgain a
    → p.num_retries < cfg.max_num_retries
    → (q : Progress) × (q.num_retries ≡ suc p.num_retries)
      × (requests_from cfg p (a ∷ rest) ≡ one_more (requests_from cfg q rest))
unfolding requests_from
later cfg p a rest t h = (
  record {
    num_retries = suc p.num_retries;
    sleep = next_sleep_time cfg.random 1 cfg.max_sleep_time p.sleep;
  },
  refl,
  ground (arith, t),
)

succeeds :
    (cfg : Settings) (p : Progress) (before : List Answer) (a : Answer) (rest : List Answer)
    → All TriesAgain before
    → p.num_retries + length before ≤ cfg.max_num_retries
    → is_failure a ≡ false
    → requests_from cfg p (before ++ a ∷ rest)
      ≡ record { requests = suc (length before); delivery = some (body a.body) }
succeeds cfg p [] a rest t h ok = unfold requests_from in ground (arith, ok)
succeeds cfg p (b ∷ before) a rest t h ok =
    let (q, n, e) = later cfg p b (before ++ a ∷ rest) t.0 (omega arith) in
    e ∙ ap one_more (succeeds cfg q before a rest t.1 (omega arith) ok) ∙ unfold one_more in refl

-- A download that fails with errors that can be retried, at most as often as retries are allowed,
-- and then succeeds, delivers the body of the success, with one request more than it had failures.
pub get_object-succeeds :
    (cfg : Settings) (before : List Answer) (a : Answer) (rest : List Answer)
    → All TriesAgain before
    → length before ≤ cfg.max_num_retries
    → is_failure a ≡ false
    → get_object cfg (before ++ a ∷ rest)
      ≡ record { requests = suc (length before); delivery = some (body a.body) }
unfolding get_object
get_object-succeeds cfg before a rest t h ok =
    succeeds cfg (record { num_retries = 0; sleep = 1 }) before a rest t (omega arith) ok

-- Something was delivered, and within the number of requests.
abbrev pub EndsWithin : ℕ → Run → Type 0
EndsWithin n r = (d : Delivery) × (r.delivery ≡ some d) × (r.requests ≤ n)

Reaction-cases :
    (r : Reaction) → ((d : Delivery) × (r ≡ deliver d)) ⊎ ((q : Progress) × (r ≡ retry_after q))
Reaction-cases (deliver d) = inl (d, refl)
Reaction-cases (retry_after q) = inr (q, refl)

counted :
    (cfg : Settings) (p q : Progress) (a : Answer)
    → on_answer cfg p a ≡ retry_after q
    → (p.num_retries < cfg.max_num_retries) × (q.num_retries ≡ suc p.num_retries)
unfolding on_answer
counted cfg p q a h = ground arith

one_more-EndsWithin : (n : ℕ) (r : Run) → EndsWithin n r → EndsWithin (suc n) (one_more r)
unfolding one_more
one_more-EndsWithin n r (d, e, h) = (d, e, omega arith)

ends :
    (cfg : Settings) (p : Progress) (left : ℕ) (answers : List Answer)
    → p.num_retries + left ≡ cfg.max_num_retries
    → left < length answers
    → EndsWithin (suc left) (requests_from cfg p answers)
unfolding requests_from
ends cfg p left [] h k = absurd (omega arith)
ends cfg p zero (a ∷ rest) h k = elim (Reaction-cases (on_answer cfg p a)) [
  | inl (d, e) ↦ rw (e, requests_from) (d, refl, omega arith)
  | inr (q, e) ↦ absurd (omega (arith, counted cfg p q a e))
]
ends cfg p (suc left) (a ∷ rest) h k = elim (Reaction-cases (on_answer cfg p a)) [
  | inl (d, e) ↦ rw (e, requests_from) (d, refl, omega arith)
  | inr (q, e) ↦
      rw (e, requests_from)
        (one_more-EndsWithin (suc left) (requests_from cfg q rest)
          (ends cfg q left rest (omega (arith, counted cfg p q a e)) (omega arith)))
]

-- Whatever the answers, a download ends: with no more requests than one and the retries allowed,
-- something is delivered.
pub get_object-ends :
    (cfg : Settings) (answers : List Answer)
    → cfg.max_num_retries < length answers
    → EndsWithin (suc cfg.max_num_retries) (get_object cfg answers)
unfolding get_object
get_object-ends cfg answers h =
    ends cfg (record { num_retries = 0; sleep = 1 }) cfg.max_num_retries answers (omega arith) h
