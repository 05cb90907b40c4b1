-- ===== src/Connection/Polling.antt =====
-- How getResultsFromQueryId of lib/connection/connection.js waits and ends.
use snowflake_connector_node.Prelude.{
  ℕ, zero, suc, ◌+◌, ◌<◌, ◌≤◌, true, false, List, [], ◌∷◌, ◌++◌, length, All, append-nil, ◌≡◌, refl,
  ap, ◌∙◌, arith, min, Bool-cases, inl, inr, if◌then◌else◌,
}
use snowflake_connector_node.Connection.{
  QueryStatus, is_still_running, is_an_error, QueryResponse, extract_query_status, status,
  get_query_status_throw_if_error, Outcome, throws_failed, throws_no_data, async_no_data_max_retry,
  timeout, next_pos, async_retry_in_milliseconds, async_retry_pattern, verdict, is_no_data, waited,
  poll, get_results_from_query_id,
}

abbrev pub IsRunning : QueryResponse → Type 0
IsRunning r = is_still_running (extract_query_status r) ≡ true

-- How many responses have the status NO_DATA.
unfoldable pub count_no_data : List QueryResponse → ℕ
count_no_data [] = 0
count_no_data (r ∷ rs) = (if is_no_data (extract_query_status r) then 1 else 0) + count_no_data rs

-- The first waits from a place of the pattern on.
unfoldable pub timeouts : ℕ → ℕ → List ℕ
timeouts pos zero = []
timeouts pos (suc n) = timeout pos ∷ timeouts (next_pos pos) n

-- The wait after some earlier ones, in milliseconds: 0.5, 0.5, 1, 1.5, 2 and 4 seconds, and then
-- always 5.
unfoldable pub nth_wait : ℕ → ℕ
nth_wait zero = 500
nth_wait (suc zero) = 500
nth_wait (suc (suc zero)) = 1000
nth_wait (suc (suc (suc zero))) = 1500
nth_wait (suc (suc (suc (suc zero)))) = 2000
nth_wait (suc (suc (suc (suc (suc zero))))) = 4000
nth_wait _ = 5000

-- So many waits, the earlier ones being counted.
unfoldable pub waits_from : ℕ → ℕ → List ℕ
waits_from k zero = []
waits_from k (suc n) = nth_wait k ∷ waits_from (suc k) n

timeout-nth : (k : ℕ) → timeout (min k 6) ≡ nth_wait k
unfolding timeout nth_wait async_retry_in_milliseconds async_retry_pattern
timeout-nth zero = refl
timeout-nth (suc zero) = refl
timeout-nth (suc (suc zero)) = refl
timeout-nth (suc (suc (suc zero))) = refl
timeout-nth (suc (suc (suc (suc zero)))) = refl
timeout-nth (suc (suc (suc (suc (suc zero))))) = refl
timeout-nth (suc (suc (suc (suc (suc (suc k)))))) =
    let last : min (suc (suc (suc (suc (suc (suc k)))))) 6 ≡ 6 = omega arith in rw last refl

next_pos-min : (k : ℕ) → next_pos (min k 6) ≡ min (suc k) 6
unfolding next_pos async_retry_pattern
next_pos-min k = ground arith

timeouts-waits : (k n : ℕ) → timeouts (min k 6) n ≡ waits_from k n
unfolding timeouts waits_from
timeouts-waits k zero = refl
timeouts-waits k (suc n) =
    rw (timeout-nth k, next_pos-min k) (ap (◌∷◌ (nth_wait k)) (timeouts-waits (suc k) n))

-- The place in the pattern after some waits.
unfoldable pub after : ℕ → ℕ → ℕ
after pos zero = pos
after pos (suc n) = after (next_pos pos) n

-- How a query with this status, which is not running, ends.
unfoldable pub final : QueryStatus → Outcome
unfolding is_an_error verdict
final s = if is_an_error s then throws_failed s else verdict s

running_status :
    (r : QueryResponse)
    → IsRunning r
    → get_query_status_throw_if_error r ≡ status (extract_query_status r)
unfolding get_query_status_throw_if_error is_an_error is_still_running
running_status r h = ground arith

poll-final :
    (counter pos : ℕ) (r : QueryResponse) (rs : List QueryResponse)
    → is_still_running (extract_query_status r) ≡ false
    → poll counter pos (r ∷ rs) ≡ record { waits = []; outcome = final (extract_query_status r) }
unfolding poll final get_query_status_throw_if_error
poll-final counter pos r rs h = ground (arith, h)

abbrev counted : ℕ → QueryResponse → ℕ
counted counter r = if is_no_data (extract_query_status r) then suc counter else counter

poll-running :
    (counter pos : ℕ) (r : QueryResponse) (rs : List QueryResponse)
    → IsRunning r
    → counted counter r ≤ 24
    → poll counter pos (r ∷ rs) ≡ waited (timeout pos) (poll (counted counter r) (next_pos pos) rs)
unfolding poll async_no_data_max_retry
poll-running counter pos r rs h k = elim (Bool-cases (is_no_data (extract_query_status r))) [
  | inl e ↦ rw (running_status r h, poll, h, e) (ground (arith, e, k))
  | inr e ↦ rw (running_status r h, poll, h, e) refl
]

poll-over :
    (counter pos : ℕ) (r : QueryResponse) (rs : List QueryResponse)
    → is_no_data (extract_query_status r) ≡ true
    → 24 < suc counter
    → poll counter pos (r ∷ rs)
      ≡ record { waits = timeout pos ∷ []; outcome = throws_no_data (extract_query_status r) }
unfolding poll async_no_data_max_retry is_still_running is_no_data get_query_status_throw_if_error
    is_an_error
poll-over counter pos r rs e k = ground (arith, e, k)

poll-All :
    (counter pos : ℕ) (before rest : List QueryResponse)
    → All IsRunning before
    → counter + count_no_data before ≤ 24
    → (poll counter pos (before ++ rest) ≡ record {
      waits =
          timeouts pos (length before)
          ++ (poll (counter + count_no_data before) (after pos (length before)) rest).waits;
      outcome = (poll (counter + count_no_data before) (after pos (length before)) rest).outcome;
    })
unfolding count_no_data timeouts after
poll-All counter pos [] rest h k = ap (λ c. poll c pos rest) (omega arith)
poll-All counter pos (r ∷ before) rest (h, hs) k =
    let next = poll-All (counted counter r) (next_pos pos) before rest hs (ground (arith, k)) in
    let same : counted counter r + count_no_data before ≡ counter + count_no_data (r ∷ before) =
      unfold count_no_data in ground arith in
    poll-running counter pos r (before ++ rest) h (ground (arith, k))
    ∙ ap (waited (timeout pos)) next
    ∙ ap
        (λ c. record {
          waits =
              timeout pos ∷ timeouts (next_pos pos) (length before)
              ++ (poll c (after (next_pos pos) (length before)) rest).waits;
          outcome = (poll c (after (next_pos pos) (length before)) rest).outcome;
        })
        same

-- While the status is a running one, with no more than 24 times no data, the wait goes on by the
-- pattern 0.5, 0.5, 1, 1.5, 2, 4 and then always 5 seconds; the first status that is not a running
-- one ends it without another wait: the result is fetched if the status is a success, and else the
-- error of the status is thrown.
pub get_results-final :
    (before : List QueryResponse) (last : QueryResponse) (rest : List QueryResponse)
    → All IsRunning before
    → count_no_data before ≤ 24
    → is_still_running (extract_query_status last) ≡ false
    → get_results_from_query_id (before ++ last ∷ rest)
      ≡ record { waits = waits_from 0 (length before); outcome = final (extract_query_status last) }
unfolding get_results_from_query_id
get_results-final before last rest h k f =
    poll-All 0 0 before (last ∷ rest) h (omega (arith, k))
    ∙ rw (poll-final (0 + count_no_data before) (after 0 (length before)) last rest f) (
        ap (λ ws. record { waits = ws; outcome = final (extract_query_status last) })
          (append-nil (timeouts 0 (length before)) ∙ timeouts-waits 0 (length before)))

-- After 24 times no data among running statuses, the next time no data throws.
pub get_results-no_data :
    (before : List QueryResponse) (last : QueryResponse) (rest : List QueryResponse)
    → All IsRunning before
    → count_no_data before ≡ 24
    → is_no_data (extract_query_status last) ≡ true
    → (get_results_from_query_id (before ++ last ∷ rest)).outcome
      ≡ throws_no_data (extract_query_status last)
unfolding get_results_from_query_id
get_results-no_data before last rest h k f =
    ap (λ p. p.outcome) (poll-All 0 0 before (last ∷ rest) h (omega (arith, k)))
    ∙ ap (λ p. p.outcome)
        (poll-over (0 + count_no_data before) (after 0 (length before)) last rest f
          (omega (arith, k)))
