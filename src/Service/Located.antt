-- ===== src/Service/Located.antt =====
-- Where a call stands in the service of lib/services/sf.js: in the queue, in flight,
-- answered, or dropped by a login callback that threw.
use snowflake_connector_node.Prelude.{
  ℕ, zero, suc, ◌+◌, List, [], ◌∷◌, ◌++◌, ◌≡◌, ◌==◌, if◌then◌else◌, arith, some, get_elem?,
}
use snowflake_connector_node.Service.State.{
  Operation, request_op, destroy_op, Message, login, retry_timer, reauthentication, session_request,
  delete_session, renew, Reply, Service, send, reply, enqueue,
}
use snowflake_connector_node.Service.Login.{reject}
use snowflake_connector_node.Service.Network.{
  Event, connects, requests, destroys, answered, remove_at,
}

-- 1 where the call is `k`, else 0.
unfoldable pub hit : ℕ → ℕ → ℕ
hit k call = if k == call then 1 else 0

unfoldable pub in_operation : ℕ → Operation → ℕ
in_operation k (request_op call) = hit k call
in_operation k (destroy_op call) = hit k call

unfoldable pub in_queue : ℕ → List Operation → ℕ
unfolding in_operation
in_queue k [] = 0
in_queue k (op ∷ ops) = in_operation k op + in_queue k ops

unfoldable pub in_message : ℕ → Message → ℕ
in_message k (login a) = hit k a.call
in_message k (retry_timer a) = hit k a.call
in_message k (reauthentication a) = hit k a.call
in_message k (session_request call) = hit k call
in_message k (delete_session call) = hit k call
in_message k renew = 0

unfoldable pub in_flight : ℕ → List Message → ℕ
in_flight k [] = 0
in_flight k (m ∷ ms) = in_message k m + in_flight k ms

-- How often the callback of `k` was called.
unfoldable pub in_replies : ℕ → List (ℕ × Reply) → ℕ
in_replies k [] = 0
in_replies k ((call, r) ∷ rs) = hit k call + in_replies k rs

unfoldable pub in_rejected : ℕ → List ℕ → ℕ
in_rejected k [] = 0
in_rejected k (call ∷ calls) = hit k call + in_rejected k calls

unfoldable pub located : ℕ → Service → ℕ
located k s =
    in_queue k s.queue + in_flight k s.waiting + in_replies k s.replies + in_rejected k s.rejected

-- How often an event, or a list of them, makes the call `k`.
unfoldable pub submits : ℕ → Event → ℕ
submits k (connects call) = hit k call
submits k (requests call) = hit k call
submits k (destroys call) = hit k call
submits k (answered i r) = 0

unfoldable pub submitted : ℕ → List Event → ℕ
submitted k [] = 0
submitted k (e ∷ es) = submits k e + submitted k es

in_queue-append :
    (k : ℕ) (xs ys : List Operation) → in_queue k (xs ++ ys) ≡ in_queue k xs + in_queue k ys
unfolding in_queue
in_queue-append k [] ys = omega arith
in_queue-append k (x ∷ xs) ys = omega (arith, in_queue-append k xs ys)

in_flight-append :
    (k : ℕ) (xs ys : List Message) → in_flight k (xs ++ ys) ≡ in_flight k xs + in_flight k ys
unfolding in_flight
in_flight-append k [] ys = omega arith
in_flight-append k (x ∷ xs) ys = omega (arith, in_flight-append k xs ys)

pub in_replies-append :
    (k : ℕ) (xs ys : List (ℕ × Reply)) → in_replies k (xs ++ ys) ≡ in_replies k xs + in_replies k ys
unfolding in_replies
in_replies-append k [] ys = omega arith
in_replies-append k (x ∷ xs) ys = omega (arith, in_replies-append k xs ys)

in_rejected-append :
    (k : ℕ) (xs ys : List ℕ) → in_rejected k (xs ++ ys) ≡ in_rejected k xs + in_rejected k ys
unfolding in_rejected
in_rejected-append k [] ys = omega arith
in_rejected-append k (x ∷ xs) ys = omega (arith, in_rejected-append k xs ys)

-- A message that is answered leaves those in flight.
pub in_flight-remove_at :
    (k i : ℕ) (ms : List Message) {m : Message}
    → get_elem? ms i ≡ some m
    → in_flight k (remove_at i ms) + in_message k m ≡ in_flight k ms
unfolding in_flight remove_at
in_flight-remove_at k i [] h = ground arith
in_flight-remove_at k zero (x ∷ ms) h = grind arith
in_flight-remove_at k (suc i) (x ∷ ms) h = omega (arith, in_flight-remove_at k i ms h)

pub located-send :
    (k : ℕ) (m : Message) (s : Service) → located k (send m s) ≡ located k s + in_message k m
unfolding located send in_flight
located-send k m s = omega (arith, in_flight-append k s.waiting (m ∷ []))

pub located-reply :
    (k call : ℕ) (r : Reply) (s : Service) → located k (reply call r s) ≡ located k s + hit k call
unfolding located reply in_replies
located-reply k call r s = omega (arith, in_replies-append k s.replies ((call, r) ∷ []))

pub located-reject :
    (k call : ℕ) (s : Service) → located k (reject call s) ≡ located k s + hit k call
unfolding located reject in_rejected
located-reject k call s = omega (arith, in_rejected-append k s.rejected (call ∷ []))

pub located-enqueue :
    (k : ℕ) (op : Operation) (s : Service)
    → located k (enqueue op s) ≡ located k s + in_operation k op
unfolding located enqueue in_queue
located-enqueue k op s = omega (arith, in_queue-append k s.queue (op ∷ []))
