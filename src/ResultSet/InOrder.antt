-- ===== src/ResultSet/InOrder.antt =====
-- What a reader of lib/connection/result/result_stream.js sees.
use snowflake_connector_node.Prelude.{
  ℕ, zero, suc, ◌+◌, ◌-◌, ◌<◌, ◌≤◌, ◌≡◌, ◌∷◌, Bool, true, false, leb, min, refl, ap, subst, arith,
  Bool-cases, inl, inr, ◌∙◌,
}
use snowflake_connector_node.ResultSet.Stream.{
  Stream, new_stream, put, do_load, on_load_complete, fire, complete_load, Reachable, begins, reads,
  ends_load,
}
use snowflake_connector_node.ResultSet.Delivery.{
  delivered, countdown, Reachable-IsSteady, put-own, load_chunks-own,
}

fire-sizes :
    (k : ℕ) (failed : Bool) (i : ℕ) (s : Stream)
    → ((fire k failed i s).chunks ≡ s.chunks)
      × ((fire k failed i s).prefetch_size ≡ s.prefetch_size)
unfolding fire on_load_complete
fire-sizes zero failed i s = (refl, refl)
fire-sizes (suc k) true i s = fire-sizes k true i (on_load_complete true i s)
fire-sizes (suc k) false i s = fire-sizes k false i (on_load_complete false i s)

-- A stream keeps its array of chunks and its prefetch size.
Reachable-sizes : {n p : ℕ} {s : Stream} → Reachable n p s → (s.chunks ≡ n) × (s.prefetch_size ≡ p)
unfolding new_stream do_load complete_load
Reachable-sizes begins = (refl, refl)
Reachable-sizes (reads {s} r h) = ground (arith, Reachable-sizes r)
Reachable-sizes (ends_load failed i {s} r h) =
    let same = fire-sizes (s.listeners i) failed i (record s { loading = put i false s.loading }) in
    let (chunks, size) = Reachable-sizes r in (same.0 ∙ chunks, same.1 ∙ size)

-- In whatever order the loads end or fail, the chunks delivered so far are the first ones of the
-- stream, each once and in order, as many as the current chunk's place says, and no more than there
-- are.
pub delivered-Reachable :
    {n p : ℕ} {s : Stream}
    → Reachable n p s
    → (delivered s.emitted ≡ countdown s.curr_chunk) × (s.curr_chunk ≤ n)
delivered-Reachable {n} {p} {s} r =
    let w = Reachable-IsSteady r in (w.in_order, omega (arith, w.within, Reachable-sizes r))

-- A chunk that is loading is one of the stream's, at most the prefetch size behind the current one.
pub loading-Reachable :
    {n p : ℕ} {s : Stream} (i : ℕ)
    → Reachable n p s
    → s.loading i ≡ true
    → (i ≤ s.curr_chunk + p) × (i < n)
loading-Reachable {n} {p} {s} i r h =
    let w = Reachable-IsSteady r in
    let (near, within) = w.ahead i h in
    (omega (arith, near, Reachable-sizes r), omega (arith, within, Reachable-sizes r))

one_heard :
    (s : Stream)
    → s.listeners s.curr_chunk ≡ 1
    → delivered s.emitted ≡ countdown s.curr_chunk
    → delivered (complete_load false s.curr_chunk s).emitted ≡ countdown (suc s.curr_chunk)
unfolding complete_load fire on_load_complete delivered countdown
one_heard s h e = rw h (ap (◌∷◌ s.curr_chunk) e)

reading :
    (s : Stream)
    → s.curr_chunk < s.chunks
    → ((do_load s).loading s.curr_chunk ≡ true)
      × ((do_load s).listeners s.curr_chunk ≡ suc (s.listeners s.curr_chunk))
      × ((do_load s).curr_chunk ≡ s.curr_chunk)
unfolding do_load
reading s h = elim (Bool-cases (leb s.chunks s.curr_chunk)) [
  | inl e ↦ ground arith
  | inr e ↦ rw e (
    load_chunks-own (min (s.chunks - s.curr_chunk) (suc s.prefetch_size)) s.curr_chunk s.loading
        (ground arith),
    put-own s.curr_chunk (suc (s.listeners s.curr_chunk)) s.listeners,
    refl,
  )
]

-- A read of a stream with chunks left that waits for none has the current chunk loading, and the
-- end of that load delivers it.
pub read-delivers :
    {n p : ℕ} {s : Stream}
    → Reachable n p s
    → s.curr_chunk < n
    → s.listeners s.curr_chunk ≡ 0
    → ((do_load s).loading s.curr_chunk ≡ true)
      × (delivered (complete_load false s.curr_chunk (do_load s)).emitted
          ≡ countdown (suc s.curr_chunk))
read-delivers {n} {p} {s} r h q =
    let (loads, heard, same) = reading s (omega (arith, h, Reachable-sizes r)) in
    let w = Reachable-IsSteady (reads r q) in
    (
      loads,
      subst (λ c. delivered (complete_load false c (do_load s)).emitted ≡ countdown (suc c)) same
          (one_heard (do_load s) (ap (do_load s).listeners same ∙ heard ∙ ap suc q) w.in_order),
    )
