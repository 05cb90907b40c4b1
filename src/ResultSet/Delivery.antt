-- ===== src/ResultSet/Delivery.antt =====
-- The result stream of lib/connection/result/result_stream.js delivers the chunks in order and
-- loads no more than the prefetch size ahead.
use snowflake_connector_node.Prelude.{
  ℕ, zero, suc, ◌+◌, ◌-◌, ◌<◌, ◌≤◌, ◌≡◌, ◌≢◌, ◌⊎◌, List, [], ◌∷◌, Bool, true, false, ◌==◌, leb, min,
  refl, ap, arith, Bool-cases, inl, inr, sym, ◌∙◌,
}
use snowflake_connector_node.ResultSet.Stream.{
  Emission, data_event, close_event, close_with_error, Stream, new_stream, put, load_chunk,
  load_chunks, do_load, on_load_complete, fire, complete_load, Reachable, begins, reads, ends_load,
}

-- The chunks that were delivered, the latest first.
unfoldable pub delivered : List Emission → List ℕ
delivered [] = []
delivered (data_event i ∷ es) = i ∷ delivered es
delivered (close_event ∷ es) = delivered es
delivered (close_with_error ∷ es) = delivered es

-- n - 1, …, 1, 0
unfoldable pub countdown : ℕ → List ℕ
countdown zero = []
countdown (suc n) = n ∷ countdown n

pub record IsSteady (s : Stream) : Type 0 where
  pub one_listener : s.listeners s.curr_chunk ≤ 1
  pub no_others : (i : ℕ) → i ≢ s.curr_chunk → s.listeners i ≡ 0
  pub awaited :
      s.listeners s.curr_chunk ≡ 1 → (s.loading s.curr_chunk ≡ true) × (s.curr_chunk < s.chunks)
  pub ahead : (i : ℕ) → s.loading i ≡ true → (i ≤ s.curr_chunk + s.prefetch_size) × (i < s.chunks)
  pub within : s.curr_chunk ≤ s.chunks
  pub in_order : delivered s.emitted ≡ countdown s.curr_chunk

new_stream-IsSteady : (n p : ℕ) → IsSteady (new_stream n p)
unfolding new_stream delivered countdown
new_stream-IsSteady n p = record {
  one_listener = omega arith;
  no_others = λ i h. refl;
  awaited = λ h. ground arith;
  ahead = λ i h. ground arith;
  within = omega arith;
  in_order = refl;
}

load_chunk-own : (i : ℕ) (loading : ℕ → Bool) → load_chunk i loading i ≡ true
unfolding load_chunk put
load_chunk-own i loading = elim (Bool-cases (loading i)) [
  | inl e ↦ rw e e
  | inr e ↦ rw e (ground arith)
]

load_chunk-other : (i j : ℕ) (loading : ℕ → Bool) → i ≢ j → load_chunk i loading j ≡ loading j
unfolding load_chunk put
load_chunk-other i j loading h = elim (Bool-cases (loading i)) [
  | inl e ↦ rw e refl
  | inr e ↦ rw e (ground arith)
]

-- Chunks stay in loading.
load_chunk-keeps : (i j : ℕ) (loading : ℕ → Bool) → loading j ≡ true → load_chunk i loading j ≡ true
load_chunk-keeps i j loading h = elim (Bool-cases (i == j)) [
  | inl e ↦ ground (arith, load_chunk-own i loading)
  | inr e ↦ ground (arith, load_chunk-other i j loading)
]

load_chunks-keeps :
    (count i j : ℕ) (loading : ℕ → Bool) → loading j ≡ true → load_chunks count i loading j ≡ true
unfolding load_chunks
load_chunks-keeps zero i j loading h = h
load_chunks-keeps (suc count) i j loading h =
    load_chunks-keeps count (suc i) j (load_chunk i loading) (load_chunk-keeps i j loading h)

-- What is loading after the loop was so before, or is in its range.
load_chunks-new :
    (count i j : ℕ) (loading : ℕ → Bool)
    → load_chunks count i loading j ≡ true
    → (loading j ≡ true) ⊎ ((i ≤ j) × (j < i + count))
unfolding load_chunks
load_chunks-new zero i j loading h = inl h
load_chunks-new (suc count) i j loading h =
    elim (load_chunks-new count (suc i) j (load_chunk i loading) h) [
      | inl k ↦ elim (Bool-cases (i == j)) [
        | inl e ↦ inr (ground arith)
        | inr e ↦ inl (ground (arith, load_chunk-other i j loading, k))
      ]
      | inr k ↦ inr (ground (arith, k))
    ]

pub load_chunks-own :
    (count i : ℕ) (loading : ℕ → Bool) → 0 < count → load_chunks count i loading i ≡ true
unfolding load_chunks
load_chunks-own zero i loading h = ground arith
load_chunks-own (suc count) i loading h =
    load_chunks-keeps count (suc i) i (load_chunk i loading) (load_chunk-own i loading)

pub put-own {ℓ} : {A : Type ℓ} (i : ℕ) (x : A) (f : ℕ → A) → put i x f i ≡ x
unfolding put
put-own i x f = ground arith

pub put-other {ℓ} : {A : Type ℓ} (i j : ℕ) (x : A) (f : ℕ → A) → i ≢ j → put i x f j ≡ f j
unfolding put
put-other i j x f h = ground arith

-- A chunk that is still loading when another has ended is as near as it was.
still_ahead :
    (s : Stream) (w : IsSteady s) (i j : ℕ)
    → put i false s.loading j ≡ true
    → (j ≤ s.curr_chunk + s.prefetch_size) × (j < s.chunks)
still_ahead s w i j h = elim (Bool-cases (i == j)) [
  | inl e ↦ ground (arith, put-own j false s.loading)
  | inr e ↦ w.ahead j (ground (arith, put-other i j false s.loading))
]

-- Once its only listener is gone, no chunk has one.
ended :
    (s : Stream) (w : IsSteady s)
    → s.listeners s.curr_chunk ≡ 1
    → (i : ℕ) → put s.curr_chunk (s.listeners s.curr_chunk - 1) s.listeners i ≡ 0
ended s w h i = elim (Bool-cases (s.curr_chunk == i)) [
  | inl e ↦ ground (arith, put-own s.curr_chunk (s.listeners s.curr_chunk - 1) s.listeners)
  | inr e ↦
      ground
        (arith, put-other s.curr_chunk i (s.listeners s.curr_chunk - 1) s.listeners, w.no_others i)
]

sole_listener :
    (s : Stream) {i : ℕ} → s.listeners i ≡ 0 → s.listeners s.curr_chunk ≡ 1 → i ≢ s.curr_chunk
sole_listener s h k = ground (arith, h, k)

heard :
    (i : ℕ) (s : Stream)
    → IsSteady s
    → (s.listeners i ≡ 0) ⊎ ((s.listeners i ≡ 1) × (i ≡ s.curr_chunk))
heard i s w = elim (Bool-cases (i == s.curr_chunk)) [
  | inl e ↦ ground (arith, w.one_listener)
  | inr e ↦ inl (w.no_others i (ground arith))
]

do_load-IsSteady : (s : Stream) → IsSteady s → s.listeners s.curr_chunk ≡ 0 → IsSteady (do_load s)
unfolding do_load delivered
do_load-IsSteady s w h = elim (Bool-cases (leb s.chunks s.curr_chunk)) [
  | inl e ↦ rw e (record {
    one_listener = w.one_listener;
    no_others = w.no_others;
    awaited = w.awaited;
    ahead = w.ahead;
    within = w.within;
    in_order = w.in_order;
  })
  | inr e ↦
      let count = min (s.chunks - s.curr_chunk) (suc s.prefetch_size) in
      rw e (record {
        one_listener =
            omega (arith, h, put-own s.curr_chunk (suc (s.listeners s.curr_chunk)) s.listeners);
        no_others = λ i n.
            put-other s.curr_chunk i (suc (s.listeners s.curr_chunk)) s.listeners (λ k. n (sym k))
            ∙ w.no_others i n;
        awaited = λ k. (load_chunks-own count s.curr_chunk s.loading (ground arith), ground arith);
        ahead = λ i k. ground (arith, load_chunks-new count s.curr_chunk i s.loading k, w.ahead i);
        within = w.within;
        in_order = w.in_order;
      })
]

-- The load of the chunk that the stream waits for ends.
on_load_complete-IsSteady :
    (failed : Bool) (s : Stream)
    → IsSteady s
    → s.listeners s.curr_chunk ≡ 1
    → IsSteady (
        on_load_complete failed s.curr_chunk
          (record s { loading = put s.curr_chunk false s.loading }))
unfolding on_load_complete delivered countdown
on_load_complete-IsSteady true s w h = record {
  one_listener = omega (arith, h, put-own s.curr_chunk (s.listeners s.curr_chunk - 1) s.listeners);
  no_others = λ i n.
      put-other s.curr_chunk i (s.listeners s.curr_chunk - 1) s.listeners (λ k. n (sym k))
      ∙ w.no_others i n;
  awaited =
      λ k. ground (arith, h, k, put-own s.curr_chunk (s.listeners s.curr_chunk - 1) s.listeners);
  ahead = λ i k. still_ahead s w s.curr_chunk i k;
  within = w.within;
  in_order = w.in_order;
}
on_load_complete-IsSteady false s w h =
    let next = suc s.curr_chunk in
    let here = s.listeners s.curr_chunk - 1 in
    let none_next =
      put-other s.curr_chunk next here s.listeners (ground arith)
      ∙ w.no_others next (ground arith) in
    record {
      one_listener = omega (arith, none_next);
      no_others = λ i n. ended s w h i;
      awaited = λ k. ground (arith, k, none_next);
      ahead = λ i k. ground (arith, still_ahead s w s.curr_chunk i k);
      within = ground (arith, w.awaited h);
      in_order = ap (◌∷◌ s.curr_chunk) w.in_order;
    }

unheard-IsSteady :
    (i : ℕ) (s : Stream)
    → IsSteady s
    → s.listeners i ≡ 0
    → IsSteady (record s { loading = put i false s.loading })
unheard-IsSteady i s w h = record {
  one_listener = w.one_listener;
  no_others = w.no_others;
  awaited = λ k. (
    put-other i s.curr_chunk false s.loading (sole_listener s h k) ∙ (w.awaited k).0,
    (w.awaited k).1,
  );
  ahead = λ j k. still_ahead s w i j k;
  within = w.within;
  in_order = w.in_order;
}

complete_load-IsSteady :
    (failed : Bool) (i : ℕ) (s : Stream) → IsSteady s → IsSteady (complete_load failed i s)
unfolding complete_load fire
complete_load-IsSteady failed i s w = elim (heard i s w) [
  | inl h ↦ rw h (unheard-IsSteady i s w h)
  | inr (h, e) ↦ rw (h, e) (on_load_complete-IsSteady failed s w (ap s.listeners (sym e) ∙ h))
]

pub Reachable-IsSteady : {n p : ℕ} {s : Stream} → Reachable n p s → IsSteady s
Reachable-IsSteady {n} {p} begins = new_stream-IsSteady n p
Reachable-IsSteady (reads {s} r h) = do_load-IsSteady s (Reachable-IsSteady r) h
Reachable-IsSteady (ends_load failed i {s} r h) =
    complete_load-IsSteady failed i s (Reachable-IsSteady r)
