-- ===== src/ResultSet/Stream.antt =====
-- lib/connection/result/result_stream.js, with Chunk.load and Chunk.isLoading of chunk.js: chunks are
-- loaded ahead, and delivered in order. A chunk is its place in the stream's array.
use snowflake_connector_node.Prelude.{
  ℕ, zero, suc, ◌-◌, ◌≡◌, List, [], ◌∷◌, Bool, true, false, ◌==◌, leb, min, if◌then◌else◌,
}

-- The events 'data' and 'close' of the stream.
pub data Emission : Type 0 where
  data_event : ℕ → Emission
  close_event close_with_error : Emission

-- `listeners` counts the listeners of a chunk's 'loadcomplete'; `loading` is _isLoading. The latest
-- emission stands first.
pub record Stream : Type 0 where
  pub chunks : ℕ
  pub prefetch_size : ℕ
  pub curr_chunk : ℕ
  pub listeners : ℕ → ℕ
  pub loading : ℕ → Bool
  pub emitted : List Emission

unfoldable pub new_stream : ℕ → ℕ → Stream
new_stream chunks prefetch_size = record {
  chunks = chunks;
  prefetch_size = prefetch_size;
  curr_chunk = 0;
  listeners = λ i. 0;
  loading = λ i. false;
  emitted = [];
}

unfoldable pub put {ℓ} : {A : Type ℓ} → ℕ → A → (ℕ → A) → ℕ → A
put i x f j = if i == j then x else f j

-- The chunk is loaded, unless that is under way.
unfoldable pub load_chunk : ℕ → (ℕ → Bool) → ℕ → Bool
unfolding put
load_chunk i loading = if loading i then loading else put i true loading

-- The loop of doLoad, over `count` chunks from `i` on.
unfoldable pub load_chunks : ℕ → ℕ → (ℕ → Bool) → ℕ → Bool
unfolding load_chunk
load_chunks zero i loading = loading
load_chunks (suc count) i loading = load_chunks count (suc i) (load_chunk i loading)

-- doLoad; `read` and the continuation of a 'close' with an error both are doLoad.
unfoldable pub do_load : Stream → Stream
unfolding load_chunks put
do_load s =
    if leb s.chunks s.curr_chunk then record s { emitted = close_event ∷ s.emitted } else record s {
      listeners = put s.curr_chunk (suc (s.listeners s.curr_chunk)) s.listeners;
      loading =
          load_chunks (min (s.chunks - s.curr_chunk) (suc s.prefetch_size)) s.curr_chunk s.loading;
    }

-- onLoadComplete, by one listener.
unfoldable pub on_load_complete : Bool → ℕ → Stream → Stream
unfolding put
on_load_complete failed i s =
    let t = record s { listeners = put i (s.listeners i - 1) s.listeners } in
    if failed
    then record t { emitted = close_with_error ∷ t.emitted }
    else record t { curr_chunk = suc t.curr_chunk; emitted = data_event i ∷ t.emitted }

unfoldable pub fire : ℕ → Bool → ℕ → Stream → Stream
unfolding on_load_complete
fire zero failed i s = s
fire (suc n) failed i s = fire n failed i (on_load_complete failed i s)

-- completeLoad of a chunk: it is no longer loading, and its listeners are called.
unfoldable pub complete_load : Bool → ℕ → Stream → Stream
unfolding fire put
complete_load failed i s =
    fire (s.listeners i) failed i (record s { loading = put i false s.loading })

-- What can happen to a stream that is read again only after the chunk before was delivered or
-- failed: loads end in any order.
pub data Reachable (n p : ℕ) : Stream → Type 0 where
  begins : Reachable n p (new_stream n p)
  reads : {s : Stream} → Reachable n p s → s.listeners s.curr_chunk ≡ 0 → Reachable n p (do_load s)
  ends_load :
      (failed : Bool) (i : ℕ) {s : Stream}
      → Reachable n p s
      → s.loading i ≡ true
      → Reachable n p (complete_load failed i s)
