-- ===== src/ResultSet/Search.antt =====
-- findFirstOverlappingChunk of lib/connection/result/result.js finds the first chunk of a window.
use mathlib.Core.Bool.{false≢true}
use snowflake_connector_node.Prelude.{
  ℕ, zero, suc, ◌+◌, ◌-◌, ◌/◌, ◌≤◌, ◌<◌, ◌≡◌, inl, inr, Bool, true, false, ◌||◌, Option, none, some,
  List, length, arith, ◌⊎◌, ==_iff, subst, sym, ◌∙◌, if◌then◌else◌, ◌==◌, Bool-cases,
}
use snowflake_connector_node.Prelude.Int.{pos}
use snowflake_connector_node.ResultSet.Chunk.{Chunk}
use snowflake_connector_node.ResultSet.Window.{
  Found, missing, at, search_ends, search, find_first_overlapping_chunk,
}
use snowflake_connector_node.ResultSet.Tiling.{
  IsTiled, first_row, last_row, touches, chunk-At, before_later, overlaps_iff, overlaps_at-touches,
}

le_or : (i m : ℕ) → (i ≤ m) ⊎ (m ≤ i)
le_or i m = omega arith

lt_or : (i m : ℕ) → (i < m) ⊎ (m ≤ i)
lt_or i m = omega arith

module _ {V : Type 0} (s : ℕ) (cs : List (Chunk V)) (t : IsTiled s cs) (a b : ℕ) (w : a ≤ b) where
  abbrev hit : ℕ → Bool
  hit = touches cs a b

  abbrev run : ℕ → ℕ → ℕ → Option Found
  run = search cs (pos a) (pos b)

  abbrev middle : ℕ → ℕ → ℕ
  middle l r = (l + r) / 2

  abbrev is_end : ℕ → ℕ → Bool
  is_end l r = middle l r == l || middle l r == r

  step_ends : (f l r : ℕ) → is_end l r ≡ true → run (suc f) l r ≡ search_ends cs (pos a) (pos b) l r
  unfolding search
  step_ends f l r e = rw e

  module _ (f l r : ℕ) (inner : is_end l r ≡ false) (lr : l ≤ r) (room : r < length cs) where
    step_hit_first :
        hit (middle l r) ≡ true
        → hit (middle l r - 1) ≡ false
        → run (suc f) l r ≡ some (at (middle l r))
    unfolding search
    step_hit_first h k =
        let (c, (e, lo, hi, o)) = chunk-At s cs (middle l r) t (ground arith) in
        ground (
          arith,
          inner,
          overlaps_iff c a b (first_row cs (middle l r)) (last_row cs (middle l r)) w o lo hi,
          overlaps_at-touches s cs a b (middle l r - 1) t w,
        )

    step_hit_again :
        hit (middle l r) ≡ true
        → hit (middle l r - 1) ≡ true
        → run (suc f) l r ≡ run f l (middle l r)
    unfolding search
    step_hit_again h k =
        let (c, (e, lo, hi, o)) = chunk-At s cs (middle l r) t (ground arith) in
        ground (
          arith,
          inner,
          overlaps_iff c a b (first_row cs (middle l r)) (last_row cs (middle l r)) w o lo hi,
          overlaps_at-touches s cs a b (middle l r - 1) t w,
        )

    step_left :
        hit (middle l r) ≡ false
        → a ≤ last_row cs (middle l r)
        → run (suc f) l r ≡ run f l (middle l r)
    unfolding search
    step_left h k =
        let (c, (e, lo, hi, o)) = chunk-At s cs (middle l r) t (ground arith) in
        ground (
          arith,
          inner,
          overlaps_iff c a b (first_row cs (middle l r)) (last_row cs (middle l r)) w o lo hi,
        )

    step_right :
        hit (middle l r) ≡ false
        → last_row cs (middle l r) < a
        → run (suc f) l r ≡ run f (middle l r) r
    unfolding search
    step_right h k =
        let (c, (e, lo, hi, o)) = chunk-At s cs (middle l r) t (ground arith) in
        ground (
          arith,
          inner,
          overlaps_iff c a b (first_row cs (middle l r)) (last_row cs (middle l r)) w o lo hi,
        )

  -- The result of a search between two indices: the first hit, or that there is none.
  abbrev pub FirstHit : ℕ → ℕ → Option Found → Type 0
  FirstHit l r none = ⊥
  FirstHit l r (some missing) = (i : ℕ) → l ≤ i → i ≤ r → hit i ≡ false
  FirstHit l r (some (at i)) =
      (l ≤ i) × (i ≤ r) × (hit i ≡ true) × ((j : ℕ) → l ≤ j → j < i → hit j ≡ false)

  abbrev picked : ℕ → ℕ → Option Found
  picked l r = some (if hit l then at l else if hit r then at r else missing)

  one-picked :
      (l r : ℕ)
      → l ≡ r
      → ◌≡◌ {A = Option Found} (some (if hit l then at l else missing)) (picked l r)
  one-picked l r e =
      subst (λ z. ◌≡◌ {A = Option Found} (some (if hit l then at l else missing)) (picked l z)) e
        (elim (Bool-cases (hit l)) [ inl h ↦ rw h | inr h ↦ rw h ])

  ends-picked : (l r : ℕ) → l ≤ r → r < length cs → search_ends cs (pos a) (pos b) l r ≡ picked l r
  unfolding search_ends
  ends-picked l r lr room = elim (Bool-cases (l == r)) [
    | inl e ↦
        rw (overlaps_at-touches s cs a b l t w (omega arith), e) (one-picked l r ((==_iff l r).0 e))
    | inr n ↦
        rw
          (
            overlaps_at-touches s cs a b l t w (omega arith),
            overlaps_at-touches s cs a b r t w room,
            n,
          )
          (elim (Bool-cases (hit l)) [ inl h ↦ rw h | inr h ↦ rw h ])
  ]

  -- Between two neighbours there is nothing else.
  two : (l r i : ℕ) → r ≤ suc l → l ≤ i → i ≤ r → (i ≡ l) ⊎ (i ≡ r)
  two l r i h k m = omega arith

  only : (l r j : ℕ) → r ≤ suc l → l ≤ j → j < r → l ≡ j
  only l r j near h m = omega arith

  ends-FirstHit :
      (l r : ℕ)
      → l ≤ r
      → r ≤ suc l
      → r < length cs
      → FirstHit l r (search_ends cs (pos a) (pos b) l r)
  ends-FirstHit l r lr near room = rw (ends-picked l r lr room) (elim (Bool-cases (hit l)) [
    | inl e ↦ rw e (omega arith, lr, e, λ j h k. absurd (omega arith))
    | inr e ↦ rw e (elim (Bool-cases (hit r)) [
      | inl k ↦
          rw k (lr, omega arith, k, λ j h m. subst (λ z. hit z ≡ false) (only l r j near h m) e)
      | inr k ↦ rw k (λ j h m. elim (two l r j near h m) [
        | inl q ↦ subst (λ z. hit z ≡ false) (sym q) e
        | inr q ↦ subst (λ z. hit z ≡ false) (sym q) k
      ])
    ])
  ])

  -- No chunk up to `m` reaches the window; or none from `m` on does.
  none_up_to : (m i : ℕ) → m < length cs → last_row cs m < a → i ≤ m → hit i ≡ false
  none_up_to m i room past h =
      ground (arith, before_later s cs i m t, chunk-At s cs m t room, chunk-At s cs i t)

  none_after : (m i : ℕ) → i < length cs → hit m ≡ false → a ≤ last_row cs m → m < i → hit i ≡ false
  none_after m i room miss near h =
      ground (arith, before_later s cs m i t, chunk-At s cs i t, chunk-At s cs m t)

  le_cases : (m i : ℕ) → m ≤ i → (m ≡ i) ⊎ (m < i)
  le_cases m i h = omega arith

  none_from : (m i : ℕ) → i < length cs → hit m ≡ false → a ≤ last_row cs m → m ≤ i → hit i ≡ false
  none_from m i room miss near h = elim (le_cases m i h) [
    | inl e ↦ subst (λ z. hit z ≡ false) e miss
    | inr lt ↦ none_after m i room miss near lt
  ]

  -- A search of the left part serves the whole, if nothing behind it hits or its end hits.
  widen_right :
      (l m r : ℕ) (o : Option Found)
      → l ≤ m
      → m ≤ r
      → ((i : ℕ) → m ≤ i → i ≤ r → hit i ≡ false) ⊎ (hit m ≡ true)
      → FirstHit l m o
      → FirstHit l r o
  widen_right l m r none lm mr why p = p
  widen_right l m r (some missing) lm mr (inr h) p =
      absurd (false≢true (sym (p m lm (omega arith)) ∙ h))
  widen_right l m r (some missing) lm mr (inl h) p =
      λ i li ir. elim (le_or i m) [ inl im ↦ p i li im | inr mi ↦ h i mi ir ]
  widen_right l m r (some (at i)) lm mr why (li, im, h, p) = (li, omega arith, h, p)

  widen_left :
      (l m r : ℕ) (o : Option Found)
      → l ≤ m
      → ((i : ℕ) → l ≤ i → i ≤ m → hit i ≡ false)
      → FirstHit m r o
      → FirstHit l r o
  widen_left l m r none lm h p = p
  widen_left l m r (some missing) lm h p =
      λ i li ir. elim (le_or i m) [ inl im ↦ h i li im | inr mi ↦ p i mi ir ]
  widen_left l m r (some (at i)) lm h (mi, ir, k, p) =
      (omega arith, ir, k, λ j lj ji. elim (le_or j m) [ inl jm ↦ h j lj jm | inr mj ↦ p j mj ji ])

  -- The chunk before the first hit does not reach the window, so none before it does.
  none_before :
      (m i : ℕ) → m < length cs → hit m ≡ true → hit (m - 1) ≡ false → i < m → hit i ≡ false
  none_before m i room h k im =
      none_up_to (m - 1) i (omega arith)
        (ground
          (arith, before_later s cs (m - 1) m t, chunk-At s cs m t room, chunk-At s cs (m - 1) t))
        (omega arith)

  -- `search` with enough fuel finds the first chunk of the window.
  pub search-FirstHit : (f l r : ℕ) → l ≤ r → r < length cs → r - l < f → FirstHit l r (run f l r)
  search-FirstHit zero l r lr room fuel = absurd (omega arith)
  search-FirstHit (suc f) l r lr room fuel = elim (Bool-cases (is_end l r)) [
    | inl e ↦ rw (step_ends f l r e) (ends-FirstHit l r lr (ground arith) room)
    | inr n ↦
        let lm : l < middle l r = ground arith in
        let mr : middle l r < r = ground arith in
        let m : ℕ = middle l r in
        elim (Bool-cases (hit (middle l r))) [
          | inl h ↦ elim (Bool-cases (hit (middle l r - 1))) [
            | inr k ↦
                rw (step_hit_first f l r n lr room h k)
                  (omega arith, omega arith, h, λ j lj jm. none_before m j (omega arith) h k jm)
            | inl k ↦ rw (step_hit_again f l r n lr room h k) (
                widen_right l m r (run f l m) (omega arith) (omega arith) (inr h)
                  (search-FirstHit f l m (omega arith) (omega arith) (omega arith)))
          ]
          | inr h ↦ elim (lt_or (last_row cs (middle l r)) a) [
            | inl past ↦ rw (step_right f l r n lr room h past) (
                widen_left l m r (run f m r) (omega arith)
                  (λ i li im. none_up_to m i (omega arith) past im)
                  (search-FirstHit f m r (omega arith) room (omega arith)))
            | inr near ↦ rw (step_left f l r n lr room h near) (
                widen_right l m r (run f l m) (omega arith) (omega arith)
                  (inl (λ i mi ir. none_from m i (omega arith) h near mi))
                  (search-FirstHit f l m (omega arith) (omega arith) (omega arith)))
          ]
        ]
  ]

  -- On chunks that lie one behind the other, and for a window that is not empty, the search ends
  -- without a fault, at the first chunk that overlaps, or at -1 if and only if there is none.
  pub find_first-FirstHit :
      0 < length cs → FirstHit 0 (length cs - 1) (find_first_overlapping_chunk cs (pos a) (pos b))
  unfolding find_first_overlapping_chunk
  find_first-FirstHit h =
      search-FirstHit (length cs) 0 (length cs - 1) (omega arith) (omega arith) (omega arith)
