-- ===== src/Revocation/Known.antt =====
-- Where the lists that getCrl of lib/agent/crl_validator/crl_fetcher.ts gives come from, and that
-- those of the caches are not expired.
use snowflake_connector_node.Prelude.{
  ◌+◌, ◌≤◌, Bool, true, false, if◌then◌else◌, some-injective, ◌<◌, String, ◌⊎◌, inl, inr, ◌≡◌, ◌∙◌,
  refl, ap, subst, Option, none, some, min, arith, Bool-cases, Option-cases, text_set,
  text_set-cases, text_delete, text_delete-cases, ltb, ltb→lt,
}
use snowflake_connector_node.Revocation.Certificates.{Crl}
use snowflake_connector_node.Revocation.Fetcher.{
  Crls, World, CrlOptions, CachedEntry, CrlFile, Got, get_crl_from_memory, set_crl_in_memory,
  get_crl_from_disk, write_crl_to_disk, saved, save_crl, after_download, no_longer_pending,
  or_fetch, or_from_disk, unexpired, by_pending, finish_fetch, fetch, from_disk, from_memory,
  start_cleaner, get_crl,
}

-- A list of a URL that is in memory, on disk or what the download gives.
abbrev pub IsKnown : World → Crls → String → Crl → Type 0
IsKnown w s url c =
    ((e : CachedEntry) × (s.memory url ≡ some e) × (e.crl ≡ c))
    ⊎ (((f : CrlFile) × (s.disk url ≡ some f) × (f.content ≡ some c))
        ⊎ ((w.download url).answer ≡ some c))

-- No entry of the memory outlives its list.
abbrev pub IsFresh : Crls → Type 0
IsFresh s =
    (url : String) (e : CachedEntry) → s.memory url ≡ some e → e.expire_at ≤ e.crl.next_update

-- A state after another: nothing else is known, and no time is lost.
abbrev pub IsLater : World → Crls → Crls → Type 0
IsLater w s t =
    ((url : String) (c : Crl) → IsKnown w t url c → IsKnown w s url c)
    × (s.now ≤ t.now)
    × (IsFresh s → IsFresh t)

-- What a call gives is known, and it is not expired unless it was downloaded.
abbrev pub IsSourced : World → String → Crls → Got → Type 0
IsSourced w url s g =
    (c : Crl)
    → g.found ≡ some c
    → IsKnown w s url c
      × (IsFresh s → (g.crls.now < c.next_update) ⊎ ((w.download url).answer ≡ some c))

abbrev IsGrounded : World → String → Crls → Got → Type 0
IsGrounded w url s g = IsLater w s g.crls × IsSourced w url s g

pub IsLater-refl : (w : World) (s : Crls) → IsLater w s s
IsLater-refl w s = (λ url c h. h, omega arith, λ h. h)

pub IsLater-trans : (w : World) (s t u : Crls) → IsLater w s t → IsLater w t u → IsLater w s u
IsLater-trans w s t u (k, n, f) (k', n', f') =
    (λ url c h. k url c (k' url c h), omega (arith, n, n'), λ h. f' (f h))

set_crl_in_memory-IsLater :
    (w : World) (url : String) (c : Crl) (s : Crls)
    → IsKnown w s url c
    → IsLater w s (set_crl_in_memory w url c s)
unfolding set_crl_in_memory
set_crl_in_memory-IsLater w url c s known =
    let new : CachedEntry = record {
      expire_at = min (s.now + w.validity) c.next_update;
      crl = c;
    } in
    (
      λ v d h. elim h [
        | inl (e, m, k) ↦ elim (text_set-cases url new s.memory v m) [
          | inl (p, q) ↦
              subst (λ x. IsKnown w s v x) (ap (λ y. y.crl) q ∙ k)
                (subst (λ x. IsKnown w s x c) p known)
          | inr m' ↦ inl (e, m', k)
        ]
        | inr k ↦ inr k
      ],
      omega arith,
      λ fresh v e m. elim (text_set-cases url new s.memory v m) [
        | inl (p, q) ↦ subst (λ x. x.expire_at ≤ x.crl.next_update) q (omega arith)
        | inr m' ↦ fresh v e m'
      ],
    )

in_memory-IsLater :
    (w : World) (b : Bool) (url : String) (c : Crl) (s : Crls)
    → IsKnown w s url c
    → IsLater w s (if b then set_crl_in_memory w url c s else s)
in_memory-IsLater w true url c s known = set_crl_in_memory-IsLater w url c s known
in_memory-IsLater w false url c s known = IsLater-refl w s

abbrev on_disk : String → Crl → Crls → Crls
on_disk url c s = record s {
  disk = text_set url (record { mtime = s.now; content = some c }) s.disk;
}

on_disk-IsLater :
    (w : World) (url : String) (c : Crl) (s : Crls)
    → IsKnown w s url c
    → IsLater w s (on_disk url c s)
on_disk-IsLater w url c s known =
    let new : CrlFile = record { mtime = s.now; content = some c } in
    (
      λ v d h. elim h [
        | inl m ↦ inl m
        | inr (inr k) ↦ inr (inr k)
        | inr (inl (f, m, k)) ↦ elim (text_set-cases url new s.disk v m) [
          | inl (p, q) ↦
              subst (λ x. IsKnown w s v x) (some-injective c d (ap (λ y. y.content) q ∙ k))
                (subst (λ x. IsKnown w s x c) p known)
          | inr m' ↦ inr (inl (f, m', k))
        ]
      ],
      omega arith,
      λ fresh v e m. fresh v e m,
    )

saved-IsLater :
    (w : World) (on_disk_cache : Bool) (url : String) (c : Crl) (s : Crls)
    → IsKnown w s url c
    → IsLater w s (saved w on_disk_cache url c s).crls
unfolding saved write_crl_to_disk
saved-IsLater w false url c s known = IsLater-refl w s
saved-IsLater w true url c s known = elim (Bool-cases w.writable) [
  | inl e ↦ rw e (on_disk-IsLater w url c s known)
  | inr e ↦ rw e (IsLater-refl w s)
]

saved-found :
    (w : World) (on_disk_cache : Bool) (url : String) (c d : Crl) (s : Crls)
    → (saved w on_disk_cache url c s).found ≡ some d
    → c ≡ d
unfolding saved write_crl_to_disk
saved-found w false url c d s h = some-injective c d h
saved-found w true url c d s h = elim (Bool-cases w.writable) [
  | inl e ↦ some-injective c d (grind (arith, h, e))
  | inr e ↦ absurd (grind (arith, h, e))
]

-- A list that was downloaded.
save_crl-IsGrounded :
    (w : World) (o : CrlOptions) (url : String) (c : Crl) (s : Crls)
    → (w.download url).answer ≡ some c
    → IsGrounded w url s (save_crl w o url c s)
unfolding save_crl
save_crl-IsGrounded w o url c s h =
    let t = if o.in_memory_cache then set_crl_in_memory w url c s else s in
    (
      IsLater-trans w s t (saved w o.on_disk_cache url c t).crls
          (in_memory-IsLater w o.in_memory_cache url c s (inr (inr h)))
          (saved-IsLater w o.on_disk_cache url c t (inr (inr h))),
      λ d f.
          let k = h ∙ ap some (saved-found w o.on_disk_cache url c d t f) in
          (inr (inr k), λ _. inr k),
    )

after_download-IsGrounded :
    (w : World) (o : CrlOptions) (url : String) (answer : Option Crl) (s : Crls)
    → (w.download url).answer ≡ answer
    → IsGrounded w url s (after_download w o url answer s)
unfolding after_download
after_download-IsGrounded w o url none s h = (IsLater-refl w s, λ c f. absurd (grind (arith, f)))
after_download-IsGrounded w o url (some c) s h = save_crl-IsGrounded w o url c s h

finish_fetch-IsGrounded :
    (w : World) (o : CrlOptions) (url : String) (s : Crls)
    → IsGrounded w url s (finish_fetch w o url s)
unfolding finish_fetch no_longer_pending
finish_fetch-IsGrounded w o url s =
    let d = w.download url in
    let ((k, n, f), sourced) =
      after_download-IsGrounded w o url d.answer (record s { now = s.now + d.took }) refl in
    ((k, omega (arith, n), f), sourced)

-- What the disk gives.
disk-IsKnown :
    (w : World) (url : String) (c : Crl) (s : Crls)
    → get_crl_from_disk w url s ≡ some c
    → IsKnown w s url c × (s.now < c.next_update)
unfolding get_crl_from_disk
disk-IsKnown w url c s h = elim (Option-cases (s.disk url)) [
  | inl e ↦ absurd (grind (arith, h, e))
  | inr (f, e) ↦ elim (Option-cases f.content) [
    | inl k ↦ absurd (grind (arith, h, e, k))
    | inr (d, k) ↦
        let same : d ≡ c = grind (arith, h, e, k) in
        let lt : s.now < d.next_update = grind (arith, h, e, k) in
        (inr (inl (f, e, k ∙ ap some same)), subst (λ x. s.now < x.next_update) same lt)
  ]
]

in_memory-now :
    (w : World) (b : Bool) (url : String) (c : Crl) (s : Crls)
    → (if b then set_crl_in_memory w url c s else s).now ≡ s.now
unfolding set_crl_in_memory
in_memory-now w true url c s = refl
in_memory-now w false url c s = refl

or_fetch-IsGrounded :
    (w : World) (o : CrlOptions) (url : String) (found : Option Crl) (s : Crls)
    → ((c : Crl) → found ≡ some c → IsKnown w s url c × (s.now < c.next_update))
    → IsGrounded w url s (or_fetch w o url found s)
unfolding or_fetch fetch
or_fetch-IsGrounded w o url none s h =
    finish_fetch-IsGrounded w o url (record s { pending = text_set url o s.pending })
or_fetch-IsGrounded w o url (some c) s h =
    let (known, lt) = h c refl in
    (
      in_memory-IsLater w o.in_memory_cache url c s known,
      λ d f.
          let e = some-injective c d f in
          (
            subst (λ x. IsKnown w s url x) e known,
            λ _. inl (
                rw (in_memory-now w o.in_memory_cache url c s)
                  (subst (λ x. s.now < x.next_update) e lt)),
          ),
    )

cached-IsKnown :
    (w : World) (b : Bool) (url : String) (c : Crl) (s : Crls)
    → (if b then get_crl_from_disk w url s else none) ≡ some c
    → IsKnown w s url c × (s.now < c.next_update)
cached-IsKnown w true url c s h = disk-IsKnown w url c s h
cached-IsKnown w false url c s h = absurd (grind (arith, h))

from_disk-IsGrounded :
    (w : World) (o : CrlOptions) (url : String) (s : Crls)
    → IsGrounded w url s (from_disk w o url s)
unfolding from_disk
from_disk-IsGrounded w o url s =
    or_fetch-IsGrounded w o url (if o.on_disk_cache then get_crl_from_disk w url s else none) s
      (λ c h. cached-IsKnown w o.on_disk_cache url c s h)

-- A list that is in memory, or none; the state is the one after that lookup.
or_from_disk-IsGrounded :
    (w : World) (o : CrlOptions) (url : String) (s : Crls) (found : Option Crl) (t : Crls)
    → IsGrounded w url s (record { found = found; crls = t })
    → IsGrounded w url s (or_from_disk w o url (record { found = found; crls = t }))
unfolding or_from_disk
or_from_disk-IsGrounded w o url s (some c) t h = h
or_from_disk-IsGrounded w o url s none t (later, sourced) =
    let (further, given) = from_disk-IsGrounded w o url t in
    let (back, n, fresh) = later in
    (
      IsLater-trans w s t (from_disk w o url t).crls later further,
      λ c f. let (known, time) = given c f in (back url c known, λ h. time (fresh h)),
    )

forgotten-IsLater :
    (w : World) (url : String) (s : Crls)
    → IsLater w s (record s { memory = text_delete url s.memory })
forgotten-IsLater w url s = (
  λ v c h. elim h [
    | inl (e, m, k) ↦ inl (e, text_delete-cases url s.memory v m, k)
    | inr k ↦ inr k
  ],
  omega arith,
  λ fresh v e m. fresh v e (text_delete-cases url s.memory v m),
)

-- An entry that has not expired is given, and another one is dropped.
unexpired-IsGrounded :
    (w : World) (url : String) (found : Option CachedEntry) (s : Crls)
    → s.memory url ≡ found
    → IsGrounded w url s (unexpired url found s)
unfolding unexpired
unexpired-IsGrounded w url none s h = (IsLater-refl w s, λ c f. absurd (grind (arith, f)))
unexpired-IsGrounded w url (some x) s h = elim (Bool-cases (ltb s.now x.expire_at)) [
  | inl e ↦
      let lt = ltb→lt s.now x.expire_at e in
      rw e (
        IsLater-refl w s,
        λ c f.
            let k = some-injective x.crl c f in
            (
              inl (x, h, k),
              λ fresh.
                  inl (subst (λ y. s.now < y.next_update) k (omega (arith, lt, fresh url x h))),
            ),
      )
  | inr e ↦ rw e (forgotten-IsLater w url s, λ c f. absurd (grind (arith, f)))
]

looked_up-IsGrounded :
    (w : World) (b : Bool) (url : String) (s : Crls)
    → IsGrounded w url s
        (if b then get_crl_from_memory url s else record { found = none; crls = s })
unfolding get_crl_from_memory
looked_up-IsGrounded w true url s = unexpired-IsGrounded w url (s.memory url) s refl
looked_up-IsGrounded w false url s = (IsLater-refl w s, λ c f. absurd (grind (arith, f)))

by_pending-IsGrounded :
    (w : World) (o : CrlOptions) (url : String) (p : Option CrlOptions) (s : Crls)
    → IsGrounded w url s (by_pending w o url p s)
unfolding by_pending from_memory
by_pending-IsGrounded w o url (some o') s = finish_fetch-IsGrounded w o' url s
by_pending-IsGrounded w o url none s =
    let g =
      if o.in_memory_cache then get_crl_from_memory url s else record { found = none; crls = s } in
    or_from_disk-IsGrounded w o url s g.found g.crls
      (looked_up-IsGrounded w o.in_memory_cache url s)

-- A call of getCrl loses no time, adds no list but a downloaded one to those that are known of any
-- URL, and keeps a memory without entries that outlive their lists; what it gives is a list of the
-- URL that was in memory or on disk or is downloaded, and, with such a memory, one that is not
-- downloaded has its next update after the time at which it is given.
pub get_crl-IsGrounded :
    (w : World) (o : CrlOptions) (url : String) (s : Crls)
    → IsLater w s (get_crl w o url s).crls × IsSourced w url s (get_crl w o url s)
unfolding get_crl start_cleaner
get_crl-IsGrounded w o url s =
    by_pending-IsGrounded w o url (s.pending url) (record s { crl_cache_cleaner_created = true })
