-- ===== src/Revocation/Fetcher.antt =====
-- crl_cache.ts and crl_fetcher.ts of lib/agent/crl_validator: revocation lists in memory, on disk and
-- downloaded. The parameters are what the file system and the network do.
use snowflake_connector_node.Prelude.{
  ℕ, ◌+◌, ◌*◌, String, Bool, true, min, Option, none, some, ltb, if◌then◌else◌, TextMap, text_set,
  text_delete,
}
use snowflake_connector_node.Revocation.Certificates.{Crl}

pub record CrlOptions : Type 0 where
  pub in_memory_cache : Bool
  pub on_disk_cache : Bool

pub record CachedEntry : Type 0 where
  pub expire_at : ℕ
  pub crl : Crl

-- A file of the cache directory: the time it was written, and what is read from it, `none` where
-- that fails.
pub record CrlFile : Type 0 where
  pub mtime : ℕ
  pub content : Option Crl

-- CRL_MEMORY_CACHE, PENDING_FETCH_REQUESTS with the options of the request that fetches, the cache
-- directory, whether the timers of the two functions that clear expired lists run, and the time.
pub record Crls : Type 0 where
  pub memory : TextMap CachedEntry
  pub pending : TextMap CrlOptions
  pub disk : TextMap CrlFile
  pub crl_cache_cleaner_created : Bool
  pub now : ℕ

-- The download of a URL: how long it takes, and what is decoded, `none` where that fails.
pub record Download : Type 0 where
  pub took : ℕ
  pub answer : Option Crl

-- `validity` is the option crlCacheValidityTime; `writable` whether the files of the cache can be
-- written.
pub record World : Type 0 where
  pub validity : ℕ
  pub writable : Bool
  pub download : String → Download

-- What a call gives, `none` where it throws or finds nothing, and the state after it.
pub record Got : Type 0 where
  pub found : Option Crl
  pub crls : Crls

-- An entry that has expired is deleted.
unfoldable pub unexpired : String → Option CachedEntry → Crls → Got
unexpired url none s = record { found = none; crls = s }
unexpired url (some e) s =
    if ltb s.now e.expire_at
    then record { found = some e.crl; crls = s }
    else record { found = none; crls = record s { memory = text_delete url s.memory } }

unfoldable pub get_crl_from_memory : String → Crls → Got
unfolding unexpired
get_crl_from_memory url s = unexpired url (s.memory url) s

unfoldable pub set_crl_in_memory : World → String → Crl → Crls → Crls
set_crl_in_memory w url crl s = record s {
  memory =
      text_set url (record { expire_at = min (s.now + w.validity) crl.next_update; crl = crl })
        s.memory;
}

unfoldable pub clear_expired_crl_from_memory_cache : Crls → Crls
clear_expired_crl_from_memory_cache s = record s {
  memory = λ url. elim (s.memory url) [
    | none ↦ none
    | some e ↦ if ltb e.expire_at s.now then none else some e
  ];
}

-- Files that are older than 30 days are removed.
unfoldable pub clear_expired_crl_from_disk_cache : Crls → Crls
clear_expired_crl_from_disk_cache s = record s {
  disk = λ url. elim (s.disk url) [
    | none ↦ none
    | some f ↦ if ltb (f.mtime + 1000 * 60 * 60 * 24 * 30) s.now then none else some f
  ];
}

unfoldable pub get_crl_from_disk : World → String → Crls → Option Crl
get_crl_from_disk w url s = elim (s.disk url) [
  | none ↦ none
  | some f ↦ if ltb (f.mtime + w.validity) s.now then none else elim f.content [
    | none ↦ none
    | some crl ↦ if ltb s.now crl.next_update then some crl else none
  ]
]

-- writeCrlToDisk returns the promise of the write, whose failure it does not catch: `none`.
unfoldable pub write_crl_to_disk : World → String → Crl → Crls → Option Crls
write_crl_to_disk w url crl s =
    if w.writable
    then some
        (record s { disk = text_set url (record { mtime = s.now; content = some crl }) s.disk })
    else none

-- A list that was downloaded is written to disk.
unfoldable pub saved : World → Bool → String → Crl → Crls → Got
unfolding write_crl_to_disk
saved w on_disk_cache url crl s =
    if on_disk_cache
    then elim (write_crl_to_disk w url crl s) [
      | none ↦ record { found = none; crls = s }
      | some t ↦ record { found = some crl; crls = t }
    ]
    else record { found = some crl; crls = s }

-- What follows a download, up to the end of the try.
unfoldable pub save_crl : World → CrlOptions → String → Crl → Crls → Got
unfolding set_crl_in_memory saved
save_crl w o url crl s =
    saved w o.on_disk_cache url crl (if o.in_memory_cache then set_crl_in_memory w url crl s else s)

unfoldable pub no_longer_pending : String → Got → Got
no_longer_pending url g = record g {
  crls = record g.crls { pending = text_delete url g.crls.pending };
}

-- What follows a download, by its answer.
unfoldable pub after_download : World → CrlOptions → String → Option Crl → Crls → Got
unfolding save_crl
after_download w o url none s = record { found = none; crls = s }
after_download w o url (some crl) s = save_crl w o url crl s

-- The promise of a fetch, to its end.
unfoldable pub finish_fetch : World → CrlOptions → String → Crls → Got
unfolding after_download no_longer_pending
finish_fetch w o url s =
    let d = w.download url in
    no_longer_pending url (after_download w o url d.answer (record s { now = s.now + d.took }))

unfoldable pub fetch : World → CrlOptions → String → Crls → Got
unfolding finish_fetch
fetch w o url s = finish_fetch w o url (record s { pending = text_set url o s.pending })

-- A list that is on disk is given, and one that is not is fetched.
unfoldable pub or_fetch : World → CrlOptions → String → Option Crl → Crls → Got
unfolding set_crl_in_memory fetch
or_fetch w o url none s = fetch w o url s
or_fetch w o url (some crl) s = record {
  found = some crl;
  crls = if o.in_memory_cache then set_crl_in_memory w url crl s else s;
}

unfoldable pub from_disk : World → CrlOptions → String → Crls → Got
unfolding get_crl_from_disk or_fetch
from_disk w o url s =
    or_fetch w o url (if o.on_disk_cache then get_crl_from_disk w url s else none) s

-- A list that is in memory is given.
unfoldable pub or_from_disk : World → CrlOptions → String → Got → Got
unfolding from_disk
or_from_disk w o url g = elim g.found [ none ↦ from_disk w o url g.crls | some crl ↦ g ]

unfoldable pub from_memory : World → CrlOptions → String → Crls → Got
unfolding get_crl_from_memory or_from_disk
from_memory w o url s =
    or_from_disk w o url
      (if o.in_memory_cache then get_crl_from_memory url s else record { found = none; crls = s })

unfoldable pub start_cleaner : Crls → Crls
start_cleaner s = record s { crl_cache_cleaner_created = true }

-- A fetch that is pending goes on with the options of the request that began it.
unfoldable pub by_pending : World → CrlOptions → String → Option CrlOptions → Crls → Got
unfolding finish_fetch from_memory
by_pending w o url (some o') s = finish_fetch w o' url s
by_pending w o url none s = from_memory w o url s

unfoldable pub get_crl : World → CrlOptions → String → Crls → Got
unfolding start_cleaner by_pending
get_crl w o url s = let t = start_cleaner s in by_pending w o url (t.pending url) t
