-- ===== src/Revocation/Unwritable.antt =====
-- getCrl of lib/agent/crl_validator/crl_fetcher.ts where the cache directory cannot be written.
use snowflake_connector_node.Prelude.{
  ◌+◌, Bool, text_set, if◌then◌else◌, String, true, false, ◌≡◌, refl, Option, none, some, ◌∙◌, ap,
}
use snowflake_connector_node.Revocation.Certificates.{Crl}
use snowflake_connector_node.Revocation.Fetcher.{
  Crls, World, CrlOptions, get_crl_from_memory, get_crl_from_disk, unexpired, write_crl_to_disk,
  saved, save_crl, after_download, no_longer_pending, finish_fetch, fetch, or_fetch, from_disk,
  or_from_disk, from_memory, start_cleaner, by_pending, get_crl,
}

after_download-unwritable :
    (w : World) (o : CrlOptions) (url : String) (answer : Option Crl) (s : Crls)
    → w.writable ≡ false
    → o.on_disk_cache ≡ true
    → (after_download w o url answer s).found ≡ none
unfolding after_download save_crl saved write_crl_to_disk
after_download-unwritable w o url none s h k = refl
after_download-unwritable w o url (some c) s h k = rw (k, h) refl

fetch-unwritable :
    (w : World) (o : CrlOptions) (url : String) (s : Crls)
    → w.writable ≡ false
    → o.on_disk_cache ≡ true
    → (fetch w o url s).found ≡ none
unfolding fetch finish_fetch no_longer_pending
fetch-unwritable w o url s h k =
    let d = w.download url in
    after_download-unwritable w o url d.answer
      (record s { pending = text_set url o s.pending; now = s.now + d.took }) h k

nothing_on_disk :
    (w : World) (b : Bool) (url : String) (s : Crls)
    → s.disk url ≡ none
    → (if b then get_crl_from_disk w url s else none) ≡ none
unfolding get_crl_from_disk
nothing_on_disk w true url s e = rw (get_crl_from_disk, e) refl
nothing_on_disk w false url s e = refl

from_disk-unwritable :
    (w : World) (o : CrlOptions) (url : String) (s : Crls)
    → w.writable ≡ false
    → o.on_disk_cache ≡ true
    → s.disk url ≡ none
    → (from_disk w o url s).found ≡ none
unfolding from_disk or_fetch
from_disk-unwritable w o url s h k e =
    ap (λ found. (or_fetch w o url found s).found) (nothing_on_disk w o.on_disk_cache url s e)
    ∙ fetch-unwritable w o url s h k

nothing_in_memory :
    (b : Bool) (url : String) (s : Crls)
    → s.memory url ≡ none
    → (if b then get_crl_from_memory url s else record { found = none; crls = s })
      ≡ record { found = none; crls = s }
unfolding get_crl_from_memory unexpired
nothing_in_memory true url s e = rw (get_crl_from_memory, e, unexpired) refl
nothing_in_memory false url s e = refl

-- Where lists are kept on disk but the cache directory cannot be written, getCrl gives no list of a
-- URL that is not pending, in memory or on disk, whatever the download answers.
pub get_crl-unwritable :
    (w : World) (o : CrlOptions) (url : String) (s : Crls)
    → w.writable ≡ false
    → o.on_disk_cache ≡ true
    → s.pending url ≡ none
    → s.memory url ≡ none
    → s.disk url ≡ none
    → (get_crl w o url s).found ≡ none
unfolding get_crl by_pending start_cleaner from_memory or_from_disk
get_crl-unwritable w o url s h k p m e =
    let t : Crls = record s { crl_cache_cleaner_created = true } in
    ap (λ x. (by_pending w o url x t).found) p
    ∙ ap (λ g. (or_from_disk w o url g).found) (nothing_in_memory o.in_memory_cache url t m)
    ∙ from_disk-unwritable w o url t h k e
