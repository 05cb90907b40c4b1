-- ===== src/FileTransfer/Uploads.antt =====
-- uploadOneFile, uploadOneFileStream and uploadOneFileWithRetry of
-- lib/file_transfer_agent/remote_storage_util.js, for any storage utility.
pub mod Reported
pub mod Guarded
pub mod Named
use snowflake_connector_node.Prelude.{
  ℕ, zero, suc, ◌-◌, ◌*◌, ◌/◌, ◌^◌, min, max, Bool, true, false, ◌&&◌, Option, none, some, List, [],
  ◌∷◌, ◌++◌, String, if◌then◌else◌,
}
use snowflake_connector_node.Prelude.Int.{pos}
use snowflake_connector_node.FileTransfer.Metadata.{
  ResultStatus, uploaded, skipped, renew_token, renew_presigned_url, not_found_file, need_retry,
  need_retry_with_lower_concurrency, RemoteError, Failure, of_remote, unknown_error_in_uploading,
  Result, ok, throws, EncryptionMetadata, FileHeader, EncryptionMaterial, FileMeta, Reply,
  StorageUtil,
}

abbrev pub default_max_retry : ℕ
default_max_retry = 5

abbrev pub default_concurrency : ℕ
default_concurrency = 1

-- What is asked of the storage, each with the status that it leaves, and the waits between.
pub data Call : Type 0 where
  header_call : Option ResultStatus → Call
  upload_call : ℕ → Option ResultStatus → Call
  wait_call : ℕ → Call

pub record Run : Type 0 where
  pub result : Result (Unit {0})
  pub meta : FileMeta
  pub calls : List Call

abbrev pub with_call : Call → Run → Run
with_call c r = record r { calls = c ∷ r.calls }

abbrev pub returns : FileMeta → Run
returns m = record { result = ok tt; meta = m; calls = [] }

abbrev pub fails : Failure → FileMeta → Run
fails e m = record { result = throws e; meta = m; calls = [] }

abbrev pub is_uploaded : Option ResultStatus → Bool
is_uploaded (some uploaded) = true
is_uploaded _ = false

abbrev pub is_not_found : Option ResultStatus → Bool
is_not_found (some not_found_file) = true
is_not_found _ = false

abbrev pub is_some {ℓ} : {A : Type ℓ} → Option A → Bool
is_some none = false
is_some (some a) = true

abbrev pub as_skipped : FileMeta → FileMeta
as_skipped m = record m { dst_file_size = some (pos 0); result_status = some skipped }

-- The concurrency after a request that is to be repeated with a lower one.
unfoldable pub lower_concurrency : ℕ → ℕ → ℕ
lower_concurrency parallel retry =
    max default_concurrency (parallel - retry * parallel / default_max_retry)

-- The wait before the next round, if any.
unfoldable pub sleep_before : FileMeta → ℕ → Run → Run
sleep_before m retry r =
    if m.no_sleeping_time then r else with_call (wait_call (min (2 ^ retry) 16)) r

-- The variables of the loop that go on to the next round.
abbrev pub Next : Type 0
Next = FileMeta → ℕ → Option RemoteError → Run

-- The end of a round: what the status asks for.
unfoldable pub after_round :
    ℕ → ℕ → Option RemoteError → Next → FileMeta → Option ResultStatus → Run
unfolding lower_concurrency sleep_before
after_round retry conc last next m (some uploaded) = returns m
after_round retry conc last next m (some renew_token) = returns m
after_round retry conc last next m (some renew_presigned_url) = returns m
after_round retry conc last next m (some need_retry) =
    sleep_before m retry (next m conc m.last_error)
after_round retry conc last next m (some need_retry_with_lower_concurrency) =
    let lower = lower_concurrency m.parallel retry in
    let m' = record m { last_max_concurrency = some lower } in
    sleep_before m' retry (next m' lower m.last_error)
after_round retry conc last next m _ = next m conc last

unfoldable pub after_upload : ℕ → ℕ → Option RemoteError → Next → Reply (Unit {0}) → Run
unfolding after_round
after_upload retry conc last next (throws e, m) =
    with_call (upload_call conc m.result_status) (fails e m)
after_upload retry conc last next (ok _, m) =
    with_call (upload_call conc m.result_status)
      (after_round retry conc last next m m.result_status)

-- An upload with a concurrency, given the answer of the storage.
abbrev pub Upload : Type 0 → Type 0
Upload U = U → FileMeta → ℕ → Reply (Unit {0})

unfoldable pub after_header :
    {U : Type 0}
    → Upload U
    → U
    → ℕ
    → ℕ
    → Option RemoteError
    → Next
    → Reply (Option FileHeader)
    → Run
unfolding after_round after_upload
after_header upload a retry conc last next (throws e, m) =
    with_call (header_call m.result_status) (fails e m)
after_header upload a retry conc last next (ok h, m) = with_call (header_call m.result_status) (
    if is_some h && is_uploaded m.result_status
    then returns (as_skipped m)
    else if is_not_found m.result_status
    then after_upload retry conc last next (upload a m conc)
    else after_round retry conc last next m m.result_status)

-- A look whether a file that was uploaded has arrived: if it was not found, on after a second.
unfoldable pub after_verify : (FileMeta → Run) → Reply (Option FileHeader) → Run
after_verify next (throws e, m) = with_call (header_call m.result_status) (fails e m)
after_verify next (ok h, m) =
    with_call (header_call m.result_status)
      (if is_not_found m.result_status then with_call (wait_call 1000) (next m) else returns m)

abbrev pub append_calls : List Call → Run → Run
append_calls cs r = record r { calls = cs ++ r.calls }

-- After an upload: a file that was uploaded is looked for. The loop over x ends in its first round.
abbrev pub verified : (FileMeta → Run) → Result (Unit {0}) → Run → Run
verified verify (throws e) r = r
verified verify (ok _) r =
    if is_uploaded r.meta.result_status then append_calls r.calls (verify r.meta) else r

-- encryptFile, if there is encryption material: the metadata and the file to send.
abbrev pub Encrypt : Type 0
Encrypt = EncryptionMaterial → String → Result (Option EncryptionMetadata × String)

unfoldable pub data_file_of :
    Encrypt → String → Option EncryptionMaterial → Result (Option EncryptionMetadata × String)
data_file_of encrypt path (some material) = encrypt material path
data_file_of encrypt path none = ok (none, path)

-- What the storage answers, by the round.
pub record Answers (H U : Type 0) : Type 0 where
  pub header : ℕ → H
  pub upload : ℕ → U
  pub verify : ℕ → H

-- The loop over the retries, with the rounds that are left. The text is for the unknown error.
module _ {H U D : Type 0} (util : StorageUtil H U D) (answers : Answers H U) where
  unfoldable pub upload_rounds : Upload U → String → ℕ → ℕ → Next
  unfolding after_header
  upload_rounds upload text zero retry m conc none = fails (unknown_error_in_uploading text) m
  upload_rounds upload text zero retry m conc (some e) = fails (of_remote e) m
  upload_rounds upload text (suc n) retry m conc last =
      let next = upload_rounds upload text n (suc retry) in
      if m.overwrite
      then after_upload retry conc last next (upload (answers.upload retry) m conc)
      else after_header upload (answers.upload retry) retry conc last next
          (util.get_file_header (answers.header retry) m m.dst_file_name)

  -- With what encryptFile gives, if there is encryption material.
  abbrev pub upload_encrypted : Result (Option EncryptionMetadata × String) → FileMeta → Run
  upload_encrypted (throws e) m = fails e m
  upload_encrypted (ok (metadata, data_file)) m =
      upload_rounds (λ a m' conc. util.upload_file a m' data_file metadata conc) data_file
        default_max_retry 0 m m.parallel none

  unfoldable pub upload_one_file : Encrypt → FileMeta → Run
  unfolding upload_rounds
  upload_one_file encrypt m =
      upload_encrypted (data_file_of encrypt m.real_src_file_path m.encryption_material) m

  -- Up to ten requests for the header of a file that was uploaded, a second apart.
  unfoldable pub verify_rounds : ℕ → ℕ → FileMeta → Run
  verify_rounds zero k m = returns m
  verify_rounds (suc n) k m =
      after_verify (verify_rounds n (suc k))
        (util.get_file_header (answers.verify k) m m.dst_file_name)

  unfoldable pub upload_one_file_with_retry : Encrypt → FileMeta → Run
  unfolding upload_one_file verify_rounds
  upload_one_file_with_retry encrypt m =
      let r = upload_one_file encrypt m in verified (verify_rounds 10 0) r.result r
