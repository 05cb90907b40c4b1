-- ===== src/FileTransfer/Uploads/Named.antt =====
-- The uploads of lib/file_transfer_agent/remote_storage_util.js leave which file it is as it is.
use snowflake_connector_node.Prelude.{
  ℕ, zero, suc, refl, Bool, true, false, ◌&&◌, Option, none, some, String, if◌then◌else◌, ◌∙◌,
}
use snowflake_connector_node.FileTransfer.Metadata.{
  ResultStatus, uploaded, renew_token, renew_presigned_url, need_retry,
  need_retry_with_lower_concurrency, RemoteError, Result, ok, throws, EncryptionMetadata,
  FileHeader, FileMeta, Reply, StorageUtil, SameFile, KeepsFile,
}
use snowflake_connector_node.FileTransfer.Uploads.{
  Run, is_some, is_uploaded, is_not_found, default_max_retry, sleep_before, lower_concurrency, Next,
  after_round, after_upload, Upload, after_header, after_verify, Answers, upload_rounds,
  upload_encrypted, Encrypt, data_file_of, upload_one_file, verify_rounds, verified,
  upload_one_file_with_retry,
}

pub SameFile-trans : (a b c : FileMeta) → SameFile a b → SameFile b c → SameFile a c
SameFile-trans a b c h k = (k.0 ∙ h.0, k.1 ∙ h.1)

pub if-SameFile :
    (m : FileMeta) (b : Bool) (x y : Run)
    → SameFile m x.meta
    → SameFile m y.meta
    → SameFile m (if b then x else y).meta
if-SameFile m true x y h k = h
if-SameFile m false x y h k = k

-- A continuation that keeps the file that it is given.
abbrev GoesOn : Next → Type 0
GoesOn next =
    (m : FileMeta) (conc : ℕ) (last : Option RemoteError) → SameFile m (next m conc last).meta

sleep-SameFile :
    (m m' : FileMeta) (retry : ℕ) (r : Run)
    → SameFile m r.meta
    → SameFile m (sleep_before m' retry r).meta
unfolding sleep_before
sleep-SameFile m m' retry r h = if-SameFile m m'.no_sleeping_time r _ h h

module _ (retry conc : ℕ) (last : Option RemoteError) (next : Next) (go : GoesOn next) where
  after_round-SameFile :
      (m : FileMeta) (s : Option ResultStatus)
      → SameFile m (after_round retry conc last next m s).meta
  unfolding after_round lower_concurrency
  after_round-SameFile m (some uploaded) = (refl, refl)
  after_round-SameFile m (some renew_token) = (refl, refl)
  after_round-SameFile m (some renew_presigned_url) = (refl, refl)
  after_round-SameFile m (some need_retry) =
      sleep-SameFile m m retry (next m conc m.last_error) (go m conc m.last_error)
  after_round-SameFile m (some need_retry_with_lower_concurrency) =
      let lower = lower_concurrency m.parallel retry in
      let m' = record m { last_max_concurrency = some lower } in
      sleep-SameFile m m' retry (next m' lower m.last_error) (go m' lower m.last_error)
  after_round-SameFile m _ = go m conc last

  after_upload-SameFile :
      (r : Reply (Unit {0})) → SameFile r.1 (after_upload retry conc last next r).meta
  unfolding after_upload
  after_upload-SameFile (throws e, m) = (refl, refl)
  after_upload-SameFile (ok _, m) = after_round-SameFile m m.result_status

  after_header-SameFile :
      {U : Type 0} (upload : Upload U) (a : U)
      → ((m : FileMeta) → SameFile m (upload a m conc).1)
      → (r : Reply (Option FileHeader))
      → SameFile r.1 (after_header upload a retry conc last next r).meta
  unfolding after_header
  after_header-SameFile upload a keeps (throws e, m) = (refl, refl)
  after_header-SameFile upload a keeps (ok h, m) =
      let u = after_upload retry conc last next (upload a m conc) in
      let r = after_round retry conc last next m m.result_status in
      if-SameFile m (is_some h && is_uploaded m.result_status) _
        (if is_not_found m.result_status then u else r) (refl, refl)
        (if-SameFile m (is_not_found m.result_status) u r
          (SameFile-trans m (upload a m conc).1 u.meta (keeps m)
            (after_upload-SameFile (upload a m conc)))
          (after_round-SameFile m m.result_status))

module _ {H U D : Type 0} (util : StorageUtil H U D) (law : KeepsFile util)
    (answers : Answers H U) where
  rounds-SameFile :
      (upload : Upload U) (text : String)
      → ((a : U) (m : FileMeta) (conc : ℕ) → SameFile m (upload a m conc).1)
      → (n retry : ℕ) → GoesOn (upload_rounds util answers upload text n retry)
  unfolding upload_rounds
  rounds-SameFile upload text keeps zero retry m conc none = (refl, refl)
  rounds-SameFile upload text keeps zero retry m conc (some x) = (refl, refl)
  rounds-SameFile upload text keeps (suc n) retry m conc last =
      let go = rounds-SameFile upload text keeps n (suc retry) in
      let next = upload_rounds util answers upload text n (suc retry) in
      let a = answers.upload retry in
      let reply = util.get_file_header (answers.header retry) m m.dst_file_name in
      let u = after_upload retry conc last next (upload a m conc) in
      let h = after_header upload a retry conc last next reply in
      if-SameFile m m.overwrite u h
        (SameFile-trans m (upload a m conc).1 u.meta (keeps a m conc)
          (after_upload-SameFile retry conc last next go (upload a m conc)))
        (SameFile-trans m reply.1 h.meta (law.header (answers.header retry) m m.dst_file_name)
          (after_header-SameFile retry conc last next go upload a (λ m'. keeps a m' conc) reply))

  encrypted-SameFile :
      (r : Result (Option EncryptionMetadata × String)) (m : FileMeta)
      → SameFile m (upload_encrypted util answers r m).meta
  encrypted-SameFile (throws x) m = (refl, refl)
  encrypted-SameFile (ok (metadata, data_file)) m =
      rounds-SameFile (λ a m' conc. util.upload_file a m' data_file metadata conc) data_file
        (λ a m' conc. law.upload a m' data_file metadata conc) default_max_retry 0 m m.parallel none

  after_verify-SameFile :
      (next : FileMeta → Run)
      → ((m : FileMeta) → SameFile m (next m).meta)
      → (r : Reply (Option FileHeader)) → SameFile r.1 (after_verify next r).meta
  unfolding after_verify
  after_verify-SameFile next go (throws e, m) = (refl, refl)
  after_verify-SameFile next go (ok h, m) =
      if-SameFile m (is_not_found m.result_status) _ _ (go m) (refl, refl)

  verify-SameFile : (n k : ℕ) (m : FileMeta) → SameFile m (verify_rounds util answers n k m).meta
  unfolding verify_rounds
  verify-SameFile zero k m = (refl, refl)
  verify-SameFile (suc n) k m =
      let next = verify_rounds util answers n (suc k) in
      let reply = util.get_file_header (answers.verify k) m m.dst_file_name in
      SameFile-trans m reply.1 (after_verify next reply).meta
        (law.header (answers.verify k) m m.dst_file_name)
        (after_verify-SameFile next (verify-SameFile n (suc k)) reply)

  verified-SameFile :
      (m : FileMeta) (res : Result (Unit {0})) (r : Run)
      → SameFile m r.meta
      → SameFile m (verified (verify_rounds util answers 10 0) res r).meta
  verified-SameFile m (throws e) r h = h
  verified-SameFile m (ok _) r h =
      if-SameFile m (is_uploaded r.meta.result_status) _ r
        (SameFile-trans m r.meta (verify_rounds util answers 10 0 r.meta).meta h
          (verify-SameFile 10 0 r.meta))
        h

  pub with_retry-SameFile :
      (encrypt : Encrypt) (m : FileMeta)
      → SameFile m (upload_one_file_with_retry util answers encrypt m).meta
  unfolding upload_one_file_with_retry upload_one_file
  with_retry-SameFile encrypt m =
      let r = upload_one_file util answers encrypt m in
      verified-SameFile m r.result r
        (encrypted-SameFile (data_file_of encrypt m.real_src_file_path m.encryption_material) m)
