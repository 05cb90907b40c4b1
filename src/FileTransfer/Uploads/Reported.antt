-- ===== src/FileTransfer/Uploads/Reported.antt =====
-- What uploadOneFile of lib/file_transfer_agent/remote_storage_util.js reports of a file, for a
-- storage utility that finds a file only with a header.
use snowflake_connector_node.Prelude.{
  ℕ, zero, suc, ◌≡◌, refl, Bool, true, false, ◌&&◌, ◌^◌, min, Option, none, some, List, [], ◌∷◌,
  String, if◌then◌else◌, ap,
}
use snowflake_connector_node.FileTransfer.Metadata.{
  ResultStatus, uploaded, skipped, renew_token, renew_presigned_url, not_found_file, need_retry,
  need_retry_with_lower_concurrency, RemoteError, Result, ok, throws, EncryptionMetadata,
  FileHeader, FileMeta, Reply, StorageUtil,
}
use snowflake_connector_node.FileTransfer.Uploads.{
  Call, header_call, upload_call, wait_call, Run, with_call, is_some, is_uploaded, is_not_found,
  returns, as_skipped, default_max_retry, sleep_before, lower_concurrency, Next, after_round,
  after_upload, Upload, after_header, Answers, upload_rounds, upload_encrypted, Encrypt,
  data_file_of, upload_one_file,
}

-- The last call satisfies a predicate.
abbrev pub Last : (Call → Type 0) → List Call → Type 0
Last P [] = ⊥
Last P (c ∷ []) = P c
Last P (c ∷ d ∷ cs) = Last P (d ∷ cs)

abbrev pub IsUpload : Call → Type 0
IsUpload (upload_call conc (some uploaded)) = Unit
IsUpload _ = ⊥

abbrev pub IsFound : Call → Type 0
IsFound (header_call (some uploaded)) = Unit
IsFound _ = ⊥

-- A run that returns leaves one of four statuses: an upload that succeeded last, a file that was
-- found last, or a renewal.
abbrev pub ReportedAs : Result (Unit {0}) → Option ResultStatus → List Call → Type 0
ReportedAs (throws e) s cs = Unit
ReportedAs (ok _) (some uploaded) cs = Last IsUpload cs
ReportedAs (ok _) (some skipped) cs = Last IsFound cs
ReportedAs (ok _) (some renew_token) cs = Unit
ReportedAs (ok _) (some renew_presigned_url) cs = Unit
ReportedAs (ok _) _ cs = ⊥

abbrev pub IsReported : Run → Type 0
IsReported r = ReportedAs r.result r.meta.result_status r.calls

Last-cons : (P : Call → Type 0) (c : Call) (cs : List Call) → Last P cs → Last P (c ∷ cs)
Last-cons P c [] h = absurd h
Last-cons P c (d ∷ cs) h = h

ReportedAs-cons :
    (res : Result (Unit {0})) (s : Option ResultStatus) (c : Call) (cs : List Call)
    → ReportedAs res s cs
    → ReportedAs res s (c ∷ cs)
ReportedAs-cons (throws e) s c cs h = tt
ReportedAs-cons (ok _) (some uploaded) c cs h = Last-cons IsUpload c cs h
ReportedAs-cons (ok _) (some skipped) c cs h = Last-cons IsFound c cs h
ReportedAs-cons (ok _) (some renew_token) c cs h = tt
ReportedAs-cons (ok _) (some renew_presigned_url) c cs h = tt
ReportedAs-cons (ok _) _ c cs h = absurd h

with_call-IsReported : (c : Call) (r : Run) → IsReported r → IsReported (with_call c r)
with_call-IsReported c r h = ReportedAs-cons r.result r.meta.result_status c r.calls h

if-IsReported :
    (b : Bool) (x y : Run) → IsReported x → IsReported y → IsReported (if b then x else y)
if-IsReported true x y h k = h
if-IsReported false x y h k = k

sleep_before-IsReported :
    (m : FileMeta) (retry : ℕ) (r : Run) → IsReported r → IsReported (sleep_before m retry r)
unfolding sleep_before
sleep_before-IsReported m retry r h =
    let w = with_call (wait_call (min (2 ^ retry) 16)) r in
    if-IsReported m.no_sleeping_time r w h
      (with_call-IsReported (wait_call (min (2 ^ retry) 16)) r h)

-- Every run that the loop may go on with is reported.
abbrev GoesOn : Next → Type 0
GoesOn next = (m : FileMeta) (conc : ℕ) (last : Option RemoteError) → IsReported (next m conc last)

module _ (retry conc : ℕ) (last : Option RemoteError) (next : Next) (go : GoesOn next) where
  slept :
      (c : Call) (m m' : FileMeta) (lower : ℕ)
      → IsReported (with_call c (sleep_before m retry (next m lower m'.last_error)))
  slept c m m' lower =
      let r = next m lower m'.last_error in
      with_call-IsReported c (sleep_before m retry r)
        (sleep_before-IsReported m retry r (go m lower m'.last_error))

  -- The end of a round, behind a call that leaves the status: `uploaded` only behind an upload.
  after_round-IsReported :
      (m : FileMeta) (s : Option ResultStatus) (c : Call)
      → m.result_status ≡ s
      → (s ≡ some uploaded → IsUpload c)
      → IsReported (with_call c (after_round retry conc last next m s))
  unfolding after_round lower_concurrency
  after_round-IsReported m (some uploaded) c e f = rw e (f refl)
  after_round-IsReported m (some renew_token) c e f = rw e tt
  after_round-IsReported m (some renew_presigned_url) c e f = rw e tt
  after_round-IsReported m (some need_retry) c e f = slept c m m conc
  after_round-IsReported m (some need_retry_with_lower_concurrency) c e f =
      let lower = lower_concurrency m.parallel retry in
      let m' = record m { last_max_concurrency = some lower } in slept c m' m lower
  after_round-IsReported m _ c e f = with_call-IsReported c (next m conc last) (go m conc last)

  upload_call-IsUpload :
      (s : Option ResultStatus) → s ≡ some uploaded → IsUpload (upload_call conc s)
  upload_call-IsUpload s e = rw e tt

  after_upload-IsReported :
      (r : Reply (Unit {0})) → IsReported (after_upload retry conc last next r)
  unfolding after_upload
  after_upload-IsReported (throws e, m) = tt
  after_upload-IsReported (ok _, m) =
      after_round-IsReported m m.result_status (upload_call conc m.result_status) refl
        (upload_call-IsUpload m.result_status)

-- What a storage utility is relied on for: a file counts as uploaded after a look only with a header.
pub record FindsByHeader {H U D : Type 0} (util : StorageUtil H U D) : Type 0 where
  pub found :
      (a : H) (m m' : FileMeta) (file : String) (h : Option FileHeader)
      → util.get_file_header a m file ≡ (ok h, m')
      → m'.result_status ≡ some uploaded
      → is_some h ≡ true

module _ (retry conc : ℕ) (last : Option RemoteError) (next : Next) (go : GoesOn next) {U : Type 0}
    (upload : Upload U) (a : U) (m : FileMeta) where
  -- Whatever the header and the status that the look left.
  looked :
      (h : Option FileHeader) (s : Option ResultStatus)
      → m.result_status ≡ s
      → (s ≡ some uploaded → is_some h ≡ true)
      → IsReported (
          with_call (header_call s) (
            if is_some h && is_uploaded s
            then returns (as_skipped m)
            else if is_not_found s
            then after_upload retry conc last next (upload a m conc)
            else after_round retry conc last next m s))
  looked (some x) (some uploaded) e f = tt
  looked none (some uploaded) e f = cc (f refl)
  looked (some x) (some not_found_file) e f =
      with_call-IsReported (header_call (some not_found_file))
        (after_upload retry conc last next (upload a m conc))
        (after_upload-IsReported retry conc last next go (upload a m conc))
  looked none (some not_found_file) e f =
      with_call-IsReported (header_call (some not_found_file))
        (after_upload retry conc last next (upload a m conc))
        (after_upload-IsReported retry conc last next go (upload a m conc))
  looked (some x) s e f =
      after_round-IsReported retry conc last next go m s (header_call s) e (λ q. cc)
  looked none s e f = after_round-IsReported retry conc last next go m s (header_call s) e (λ q. cc)

  after_header-IsReported :
      (r : Result (Option FileHeader))
      → ((h : Option FileHeader) → r ≡ ok h → m.result_status ≡ some uploaded → is_some h ≡ true)
      → IsReported (after_header upload a retry conc last next (r, m))
  unfolding after_header
  after_header-IsReported (throws e) f = tt
  after_header-IsReported (ok h) f = looked h m.result_status refl (f h refl)

module _ {H U D : Type 0} (util : StorageUtil H U D) (law : FindsByHeader util)
    (answers : Answers H U) where
  upload_rounds-IsReported :
      (upload : Upload U) (text : String) (n retry : ℕ) (m : FileMeta) (conc : ℕ)
      (last : Option RemoteError)
      → IsReported (upload_rounds util answers upload text n retry m conc last)
  unfolding upload_rounds
  upload_rounds-IsReported upload text zero retry m conc none = tt
  upload_rounds-IsReported upload text zero retry m conc (some e) = tt
  upload_rounds-IsReported upload text (suc n) retry m conc last =
      let go = upload_rounds-IsReported upload text n (suc retry) in
      let next = upload_rounds util answers upload text n (suc retry) in
      let a = answers.upload retry in
      let reply = util.get_file_header (answers.header retry) m m.dst_file_name in
      if-IsReported m.overwrite (after_upload retry conc last next (upload a m conc))
        (after_header upload a retry conc last next reply)
        (after_upload-IsReported retry conc last next go (upload a m conc))
        (after_header-IsReported retry conc last next go upload a reply.1 reply.0 (λ h q s.
          law.found (answers.header retry) m reply.1 m.dst_file_name h
            (ap (λ (x : Result (Option FileHeader)). (x, reply.1)) q) s))

  encrypted-IsReported :
      (r : Result (Option EncryptionMetadata × String)) (m : FileMeta)
      → IsReported (upload_encrypted util answers r m)
  encrypted-IsReported (throws e) m = tt
  encrypted-IsReported (ok (metadata, data_file)) m =
      upload_rounds-IsReported (λ a m' conc. util.upload_file a m' data_file metadata conc)
        data_file default_max_retry 0 m m.parallel none

  -- For a storage utility that leaves UPLOADED after a look only where it gives a header, whatever
  -- the storage answers: where uploadOneFile returns, it leaves UPLOADED, and then its last call
  -- was an upload that succeeded, or SKIPPED, and then its last call found the file, or one of the
  -- two renewals.
  pub upload_one_file-IsReported :
      (encrypt : Encrypt) (m : FileMeta) → IsReported (upload_one_file util answers encrypt m)
  unfolding upload_one_file
  upload_one_file-IsReported encrypt m =
      encrypted-IsReported (data_file_of encrypt m.real_src_file_path m.encryption_material) m
