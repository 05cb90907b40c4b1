-- ===== src/FileTransfer/Agent/Expired.antt =====
-- A PUT to S3 whose token has expired (lib/file_transfer_agent). renewExpiredClient is empty, and
-- S3Util makes its clients from the credentials of the stage, so that S3 goes on to refuse them.
use snowflake_connector_node.Prelude.{
  ℕ, zero, suc, ◌≡◌, refl, Bool, true, false, Option, none, some, List, ◌∷◌, map, String,
  if◌then◌else◌, ap, ◌∙◌, subst, sym,
}
use snowflake_connector_node.FileTransfer.Metadata.{
  ResultStatus, renew_token, RemoteError, Result, ok, throws, EncryptionMetadata, FileHeader,
  EncryptionMaterial, FileMeta, Reply, Answer, failed, is_text, with_status,
}
use snowflake_connector_node.FileTransfer.Uploads.{
  Run, Next, after_round, after_upload, Upload, after_header, upload_rounds, upload_encrypted,
  data_file_of, upload_one_file, verified, verify_rounds, upload_one_file_with_retry, is_uploaded,
  append_calls,
}
use snowflake_connector_node.FileTransfer.S3.{
  Head, UploadAnswers, get_file_header, apply_s3_upload_error, upload_file_stream, upload_file,
}
use snowflake_connector_node.FileTransfer.S3.Client.{s3_util}
use snowflake_connector_node.FileTransfer.Agent
use snowflake_connector_node.FileTransfer.Agent.{
  StageLocation, Attempt, catch_failure, or_caught, measure, compress, without_client,
  update_presigned_url, after_attempt, upload_files_in_sequential,
}

-- The file can be compressed, measured and encrypted, and S3 refuses every request as expired.
pub record IsExpired (e : RemoteError) (a : Attempt (Answer Head) UploadAnswers) : Type 0 where
  pub path : String
  pub compressed : a.compressed ≡ ok path
  pub digest : String × ℕ
  pub measured : a.measured ≡ ok digest
  pub encrypted :
      (x : EncryptionMaterial) (file : String)
      → (p : Option EncryptionMetadata × String) × (a.encrypt x file ≡ ok p)
  pub header : (i : ℕ) → a.answers.header i ≡ failed e
  pub put : (i : ℕ) → (a.answers.upload i).put ≡ failed e

-- A run that returns with the renewal of the token.
abbrev Renews : Run → Type 0
Renews r = (r.result ≡ ok tt) × (r.meta.result_status ≡ some renew_token)

if-Renews : (b : Bool) (x y : Run) → Renews x → Renews y → Renews (if b then x else y)
if-Renews true x y h k = h
if-Renews false x y h k = k

verified-Renews :
    (verify : FileMeta → Run) (res : Result (Unit {0})) (r : Run)
    → Renews r
    → Renews (verified verify res r)
verified-Renews verify (throws x) r h = h
verified-Renews verify (ok _) r h =
    subst (λ (b : Bool). Renews (if b then append_calls r.calls (verify r.meta) else r))
      (sym (ap is_uploaded h.1)) h

caught-Renews :
    (r : Run) (res : Result (Unit {0})) → res ≡ ok tt → Renews r → Renews (or_caught r res)
caught-Renews r (ok _) q h = h
caught-Renews r (throws x) q h = cc

abbrev renewed : FileMeta → FileMeta
renewed m = with_status renew_token m

module _ (retry conc : ℕ) (last : Option RemoteError) (next : Next) (m : FileMeta) where
  after_upload-Renews :
      (r : Reply (Unit {0})) → r ≡ (ok tt, renewed m) → Renews (after_upload retry conc last next r)
  unfolding after_upload after_round
  after_upload-Renews r q =
      subst (λ (x : Reply (Unit {0})). Renews (after_upload retry conc last next x)) (sym q)
        (refl, refl)

  after_header-Renews :
      {U : Type 0} (upload : Upload U) (a : U) (r : Reply (Option FileHeader))
      → r ≡ (ok none, renewed m)
      → Renews (after_header upload a retry conc last next r)
  unfolding after_header after_round
  after_header-Renews upload a r q =
      subst
        (λ (x : Reply (Option FileHeader)). Renews (after_header upload a retry conc last next x))
        (sym q) (refl, refl)

module _ (e : RemoteError) (code : is_text e.code "ExpiredToken" ≡ true) where
  header-eq :
      (m : FileMeta) (file : String) → get_file_header (failed e) m file ≡ (ok none, renewed m)
  unfolding get_file_header
  header-eq m file = rw code refl

  stream-eq : (m : FileMeta) → upload_file_stream (failed e) m ≡ (ok tt, renewed m)
  unfolding upload_file_stream apply_s3_upload_error
  stream-eq m = rw code refl

  module _ (a : Attempt (Answer Head) UploadAnswers) (h : IsExpired e a) where
    rounds-Renews :
        (n retry : ℕ) (file : String) (metadata : Option EncryptionMetadata) (m : FileMeta)
        (conc : ℕ) (last : Option RemoteError)
        → Renews (
            upload_rounds
              (s3_util false)
              a.answers
              (λ b m' c. upload_file false b m' file metadata c)
              file
              (suc n)
              retry
              m
              conc
              last)
    unfolding upload_rounds upload_file
    rounds-Renews n retry file metadata m conc last =
        let upload =
          λ (b : UploadAnswers) (m' : FileMeta) (c : ℕ). upload_file false b m' file metadata c in
        let next = upload_rounds (s3_util false) a.answers upload file n (suc retry) in
        let u = a.answers.upload retry in
        let reply = get_file_header (a.answers.header retry) m m.dst_file_name in
        if-Renews m.overwrite (after_upload retry conc last next (upload u m conc))
          (after_header upload u retry conc last next reply)
          (after_upload-Renews retry conc last next m (upload u m conc)
            (ap (λ (x : Answer (Unit {0})). upload_file_stream x m) (h.put retry) ∙ stream-eq m))
          (after_header-Renews retry conc last next m upload u reply (
            ap (λ (x : Answer Head). get_file_header x m m.dst_file_name) (h.header retry)
            ∙ header-eq m m.dst_file_name))

    encrypted-Renews :
        (o : Option EncryptionMaterial) (path : String) (m : FileMeta)
        → Renews (upload_encrypted (s3_util false) a.answers (data_file_of a.encrypt path o) m)
    unfolding data_file_of
    encrypted-Renews none path m = rounds-Renews 4 0 path none m m.parallel none
    encrypted-Renews (some x) path m =
        let (p, q) = h.encrypted x path in
        subst
          (λ (r : Result (Option EncryptionMetadata × String)).
            Renews (upload_encrypted (s3_util false) a.answers r m))
          (sym q) (rounds-Renews 4 0 p.1 p.0 m m.parallel none)

    measure-Renews :
        (m : FileMeta) (r : Result (String × ℕ))
        → r ≡ ok h.digest
        → Renews (measure (s3_util false) a m r)
    unfolding upload_one_file_with_retry upload_one_file
    measure-Renews m (throws x) q = cc
    measure-Renews m (ok (digest, size)) q =
        let m' = record m { sha256_digest = some digest; upload_size = some size } in
        let r = upload_one_file (s3_util false) a.answers a.encrypt m' in
        let v = verified (verify_rounds (s3_util false) a.answers 10 0) r.result r in
        let k =
          verified-Renews (verify_rounds (s3_util false) a.answers 10 0) r.result r
            (encrypted-Renews m'.encryption_material m'.real_src_file_path m') in
        caught-Renews v v.result k.0 k

    compress-Renews :
        (m : FileMeta) (r : Result String) → r ≡ ok h.path → Renews (compress (s3_util false) a m r)
    compress-Renews m (throws x) q = cc
    compress-Renews m (ok name) q =
        measure-Renews (record m { real_src_file_path = name }) a.measured h.measured

    attempt-Renews : (m : FileMeta) → Renews (Agent.upload_one_file (s3_util false) a m)
    unfolding Agent.upload_one_file
    attempt-Renews m =
        let m' = record m { real_src_file_path = m.src_file_path } in
        if-Renews m.require_compress (compress (s3_util false) a m' a.compressed)
          (measure (s3_util false) a m' a.measured) (compress-Renews m' a.compressed h.compressed)
          (measure-Renews m' a.measured h.measured)

again-renewed :
    (renew : FileMeta → FileMeta) (next : List FileMeta → Option (List FileMeta)) (m : FileMeta)
    (ms : List FileMeta) (s : Option ResultStatus)
    → s ≡ some renew_token
    → after_attempt renew next m ms s ≡ next (map without_client (m ∷ ms))
unfolding after_attempt
again-renewed renew next m ms s q = rw q refl

-- Where S3 refuses the token of every attempt as expired, uploads in parts are not enabled, which
-- is the default, and the files can be compressed, measured and encrypted, the loop of
-- uploadFilesinSequential never ends: no number of attempts is enough.
pub upload_files-expired :
    (stage : StageLocation) (token : Bool) (e : RemoteError)
    (attempts : ℕ → Attempt (Answer Head) UploadAnswers)
    → is_text e.code "ExpiredToken" ≡ true
    → ((k : ℕ) → IsExpired e (attempts k))
    → (fuel k : ℕ) (m : FileMeta) (ms : List FileMeta)
    → upload_files_in_sequential (s3_util false) stage token attempts fuel k (m ∷ ms) ≡ none
unfolding upload_files_in_sequential
upload_files-expired stage token e attempts code h zero k m ms = refl
upload_files-expired stage token e attempts code h (suc fuel) k m ms =
    let r = (Agent.upload_one_file (s3_util false) (attempts k) m).meta in
    again-renewed (update_presigned_url stage token (attempts k).urls)
      (upload_files_in_sequential (s3_util false) stage token attempts fuel (suc k)) r ms
      r.result_status (attempt-Renews e code (attempts k) (h k) m).1
    ∙ upload_files-expired stage token e attempts code h fuel (suc k) (without_client r)
        (map without_client ms)
