-- ===== src/FileTransfer/Agent.antt =====
-- PUT in lib/file_transfer_agent/file_transfer_agent.js: files are uploaded one after the other,
-- and again after a renewal, and the result has a row for each.
pub mod Sequence
pub mod Expired
pub mod Unprepared
use snowflake_connector_node.Prelude.{
  ℕ, zero, suc, Bool, true, false, ◌&&◌, not, Option, none, some, List, [], ◌∷◌, ◌++◌, map, String,
  if◌then◌else◌, ltb,
}
use snowflake_connector_node.Prelude.Int.{ℤ, pos}
use snowflake_connector_node.FileTransfer.Metadata.{
  ResultStatus, error, renew_token, renew_presigned_url, Failure, Result, ok, throws, ErrorDetails,
  FileMeta, StorageUtil,
}
use snowflake_connector_node.FileTransfer.Uploads.{
  Run, returns, Answers, Encrypt, upload_one_file_with_retry,
}

pub data StageLocation : Type 0 where
  s3 azure gcs : StageLocation

-- What an attempt at a file meets: what compressing and measuring it gives, the encryption, the
-- storage, and the presigned URLs if they are renewed after it.
pub record Attempt (H U : Type 0) : Type 0 where
  pub compressed : Result String
  pub measured : Result (String × ℕ)
  pub encrypt : Encrypt
  pub answers : Answers H U
  pub urls : FileMeta → Option String

-- The catch of uploadOneFile. A status is only overwritten where there is one.
unfoldable pub catch_failure : Failure → FileMeta → FileMeta
catch_failure e m = record m {
  dst_file_size = some (pos 0);
  result_status = elim m.result_status [ none ↦ none | some s ↦ some error ];
  error_details =
      some (record { failure = e; file = m.src_file_name; real_file = m.real_src_file_path });
}

abbrev pub or_caught : Run → Result (Unit {0}) → Run
or_caught r (ok _) = r
or_caught r (throws e) = record r { result = ok tt; meta = catch_failure e r.meta }

-- renewExpiredClient gives nothing, which becomes the client of the files that are left.
abbrev pub without_client : FileMeta → FileMeta
without_client m = record m { client = none }

-- updateFileMetasWithPresignedUrl of a PUT, where the requests for the URLs succeed.
unfoldable pub update_presigned_url :
    StageLocation → Bool → (FileMeta → Option String) → FileMeta → FileMeta
update_presigned_url gcs false urls m = record m { presigned_url = urls m }
update_presigned_url _ _ urls m = m

abbrev pub Files : Type 0
Files = List FileMeta → Option (List FileMeta)

abbrev pub result_of : FileMeta → Option (List FileMeta) → Option (List FileMeta)
result_of m none = none
result_of m (some rs) = some (m ∷ rs)

-- After an attempt, by the status that it left: again, an end, or on to the next file.
unfoldable pub after_attempt :
    (FileMeta → FileMeta)
    → Files
    → FileMeta
    → List FileMeta
    → Option ResultStatus
    → Option (List FileMeta)
after_attempt renew next m ms (some renew_token) = next (map without_client (m ∷ ms))
after_attempt renew next m ms (some renew_presigned_url) = next (map renew (m ∷ ms))
after_attempt renew next m ms (some error) = some (m ∷ [])
after_attempt renew next m ms _ = result_of m (next ms)

module _ {H U D : Type 0} (util : StorageUtil H U D) where
  abbrev pub send : Attempt H U → FileMeta → Run
  send a m = let r = upload_one_file_with_retry util a.answers a.encrypt m in or_caught r r.result

  -- The file is measured, then sent.
  abbrev pub measure : Attempt H U → FileMeta → Result (String × ℕ) → Run
  measure a m (throws e) = returns (catch_failure e m)
  measure a m (ok (digest, size)) =
      send a (record m { sha256_digest = some digest; upload_size = some size })

  abbrev pub compress : Attempt H U → FileMeta → Result String → Run
  compress a m (throws e) = returns (catch_failure e m)
  compress a m (ok name) = measure a (record m { real_src_file_path = name }) a.measured

  unfoldable pub upload_one_file : Attempt H U → FileMeta → Run
  unfolding catch_failure
  upload_one_file a m =
      let m' = record m { real_src_file_path = m.src_file_path } in
      if m.require_compress then compress a m' a.compressed else measure a m' a.measured

  -- uploadFilesinSequential, with fuel for the attempts, which are numbered; `none` if it runs out.
  unfoldable pub upload_files_in_sequential :
      StageLocation → Bool → (ℕ → Attempt H U) → ℕ → ℕ → Files
  unfolding upload_one_file update_presigned_url after_attempt
  upload_files_in_sequential stage token attempts zero k ms = none
  upload_files_in_sequential stage token attempts (suc fuel) k [] = some []
  upload_files_in_sequential stage token attempts (suc fuel) k (m ∷ ms) =
      let next = upload_files_in_sequential stage token attempts fuel (suc k) in
      let r = upload_one_file (attempts k) m in
      after_attempt (update_presigned_url stage token (attempts k).urls) next r.meta ms
        r.meta.result_status

-- A row of the result of a PUT.
pub record PutRow : Type 0 where
  pub source : String
  pub target : String
  pub source_size : ℕ
  pub target_size : ℤ
  pub source_compression : Option String
  pub target_compression : Option String
  pub status : Option ResultStatus
  pub message : Option ErrorDetails

-- `no_details` is the message for a file without details, and `no_size` is the TypeError for a size
-- that is not set.
pub data PutResult : Type 0 where
  rows : List PutRow → PutResult
  failed_file : ErrorDetails → PutResult
  no_details : String → PutResult
  no_size : PutResult

abbrev pub with_row : PutRow → PutResult → PutResult
with_row r (rows rs) = rows (r ∷ rs)
with_row r (failed_file e) = failed_file e
with_row r (no_details path) = no_details path
with_row r no_size = no_size

abbrev pub row_of : FileMeta → ℤ → PutRow
row_of m size = record {
  source = m.src_file_name;
  target = m.dst_file_name;
  source_size = m.src_file_size;
  target_size = size;
  source_compression = m.src_compression_name;
  target_compression = m.dst_compression_name;
  status = m.result_status;
  message = m.error_details;
}

abbrev pub sized_row : FileMeta → Option ℤ → PutResult → PutResult
sized_row m none rest = no_size
sized_row m (some size) rest = with_row (row_of m size) rest

abbrev pub error_of : FileMeta → Option ErrorDetails → PutResult
error_of m none = no_details m.src_file_path
error_of m (some e) = failed_file e

abbrev pub file_row : FileMeta → PutResult → Option ResultStatus → PutResult
file_row m rest (some error) = error_of m m.error_details
file_row m rest _ = sized_row m m.dst_file_size rest

-- result, for an upload.
unfoldable pub put_result : List FileMeta → PutResult
put_result [] = rows []
put_result (m ∷ ms) = file_row m (put_result ms) m.result_status
