-- ===== src/FileTransfer/Examples.antt =====
-- The theorems on PUT at concrete files and answers.
use snowflake_connector_node.Prelude.{
  ℕ, zero, suc, ◌≡◌, refl, true, false, none, some, List, [], ◌∷◌, arith,
}
use snowflake_connector_node.FileTransfer.Metadata.{
  uploaded, RemoteError, local_error, ok, throws, FileMeta, Answer, gave, failed,
}
use snowflake_connector_node.FileTransfer.Uploads.{
  Answers, Encrypt, default_max_retry, upload_one_file, data_file_of,
}
use snowflake_connector_node.FileTransfer.Uploads.Reported.{IsReported, upload_one_file-IsReported}
use snowflake_connector_node.FileTransfer.Uploads.Guarded.{IsGuarded, upload_one_file-IsGuarded}
use snowflake_connector_node.FileTransfer.S3.{
  Head, UploadAnswers, PartAnswers, get_file_header, upload_file, upload_file_multipart,
  send_multipart,
}
use snowflake_connector_node.FileTransfer.S3.Client.{s3_util, s3-FindsByHeader, s3-KeepsFile}
use snowflake_connector_node.FileTransfer.S3.Parts.{IsCovering, upload_file_multipart-IsCovering}
use snowflake_connector_node.FileTransfer.Agent
use snowflake_connector_node.FileTransfer.Agent.{
  Attempt, s3, catch_failure, upload_files_in_sequential, row_of,
}
use snowflake_connector_node.FileTransfer.Agent.Sequence.{
  Finished, NoRenewalFrom, is_renewal, upload_files-Finished,
}
use snowflake_connector_node.FileTransfer.Agent.Expired.{IsExpired, upload_files-expired}

abbrev expired : RemoteError
expired = record { code = some "ExpiredToken"; name = none; status_code = none; text = "expired" }

abbrev not_found : RemoteError
not_found = record { code = none; name = some "NotFound"; status_code = none; text = "not found" }

abbrev slow_down : RemoteError
slow_down = record { code = some "SlowDown"; name = none; status_code = none; text = "slow down" }

abbrev file : FileMeta
file = record {
  src_file_name = "data.csv";
  src_file_path = "/tmp/data.csv";
  real_src_file_path = "/tmp/data.csv";
  src_file_size = 100;
  dst_file_name = "data.csv.gz";
  dst_file_size = none;
  src_compression_name = none;
  dst_compression_name = some "GZIP";
  require_compress = true;
  overwrite = false;
  parallel = 4;
  no_sleeping_time = false;
  encryption_material = none;
  sha256_digest = none;
  upload_size = some 40;
  client = some "client";
  presigned_url = none;
  result_status = none;
  last_error = none;
  last_max_concurrency = none;
  error_details = none;
}

abbrev encrypt : Encrypt
encrypt x path = ok (none, path)

-- Twenty MiB in three parts.
abbrev parts : PartAnswers
parts = record {
  created = gave (some "id");
  opened = none;
  chunk = λ i. none;
  part = λ i. gave "tag";
  closed = none;
  completed = none;
}

abbrev upload_with : Answer (Unit {0}) → UploadAnswers
upload_with put = record { file_size = ok 40; content = ok tt; put = put; multipart = parts }

abbrev first_fails : ℕ → UploadAnswers
first_fails zero = upload_with (failed slow_down)
first_fails (suc i) = upload_with (gave tt)

-- The file is not there; the first upload is refused, and the second one succeeds.
abbrev answers : Answers (Answer Head) UploadAnswers
answers = record {
  header = λ i. failed not_found;
  upload = first_fails;
  verify = λ i. failed not_found;
}

calls_of_second_try :
    (upload_one_file (s3_util false) answers encrypt file).meta.result_status ≡ some uploaded
unfolding upload_one_file get_file_header upload_file data_file_of
calls_of_second_try = refl

upload_one_file-IsReported_example :
    IsReported (upload_one_file (s3_util false) answers encrypt file)
upload_one_file-IsReported_example =
    upload_one_file-IsReported (s3_util false) (s3-FindsByHeader false) answers encrypt file

upload_one_file-IsGuarded_example :
    IsGuarded default_max_retry (upload_one_file (s3_util false) answers encrypt file).calls
upload_one_file-IsGuarded_example =
    upload_one_file-IsGuarded (s3_util false) (s3-KeepsFile false) answers encrypt file refl

parts-uploaded : (upload_file_multipart parts 20971520 file).1.result_status ≡ some uploaded
unfolding upload_file_multipart
parts-uploaded = refl

upload_file_multipart-IsCovering_example :
    IsCovering 20971520 (send_multipart parts 20971520 (gave (some "id"))).requests
upload_file_multipart-IsCovering_example =
    upload_file_multipart-IsCovering parts 20971520 file parts-uploaded

-- Every request is refused as expired.
abbrev refused : Attempt (Answer Head) UploadAnswers
refused = record {
  compressed = ok "/tmp/data.csv_c.gz";
  measured = ok ("digest", 40);
  encrypt = encrypt;
  answers = record {
    header = λ i. failed expired;
    upload = λ i. upload_with (failed expired);
    verify = λ i. failed expired;
  };
  urls = λ m. none;
}

refused-IsExpired : ℕ → IsExpired expired refused
refused-IsExpired k = record {
  path = "/tmp/data.csv_c.gz";
  compressed = refl;
  digest = ("digest", 40);
  measured = refl;
  encrypted = λ x path. ((none, path), refl);
  header = λ i. refl;
  put = λ i. refl;
}

upload_files-expired_example :
    upload_files_in_sequential (s3_util false) s3 false (λ k. refused) 100 0 (file ∷ []) ≡ none
upload_files-expired_example =
    upload_files-expired s3 false expired (λ k. refused) refl refused-IsExpired 100 0 file []

-- An attempt at a file that cannot be read.
abbrev unreadable : Attempt (Answer Head) UploadAnswers
unreadable = record refused {
  compressed = throws (local_error "EACCES");
  measured = throws (local_error "EACCES");
}

-- The first attempt is refused as expired, and then the files cannot be read.
abbrev once_refused : ℕ → Attempt (Answer Head) UploadAnswers
once_refused zero = refused
once_refused (suc k) = unreadable

unreadable-no_renewal :
    (m : FileMeta)
    → is_renewal (Agent.upload_one_file (s3_util false) unreadable m).meta.result_status ≡ false
unfolding Agent.upload_one_file
unreadable-no_renewal m = ground arith

once_refused-NoRenewalFrom : NoRenewalFrom (s3_util false) once_refused 1
once_refused-NoRenewalFrom zero m h = absurd (omega arith)
once_refused-NoRenewalFrom (suc k) m h = unreadable-no_renewal m

upload_files-Finished_example :
    (rs : List FileMeta) × (upload_files_in_sequential
        (s3_util false)
        s3
        false
        once_refused
        4
        0
        (file ∷ file ∷ [])
      ≡ some rs)
    × Finished (file ∷ file ∷ []) rs
upload_files-Finished_example =
    upload_files-Finished (s3_util false) (s3-KeepsFile false) s3 false once_refused 1
      (file ∷ file ∷ []) 4 once_refused-NoRenewalFrom (omega arith)
