-- ===== src/FileTransfer/S3.antt =====
-- lib/file_transfer_agent/s3_util.js: what S3's answers make of the metadata of a file, and the
-- upload in parts, with lib/file_transfer_agent/multipart.ts.
pub mod Parts
pub mod Client
use snowflake_connector_node.Prelude.{
  ℕ, zero, suc, ◌+◌, ◌-◌, ◌*◌, min, Bool, true, false, Option, none, some, List, [], ◌∷◌, ◌++◌,
  String, if◌then◌else◌, ltb,
}
use snowflake_connector_node.FileTransfer.Metadata.{
  uploaded, downloaded, renew_token, not_found_file, need_retry, need_retry_with_lower_concurrency,
  error, RemoteError, Result, ok, throws, EncryptionMetadata, FileHeader, FileMeta, Reply, Answer,
  gave, failed, with_status, with_error, as_uploaded, is_text, truthy,
}

-- What headObject gives of an object.
pub record Head : Type 0 where
  pub sfc_digest : Option String
  pub amz_key : Option String
  pub amz_iv : Option String
  pub amz_matdesc : Option String
  pub content_length : ℕ

abbrev pub encryption_of : Head → Option String → Option EncryptionMetadata
encryption_of h none = none
encryption_of h (some key) = some (record { key = key; iv = h.amz_iv; mat_desc = h.amz_matdesc })

abbrev pub no_header : FileHeader
no_header = record { digest = none; content_length = none; encryption_metadata = none }

-- getFileHeader
unfoldable pub get_file_header : Answer Head → FileMeta → String → Reply (Option FileHeader)
get_file_header (gave h) m file = (
  ok (
      some (record {
        digest = h.sfc_digest;
        content_length = some h.content_length;
        encryption_metadata = encryption_of h (truthy h.amz_key);
      })),
  with_status uploaded m,
)
get_file_header (failed e) m file =
    if is_text e.code "ExpiredToken"
    then (ok none, with_status renew_token m)
    else if is_text e.name "NotFound"
    then (ok (some no_header), with_status not_found_file m)
    else if is_text e.code "400"
    then (ok none, with_status renew_token m)
    else (ok none, with_status error m)

-- applyS3UploadError
unfoldable pub apply_s3_upload_error : RemoteError → FileMeta → FileMeta
apply_s3_upload_error e m =
    if is_text e.code "ExpiredToken"
    then with_status renew_token m
    else if is_text e.code "10053"
    then with_error e need_retry_with_lower_concurrency m
    else with_error e need_retry m

-- uploadFileStream, given the answer to putObject.
unfoldable pub upload_file_stream : Answer (Unit {0}) → FileMeta → Reply (Unit {0})
unfolding apply_s3_upload_error
upload_file_stream (gave _) m = (ok tt, as_uploaded m)
upload_file_stream (failed e) m = (ok tt, apply_s3_upload_error e m)

abbrev pub multipart_threshold_bytes : ℕ
multipart_threshold_bytes = 67108864

abbrev pub multipart_part_size_bytes : ℕ
multipart_part_size_bytes = 8388608

pub record Part : Type 0 where
  pub etag : String
  pub part_number : ℕ

pub data PartRequest : Type 0 where
  create : PartRequest
  upload_part : ℕ → ℕ → ℕ → PartRequest
  complete : List Part → PartRequest
  abort : String → PartRequest

-- What a file, its descriptor and S3 answer during an upload in parts; chunks and parts by number.
pub record PartAnswers : Type 0 where
  pub created : Answer (Option String)
  pub opened : Option RemoteError
  pub chunk : ℕ → Option RemoteError
  pub part : ℕ → Answer String
  pub closed : Option RemoteError
  pub completed : Option RemoteError

-- The requests that were sent, the parts so far, and the error that ended them, if any.
pub record Sent : Type 0 where
  pub requests : List PartRequest
  pub parts : List Part
  pub error : Option RemoteError

abbrev pub with_request : PartRequest → Sent → Sent
with_request r s = record s { requests = r ∷ s.requests }

abbrev pub stops : List Part → Option RemoteError → Sent
stops parts e = record { requests = []; parts = parts; error = e }

abbrev pub after_part : List Part → ℕ → (List Part → Sent) → Answer String → Sent
after_part parts number next (gave etag) =
    next (parts ++ record { etag = etag; part_number = number } ∷ [])
after_part parts number next (failed e) = stops parts (some e)

-- One part: the chunk is read, then sent.
abbrev pub send_part :
    PartAnswers → ℕ → ℕ → ℕ → List Part → (List Part → Sent) → Option RemoteError → Sent
send_part a position size number parts next (some e) = stops parts (some e)
send_part a position size number parts next none =
    with_request (upload_part number position size) (after_part parts number next (a.part number))

-- The loop over the file; the fuel is at least the bytes that are left.
unfoldable pub send_parts : PartAnswers → ℕ → ℕ → ℕ → ℕ → List Part → Sent
send_parts a size zero position number parts = stops parts none
send_parts a size (suc fuel) position number parts =
    let this_part_size = min multipart_part_size_bytes (size - position) in
    let next = send_parts a size fuel (position + this_part_size) (suc number) in
    let s = send_part a position this_part_size number parts next (a.chunk number) in
    if ltb position size then s else stops parts none

-- The error of closing the file goes before that of the loop.
abbrev pub close_file : Option RemoteError → Sent → Sent
close_file none s = s
close_file (some e) s = record s { error = some e }

abbrev pub complete_upload : Option RemoteError → Sent → Option RemoteError → Sent
complete_upload answer s (some e) = s
complete_upload answer s none = record s {
  requests = s.requests ++ complete s.parts ∷ [];
  error = answer;
}

abbrev pub send_file : PartAnswers → ℕ → Option RemoteError → Sent
send_file a size (some e) = stops [] (some e)
send_file a size none =
    let s = close_file a.closed (send_parts a size size 0 1 []) in
    complete_upload a.completed s s.error

abbrev pub abort_upload : Option String → Sent → Option RemoteError → Sent
abort_upload id s none = s
abort_upload none s (some e) = s
abort_upload (some id) s (some e) = record s { requests = s.requests ++ abort id ∷ [] }

-- The requests of uploadFileMultipart.
unfoldable pub send_multipart : PartAnswers → ℕ → Answer (Option String) → Sent
unfolding send_parts
send_multipart a size (failed e) = record { requests = create ∷ []; parts = []; error = some e }
send_multipart a size (gave id) =
    let s = send_file a size a.opened in with_request create (abort_upload (truthy id) s s.error)

abbrev pub after_multipart : FileMeta → Option RemoteError → FileMeta
after_multipart m none = as_uploaded m
after_multipart m (some e) = apply_s3_upload_error e m

unfoldable pub upload_file_multipart : PartAnswers → ℕ → FileMeta → Reply (Unit {0})
unfolding send_multipart apply_s3_upload_error
upload_file_multipart a size m = (ok tt, after_multipart m (send_multipart a size a.created).error)

-- What an upload meets: the size of the file, its content where it is read at once, and S3.
pub record UploadAnswers : Type 0 where
  pub file_size : Result ℕ
  pub content : Result (Unit {0})
  pub put : Answer (Unit {0})
  pub multipart : PartAnswers

abbrev pub upload_buffer : UploadAnswers → FileMeta → Result (Unit {0}) → Reply (Unit {0})
upload_buffer a m (throws e) = (throws e, m)
upload_buffer a m (ok _) = upload_file_stream a.put m

abbrev pub upload_sized : UploadAnswers → FileMeta → Result ℕ → Reply (Unit {0})
upload_sized a m (throws e) = (throws e, m)
upload_sized a m (ok size) =
    if ltb multipart_threshold_bytes size
    then upload_file_multipart a.multipart size m
    else upload_buffer a m a.content

-- uploadFile, by enableExperimentalMultipartUploads.
unfoldable pub upload_file :
    Bool → UploadAnswers → FileMeta → String → Option EncryptionMetadata → ℕ → Reply (Unit {0})
unfolding upload_file_stream upload_file_multipart
upload_file multipart a m file metadata conc =
    if multipart then upload_sized a m a.file_size else upload_file_stream a.put m

-- nativeDownloadFile, given the answer to getObject and to writing the file.
unfoldable pub native_download_file : Answer (Unit {0}) → FileMeta → String → ℕ → Reply (Unit {0})
unfolding apply_s3_upload_error
native_download_file (gave _) m path conc = (ok tt, with_status downloaded m)
native_download_file (failed e) m path conc =
    if is_text e.code "ExpiredToken"
    then (ok tt, with_status renew_token m)
    else if is_text e.code "10053"
    then (ok tt, with_error e need_retry_with_lower_concurrency m)
    else (ok tt, with_error e need_retry m)
