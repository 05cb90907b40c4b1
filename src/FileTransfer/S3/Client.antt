-- ===== src/FileTransfer/S3/Client.antt =====
-- S3Util as a storage utility.
use snowflake_connector_node.Prelude.{
  ℕ, ◌≡◌, refl, Bool, true, false, Option, none, some, String, arith, ltb, if◌then◌else◌,
}
use snowflake_connector_node.FileTransfer.Metadata.{
  uploaded, RemoteError, Result, ok, throws, EncryptionMetadata, FileHeader, FileMeta, Answer, gave,
  failed, StorageUtil, SameFile, KeepsFile, Reply,
}
use snowflake_connector_node.FileTransfer.Uploads.{is_some}
use snowflake_connector_node.FileTransfer.Uploads.Reported.{FindsByHeader}
use snowflake_connector_node.FileTransfer.S3.{
  Head, UploadAnswers, get_file_header, upload_file, native_download_file, apply_s3_upload_error,
  upload_file_stream, upload_file_multipart, after_multipart, send_multipart, upload_sized,
  upload_buffer, multipart_threshold_bytes,
}

abbrev pub s3_util : Bool → StorageUtil (Answer Head) UploadAnswers (Answer (Unit {0}))
s3_util multipart = record {
  get_file_header = get_file_header;
  upload_file = upload_file multipart;
  native_download_file = native_download_file;
}

header-keeps :
    (a : Answer Head) (m : FileMeta) (file : String) → SameFile m (get_file_header a m file).1
unfolding get_file_header
header-keeps (gave h) m file = (refl, refl)
header-keeps (failed e) m file = (ground arith, ground arith)

header-found :
    (a : Answer Head) (m m' : FileMeta) (file : String) (h : Option FileHeader)
    → get_file_header a m file ≡ (ok h, m')
    → m'.result_status ≡ some uploaded
    → is_some h ≡ true
unfolding get_file_header
header-found (gave x) m m' file h e s = ground arith
header-found (failed x) m m' file h e s = ground arith

pub s3-FindsByHeader : (multipart : Bool) → FindsByHeader (s3_util multipart)
s3-FindsByHeader multipart = record { found = header-found }

apply-keeps : (e : RemoteError) (m : FileMeta) → SameFile m (apply_s3_upload_error e m)
unfolding apply_s3_upload_error
apply-keeps e m = (ground arith, ground arith)

stream-keeps : (a : Answer (Unit {0})) (m : FileMeta) → SameFile m (upload_file_stream a m).1
unfolding upload_file_stream
stream-keeps (gave _) m = (refl, refl)
stream-keeps (failed e) m = apply-keeps e m

multipart-keeps : (m : FileMeta) (o : Option RemoteError) → SameFile m (after_multipart m o)
multipart-keeps m none = (refl, refl)
multipart-keeps m (some e) = apply-keeps e m

buffer-keeps :
    (a : UploadAnswers) (m : FileMeta) (r : Result (Unit {0})) → SameFile m (upload_buffer a m r).1
buffer-keeps a m (throws e) = (refl, refl)
buffer-keeps a m (ok _) = stream-keeps a.put m

if-keeps :
    (m : FileMeta) (b : Bool) (x y : Reply (Unit {0}))
    → SameFile m x.1
    → SameFile m y.1
    → SameFile m (if b then x else y).1
if-keeps m true x y h k = h
if-keeps m false x y h k = k

sized-keeps : (a : UploadAnswers) (m : FileMeta) (r : Result ℕ) → SameFile m (upload_sized a m r).1
unfolding upload_file_multipart
sized-keeps a m (throws e) = (refl, refl)
sized-keeps a m (ok size) =
    if-keeps m (ltb multipart_threshold_bytes size) (upload_file_multipart a.multipart size m)
      (upload_buffer a m a.content)
      (multipart-keeps m (send_multipart a.multipart size a.multipart.created).error)
      (buffer-keeps a m a.content)

upload-keeps :
    (multipart : Bool) (a : UploadAnswers) (m : FileMeta) (file : String)
    (e : Option EncryptionMetadata) (conc : ℕ)
    → SameFile m (upload_file multipart a m file e conc).1
unfolding upload_file
upload-keeps true a m file e conc = sized-keeps a m a.file_size
upload-keeps false a m file e conc = stream-keeps a.put m

pub s3-KeepsFile : (multipart : Bool) → KeepsFile (s3_util multipart)
s3-KeepsFile multipart = record { header = header-keeps; upload = upload-keeps multipart }
