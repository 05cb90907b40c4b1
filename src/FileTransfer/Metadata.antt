-- ===== src/FileTransfer/Metadata.antt =====
-- The metadata of a file in lib/file_transfer_agent, which every step of a transfer mutates, the
-- status codes and the file header of lib/file_util.js, and what a storage utility offers.
use snowflake_connector_node.Prelude.{
  ℕ, Bool, false, Option, none, some, String, if◌then◌else◌, str_eq, ◌==◌, ◌≡◌,
}
use snowflake_connector_node.Prelude.Int.{ℤ, pos}

pub data ResultStatus : Type 0 where
  error uploaded downloaded collision skipped renew_token renew_presigned_url : ResultStatus
  not_found_file need_retry need_retry_with_lower_concurrency : ResultStatus

-- An error object, as far as the utilities look at it.
pub record RemoteError : Type 0 where
  pub code : Option String
  pub name : Option String
  pub status_code : Option ℕ
  pub text : String

-- What a call throws: the last error of the storage, the messages of remote_storage_util.js with the
-- name in them, or an error of Node.js.
pub data Failure : Type 0 where
  of_remote : RemoteError → Failure
  unknown_error_in_uploading : String → Failure
  unknown_error_in_downloading : String → Failure
  local_error : String → Failure

pub data Result {ℓ} (A : Type ℓ) : Type ℓ where
  ok : A → Result A
  throws : Failure → Result A

pub record EncryptionMetadata : Type 0 where
  pub key : String
  pub iv : Option String
  pub mat_desc : Option String

pub record FileHeader : Type 0 where
  pub digest : Option String
  pub content_length : Option ℕ
  pub encryption_metadata : Option EncryptionMetadata

pub record EncryptionMaterial : Type 0 where
  pub query_stage_master_key : String
  pub query_id : String
  pub smk_id : String

-- `errorDetails` is the text of the error with the two names.
pub record ErrorDetails : Type 0 where
  pub failure : Failure
  pub file : String
  pub real_file : String

pub record FileMeta : Type 0 where
  pub src_file_name : String
  pub src_file_path : String
  pub real_src_file_path : String
  pub src_file_size : ℕ
  pub dst_file_name : String
  pub dst_file_size : Option ℤ
  pub src_compression_name : Option String
  pub dst_compression_name : Option String
  pub require_compress : Bool
  pub overwrite : Bool
  pub parallel : ℕ
  pub no_sleeping_time : Bool
  pub encryption_material : Option EncryptionMaterial
  pub sha256_digest : Option String
  pub upload_size : Option ℕ
  pub client : Option String
  pub presigned_url : Option String
  pub result_status : Option ResultStatus
  pub last_error : Option RemoteError
  pub last_max_concurrency : Option ℕ
  pub error_details : Option ErrorDetails

-- A call that mutates the metadata and may throw.
abbrev pub Reply {ℓ} : Type ℓ → Type ℓ
Reply A = Result A × FileMeta

-- What S3Util, AzureUtil and GCSUtil have in common, over what the storage answers to a request for
-- a header, to an upload and to a download.
pub record StorageUtil (H U D : Type 0) : Type 0 where
  pub get_file_header : H → FileMeta → String → Reply (Option FileHeader)
  pub upload_file : U → FileMeta → String → Option EncryptionMetadata → ℕ → Reply (Unit {0})
  pub native_download_file : D → FileMeta → String → ℕ → Reply (Unit {0})

-- What a request gives, or the error that it throws.
pub data Answer {ℓ} (A : Type ℓ) : Type ℓ where
  gave : A → Answer A
  failed : RemoteError → Answer A

abbrev pub with_status : ResultStatus → FileMeta → FileMeta
with_status s m = record m { result_status = some s }

abbrev pub with_error : RemoteError → ResultStatus → FileMeta → FileMeta
with_error e s m = record m { last_error = some e; result_status = some s }

abbrev pub size_of : Option ℕ → Option ℤ
size_of none = none
size_of (some n) = some (pos n)

-- What a successful upload leaves.
abbrev pub as_uploaded : FileMeta → FileMeta
as_uploaded m = record m { dst_file_size = size_of m.upload_size; result_status = some uploaded }

abbrev pub is_text : Option String → String → Bool
is_text none t = false
is_text (some s) t = str_eq s t

abbrev pub is_value : Option ℕ → ℕ → Bool
is_value none n = false
is_value (some k) n = k == n

-- A text that JavaScript takes for true.
abbrev pub truthy : Option String → Option String
truthy none = none
truthy (some s) = if str_eq s "" then none else some s

-- Metadata of the same file, as far as what is to be done with it goes.
abbrev pub SameFile : FileMeta → FileMeta → Type 0
SameFile m m' = (m'.overwrite ≡ m.overwrite) × (m'.src_file_name ≡ m.src_file_name)

-- What a storage utility leaves as it is.
pub record KeepsFile {H U D : Type 0} (util : StorageUtil H U D) : Type 0 where
  pub header : (a : H) (m : FileMeta) (file : String) → SameFile m (util.get_file_header a m file).1
  pub upload :
      (a : U) (m : FileMeta) (file : String) (e : Option EncryptionMetadata) (conc : ℕ)
      → SameFile m (util.upload_file a m file e conc).1
