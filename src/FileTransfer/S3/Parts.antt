-- ===== src/FileTransfer/S3/Parts.antt =====
-- The upload in parts of lib/file_transfer_agent/s3_util.js: what its requests cover.
use snowflake_connector_node.Prelude.{
  ℕ, zero, suc, Bool, ◌≢◌, ◌+◌, ◌-◌, ◌≤◌, ◌<◌, ◌≡◌, refl, min, true, false, Option, none, some,
  List, [], ◌∷◌, ◌++◌, String, if◌then◌else◌, ltb, arith, ltb→lt, ◌∙◌, sym, ap, subst,
}
use snowflake_connector_node.FileTransfer.Metadata.{
  uploaded, FileMeta, Answer, gave, failed, RemoteError, truthy,
}
use snowflake_connector_node.FileTransfer.S3.{
  multipart_part_size_bytes, Part, PartRequest, create, upload_part, complete, abort, PartAnswers,
  Sent, stops, with_request, after_part, send_part, send_parts, close_file, complete_upload,
  send_file, abort_upload, send_multipart, after_multipart, apply_s3_upload_error,
  upload_file_multipart,
}

-- Requests for parts from a byte and a number on, to the end of the file, each behind the one before
-- it and no longer than a part may be; the parts are those that they made; then it is completed.
abbrev pub Covers : ℕ → ℕ → ℕ → List Part → List PartRequest → Type 0
Covers size position number parts [] = ⊥
Covers size position number parts (create ∷ rs) = ⊥
Covers size position number parts (abort id ∷ rs) = ⊥
Covers size position number parts (complete ps ∷ rs) = (size ≤ position) × (ps ≡ parts) × (rs ≡ [])
Covers size position number parts (upload_part n p k ∷ rs) =
    (n ≡ number)
    × (p ≡ position)
    × (0 < k)
    × (k ≤ multipart_part_size_bytes)
    × (p + k ≤ size)
    × ((etag : String) × Covers size (position + k) (suc number)
          (parts ++ record { etag = etag; part_number = number } ∷ []) rs)

-- The rest of the loop covers the rest of the file, if it ends without an error.
abbrev EndsCovering : ℕ → ℕ → ℕ → List Part → Sent → Type 0
EndsCovering size position number parts s =
    s.error ≡ none → Covers size position number parts (s.requests ++ complete s.parts ∷ [])

module _ (a : PartAnswers) (size position number k : ℕ) (parts : List Part)
    (next : List Part → Sent)
    (go : (ps : List Part) → EndsCovering size (position + k) (suc number) ps (next ps))
    (pos : 0 < k) (small : k ≤ multipart_part_size_bytes) (within : position + k ≤ size) where
  after_part-Covers :
      (r : Answer String)
      → EndsCovering size position number parts
          (with_request (upload_part number position k) (after_part parts number next r))
  after_part-Covers (gave etag) e = (
    refl,
    refl,
    pos,
    small,
    within,
    (etag, go (parts ++ record { etag = etag; part_number = number } ∷ []) e),
  )
  after_part-Covers (failed x) e = cc

  send_part-Covers :
      (o : Option RemoteError)
      → EndsCovering size position number parts (send_part a position k number parts next o)
  send_part-Covers none e = after_part-Covers (a.part number) e
  send_part-Covers (some x) e = cc

if-EndsCovering :
    (size position number : ℕ) (parts : List Part) (b : Bool) (x y : Sent)
    → (b ≡ true → EndsCovering size position number parts x)
    → (b ≡ false → EndsCovering size position number parts y)
    → EndsCovering size position number parts (if b then x else y)
if-EndsCovering size position number parts true x y h k = h refl
if-EndsCovering size position number parts false x y h k = k refl

send_parts-Covers :
    (a : PartAnswers) (size fuel position number : ℕ) (parts : List Part)
    → position ≤ size
    → size ≤ position + fuel
    → EndsCovering size position number parts (send_parts a size fuel position number parts)
unfolding send_parts
send_parts-Covers a size zero position number parts w h = λ e. (omega arith, refl, refl)
send_parts-Covers a size (suc fuel) position number parts w h =
    let k = min multipart_part_size_bytes (size - position) in
    let next = send_parts a size fuel (position + k) (suc number) in
    if-EndsCovering size position number parts (ltb position size)
      (send_part a position k number parts next (a.chunk number)) (stops parts none)
      (λ t.
        let lt = ltb→lt position size t in
        send_part-Covers a size position number k parts next
          (λ ps.
            send_parts-Covers a size fuel (position + k) (suc number) ps (omega arith)
              (omega arith))
          (omega arith) (omega arith) (omega arith) (a.chunk number))
      (λ t e. (ground arith, refl, refl))

-- The requests of an upload in parts that leaves UPLOADED.
abbrev pub IsCovering : ℕ → List PartRequest → Type 0
IsCovering size rs = (qs : List PartRequest) × (rs ≡ create ∷ qs) × Covers size 0 1 [] qs

close_file-eq :
    (o : Option RemoteError) (s : Sent) → (close_file o s).error ≡ none → close_file o s ≡ s
close_file-eq none s e = refl
close_file-eq (some x) s e = cc

complete-Covers :
    (size : ℕ) (answer : Option RemoteError) (s : Sent) (o : Option RemoteError)
    → (o ≡ none → Covers size 0 1 [] (s.requests ++ complete s.parts ∷ []))
    → s.error ≡ o
    → (complete_upload answer s o).error ≡ none
    → Covers size 0 1 [] (complete_upload answer s o).requests
complete-Covers size answer s none h q e = h refl
complete-Covers size answer s (some x) h q e = cc

send_file-Covers :
    (a : PartAnswers) (size : ℕ) (o : Option RemoteError)
    → (send_file a size o).error ≡ none
    → Covers size 0 1 [] (send_file a size o).requests
send_file-Covers a size (some x) e = cc
send_file-Covers a size none e =
    let s = send_parts a size size 0 1 [] in
    let c = close_file a.closed s in
    complete-Covers size a.completed c c.error
      (λ q.
        subst (λ (x : Sent). Covers size 0 1 [] (x.requests ++ complete x.parts ∷ []))
          (sym (close_file-eq a.closed s q))
          (send_parts-Covers a size size 0 1 [] (omega arith) (omega arith)
            (ap (λ (x : Sent). x.error) (sym (close_file-eq a.closed s q)) ∙ q)))
      refl e

abort_upload-eq :
    (id : Option String) (s : Sent) (o : Option RemoteError) → (abort_upload id s o).error ≡ s.error
abort_upload-eq id s none = refl
abort_upload-eq none s (some x) = refl
abort_upload-eq (some id) s (some x) = refl

abort_upload-none :
    (id : Option String) (s : Sent) (o : Option RemoteError) → o ≡ none → abort_upload id s o ≡ s
abort_upload-none id s none e = refl
abort_upload-none id s (some x) e = cc

send_multipart-Covers :
    (a : PartAnswers) (size : ℕ) (r : Answer (Option String))
    → (send_multipart a size r).error ≡ none
    → IsCovering size (send_multipart a size r).requests
unfolding send_multipart
send_multipart-Covers a size (failed x) e = cc
send_multipart-Covers a size (gave id) e =
    let s = send_file a size a.opened in
    let fine = sym (abort_upload-eq (truthy id) s s.error) ∙ e in
    let same = abort_upload-none (truthy id) s s.error fine in
    (s.requests, ap (λ (x : Sent). create ∷ x.requests) same, send_file-Covers a size a.opened fine)

apply-status :
    (x : RemoteError) (m : FileMeta) → (apply_s3_upload_error x m).result_status ≢ some uploaded
unfolding apply_s3_upload_error
apply-status x m h = ground arith

after_multipart-none :
    (m : FileMeta) (o : Option RemoteError)
    → (after_multipart m o).result_status ≡ some uploaded
    → o ≡ none
after_multipart-none m none h = refl
after_multipart-none m (some x) h = absurd (apply-status x m h)

-- Whatever the file and S3 answer: an upload in parts that leaves UPLOADED was created, then sent
-- parts with the numbers from 1 on, each from where the one before ended and at most 8 MiB long, up
-- to the end of the file, and then completed with exactly these parts and their tags.
pub upload_file_multipart-IsCovering :
    (a : PartAnswers) (size : ℕ) (m : FileMeta)
    → (upload_file_multipart a size m).1.result_status ≡ some uploaded
    → IsCovering size (send_multipart a size a.created).requests
unfolding upload_file_multipart
upload_file_multipart-IsCovering a size m h =
    send_multipart-Covers a size a.created
      (after_multipart-none m (send_multipart a size a.created).error h)
