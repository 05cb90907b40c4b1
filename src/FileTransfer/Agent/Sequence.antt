-- ===== src/FileTransfer/Agent/Sequence.antt =====
-- uploadFilesinSequential of lib/file_transfer_agent/file_transfer_agent.js: which results it gives.
use snowflake_connector_node.Prelude.{
  ℕ, zero, suc, ◌+◌, ◌-◌, ◌≤◌, ◌<◌, ◌≡◌, refl, Bool, true, false, Option, none, some, List, [], ◌∷◌,
  map, length, String, arith, ◌∙◌, ap, subst, sym,
}
use native.Mathlib.Decide.{dec_lt}
use snowflake_connector_node.FileTransfer.Metadata.{
  ResultStatus, error, renew_token, renew_presigned_url, Result, ok, throws, FileMeta, StorageUtil,
  SameFile, KeepsFile,
}
use snowflake_connector_node.FileTransfer.Uploads.{Run, upload_one_file_with_retry}
use snowflake_connector_node.FileTransfer.Uploads.Named.{if-SameFile, with_retry-SameFile}
use snowflake_connector_node.FileTransfer.Agent.{
  StageLocation, gcs, Attempt, catch_failure, or_caught, measure, compress, upload_one_file,
  without_client, update_presigned_url, Files, result_of, after_attempt, upload_files_in_sequential,
}

-- What is asked of the results behind one, by its status.
abbrev pub Onward : Option ResultStatus → Type 0 → Type 0 → Type 0
Onward (some renew_token) stop go = ⊥
Onward (some renew_presigned_url) stop go = ⊥
Onward (some error) stop go = stop
Onward _ stop go = go

-- Results of the files in order, none of them a renewal, up to the first error or the last file.
abbrev pub Finished : List FileMeta → List FileMeta → Type 0
Finished [] [] = Unit
Finished [] (r ∷ rs) = ⊥
Finished (m ∷ ms) [] = ⊥
Finished (m ∷ ms) (r ∷ rs) =
    (r.src_file_name ≡ m.src_file_name) × Onward r.result_status (rs ≡ []) (Finished ms rs)

abbrev pub is_renewal : Option ResultStatus → Bool
is_renewal (some renew_token) = true
is_renewal (some renew_presigned_url) = true
is_renewal _ = false

abbrev pub Gives : List FileMeta → Option (List FileMeta) → Type 0
Gives ms o = (rs : List FileMeta) × (o ≡ some rs) × Finished ms rs

-- A renewal that leaves the names of the files.
abbrev Keeps : (FileMeta → FileMeta) → Type 0
Keeps f = (m : FileMeta) → (f m).src_file_name ≡ m.src_file_name

Onward-map : (s : Option ResultStatus) (A B C : Type 0) → (B → C) → Onward s A B → Onward s A C
Onward-map (some renew_token) A B C f h = h
Onward-map (some renew_presigned_url) A B C f h = h
Onward-map (some error) A B C f h = h
Onward-map _ A B C f h = f h

Finished-map :
    (f : FileMeta → FileMeta)
    → Keeps f
    → (ms rs : List FileMeta) → Finished (map f ms) rs
    → Finished ms rs
Finished-map f keeps [] [] h = tt
Finished-map f keeps [] (r ∷ rs) h = h
Finished-map f keeps (m ∷ ms) [] h = h
Finished-map f keeps (m ∷ ms) (r ∷ rs) h = (
  h.0 ∙ keeps m,
  Onward-map r.result_status (rs ≡ []) (Finished (map f ms) rs) (Finished ms rs)
      (Finished-map f keeps ms rs) h.1,
)

length-map : (f : FileMeta → FileMeta) (ms : List FileMeta) → length (map f ms) ≡ length ms
length-map f [] = refl
length-map f (m ∷ ms) = ap suc (length-map f ms)

Finished-head :
    (r m : FileMeta) (ms rs : List FileMeta)
    → r.src_file_name ≡ m.src_file_name
    → Finished (r ∷ ms) rs
    → Finished (m ∷ ms) rs
Finished-head r m ms [] e h = h
Finished-head r m ms (x ∷ rs) e h = (h.0 ∙ e, h.1)

some_eq : {xs ys : List FileMeta} → some xs ≡ some ys → xs ≡ ys
some_eq e = cc

result_of-Gives :
    (r m : FileMeta) (ms : List FileMeta) (o : Option (List FileMeta))
    → r.src_file_name ≡ m.src_file_name
    → ((rs : List FileMeta) → Finished ms rs → Onward r.result_status (rs ≡ []) (Finished ms rs))
    → Gives ms o
    → Gives (m ∷ ms) (result_of r o)
result_of-Gives r m ms none e f (rs, q, h) = cc
result_of-Gives r m ms (some xs) e f (rs, q, h) =
    (r ∷ xs, refl, (e, f xs (subst (Finished ms) (some_eq (sym q)) h)))

-- Whatever status an attempt leaves: a renewal is followed by as many files with the same names.
after_attempt-Gives :
    (renew : FileMeta → FileMeta)
    → Keeps renew
    → (next : Files) (r m : FileMeta) (ms : List FileMeta) → r.src_file_name ≡ m.src_file_name
    → (s : Option ResultStatus) → r.result_status ≡ s
    → (is_renewal s ≡ true
        → (xs : List FileMeta) → length xs ≡ length (m ∷ ms)
        → Gives xs (next xs))
    → Gives ms (next ms)
    → Gives (m ∷ ms) (after_attempt renew next r ms s)
unfolding after_attempt
after_attempt-Gives renew keeps next r m ms e (some renew_token) q again go =
    let xs = map without_client (r ∷ ms) in
    let (rs, p, h) = again refl xs (ap suc (length-map without_client ms)) in
    (rs, p, Finished-head r m ms rs e (Finished-map without_client (λ x. refl) (r ∷ ms) rs h))
after_attempt-Gives renew keeps next r m ms e (some renew_presigned_url) q again go =
    let xs = map renew (r ∷ ms) in
    let (rs, p, h) = again refl xs (ap suc (length-map renew ms)) in
    (rs, p, Finished-head r m ms rs e (Finished-map renew keeps (r ∷ ms) rs h))
after_attempt-Gives renew keeps next r m ms e (some error) q again go =
    (r ∷ [], refl, (e, rw q refl))
after_attempt-Gives renew keeps next r m ms e s q again go =
    result_of-Gives r m ms (next ms) e (λ rs h. rw q h) go

renew-Keeps :
    (stage : StageLocation) (token : Bool) (urls : FileMeta → Option String)
    → Keeps (update_presigned_url stage token urls)
unfolding update_presigned_url
renew-Keeps gcs false urls m = refl
renew-Keeps _ _ urls m = refl

-- No attempt from this one on asks for a renewal, whatever the file.
abbrev pub NoRenewalFrom : {H U D : Type 0} → StorageUtil H U D → (ℕ → Attempt H U) → ℕ → Type 0
NoRenewalFrom util attempts n =
    (k : ℕ) (m : FileMeta)
    → n ≤ k
    → is_renewal (upload_one_file util (attempts k) m).meta.result_status ≡ false

module _ {H U D : Type 0} (util : StorageUtil H U D) (law : KeepsFile util) where
  caught-SameFile :
      (m : FileMeta) (r : Run) (res : Result (Unit {0}))
      → SameFile m r.meta
      → SameFile m (or_caught r res).meta
  unfolding catch_failure
  caught-SameFile m r (ok _) h = h
  caught-SameFile m r (throws e) h = h

  measure-SameFile :
      (a : Attempt H U) (m : FileMeta) (r : Result (String × ℕ))
      → SameFile m (measure util a m r).meta
  unfolding catch_failure
  measure-SameFile a m (throws e) = (refl, refl)
  measure-SameFile a m (ok (digest, size)) =
      let m' = record m { sha256_digest = some digest; upload_size = some size } in
      let r = upload_one_file_with_retry util a.answers a.encrypt m' in
      caught-SameFile m r r.result (with_retry-SameFile util law a.answers a.encrypt m')

  compress-SameFile :
      (a : Attempt H U) (m : FileMeta) (r : Result String) → SameFile m (compress util a m r).meta
  unfolding catch_failure
  compress-SameFile a m (throws e) = (refl, refl)
  compress-SameFile a m (ok name) =
      measure-SameFile a (record m { real_src_file_path = name }) a.measured

  attempt-SameFile : (a : Attempt H U) (m : FileMeta) → SameFile m (upload_one_file util a m).meta
  unfolding upload_one_file
  attempt-SameFile a m =
      let m' = record m { real_src_file_path = m.src_file_path } in
      if-SameFile m m.require_compress (compress util a m' a.compressed)
        (measure util a m' a.measured) (compress-SameFile a m' a.compressed)
        (measure-SameFile a m' a.measured)

  module _ (stage : StageLocation) (token : Bool) (attempts : ℕ → Attempt H U) where
    files-Gives :
        (n : ℕ)
        → NoRenewalFrom util attempts n
        → (fuel k : ℕ) (ms : List FileMeta) → n - k + length ms < fuel
        → Gives ms (upload_files_in_sequential util stage token attempts fuel k ms)
    unfolding upload_files_in_sequential
    files-Gives n quiet zero k ms h = elim h [ ]
    files-Gives n quiet (suc fuel) k [] h = ([], refl, tt)
    files-Gives n quiet (suc fuel) k (m ∷ ms) h =
        let r = (upload_one_file util (attempts k) m).meta in
        after_attempt-Gives (update_presigned_url stage token (attempts k).urls)
          (renew-Keeps stage token (attempts k).urls)
          (upload_files_in_sequential util stage token attempts fuel (suc k)) r m ms
          (attempt-SameFile (attempts k) m).1 r.result_status refl
          (λ renewal xs e. elim (dec_lt k n) [
            | yes lt ↦ files-Gives n quiet fuel (suc k) xs (omega (arith, e))
            | no ge ↦ cc (quiet k m (omega (arith, ge)))
          ])
          (files-Gives n quiet fuel (suc k) ms (omega arith))

    -- For a storage utility that leaves the names of the files: where from some attempt on no
    -- attempt asks for a renewal, uploadFilesinSequential ends, after at most so many attempts and
    -- one for each file, with the results of the files in order, none of them a renewal, up to the
    -- first error or the last file.
    pub upload_files-Finished :
        (n : ℕ) (ms : List FileMeta) (fuel : ℕ)
        → NoRenewalFrom util attempts n
        → n + length ms < fuel
        → (rs : List FileMeta) × (upload_files_in_sequential util stage token attempts fuel 0 ms
            ≡ some rs)
          × Finished ms rs
    upload_files-Finished n ms fuel quiet h = files-Gives n quiet fuel 0 ms (omega arith)
