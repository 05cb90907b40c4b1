-- ===== src/FileTransfer/Uploads/Guarded.antt =====
-- uploadOneFile of lib/file_transfer_agent/remote_storage_util.js without `overwrite`: what goes
-- before an upload, and how many calls there are.
use snowflake_connector_node.Prelude.{
  ℕ, zero, suc, ◌≤◌, ◌≡◌, refl, Bool, true, false, ◌&&◌, ◌^◌, min, Option, none, some, List, [],
  ◌∷◌, String, if◌then◌else◌, arith, ◌∙◌, subst, sym,
}
use snowflake_connector_node.FileTransfer.Metadata.{
  ResultStatus, uploaded, renew_token, renew_presigned_url, not_found_file, need_retry,
  need_retry_with_lower_concurrency, RemoteError, Result, ok, throws, EncryptionMetadata,
  FileHeader, FileMeta, Reply, StorageUtil, KeepsFile,
}
use snowflake_connector_node.FileTransfer.Uploads.{
  Call, header_call, upload_call, wait_call, Run, with_call, is_some, is_uploaded, is_not_found,
  returns, as_skipped, default_max_retry, sleep_before, lower_concurrency, Next, after_round,
  after_upload, Upload, after_header, Answers, upload_rounds, upload_encrypted, Encrypt,
  data_file_of, upload_one_file,
}

-- Each upload stands directly behind a look that did not find the file; the flag says whether the
-- call before the list is one.
abbrev pub Guarded : Bool → List Call → Type 0
Guarded g [] = Unit
Guarded g (header_call s ∷ cs) = Guarded (is_not_found s) cs
Guarded g (upload_call conc s ∷ cs) = (g ≡ true) × Guarded false cs
Guarded g (wait_call t ∷ cs) = Guarded false cs

abbrev pub looks : List Call → ℕ
looks [] = 0
looks (header_call s ∷ cs) = suc (looks cs)
looks (upload_call conc s ∷ cs) = looks cs
looks (wait_call t ∷ cs) = looks cs

-- Guarded, with at most so many looks.
abbrev pub IsGuarded : ℕ → List Call → Type 0
IsGuarded n cs = Guarded false cs × (looks cs ≤ n)

Guarded-weaken : (g : Bool) (cs : List Call) → Guarded false cs → Guarded g cs
Guarded-weaken g [] h = tt
Guarded-weaken g (header_call s ∷ cs) h = h
Guarded-weaken g (upload_call conc s ∷ cs) h = cc h.0
Guarded-weaken g (wait_call t ∷ cs) h = h

abbrev GoesOn : ℕ → Next → Type 0
GoesOn n next =
    (m : FileMeta) (conc : ℕ) (last : Option RemoteError)
    → m.overwrite ≡ false
    → IsGuarded n (next m conc last).calls

if-IsGuarded :
    (n : ℕ) (b : Bool) (x y : Run)
    → IsGuarded n x.calls
    → IsGuarded n y.calls
    → IsGuarded n (if b then x else y).calls
if-IsGuarded n true x y h k = h
if-IsGuarded n false x y h k = k

module _ (n retry conc : ℕ) (last : Option RemoteError) (next : Next) (go : GoesOn n next) where
  slept :
      (m m' m'' : FileMeta) (lower : ℕ)
      → m'.overwrite ≡ false
      → IsGuarded n (sleep_before m retry (next m' lower m''.last_error)).calls
  unfolding sleep_before
  slept m m' m'' lower e =
      let r = next m' lower m''.last_error in
      let w = with_call (wait_call (min (2 ^ retry) 16)) r in
      if-IsGuarded n m.no_sleeping_time r w (go m' lower m''.last_error e)
        (go m' lower m''.last_error e)

  after_round-IsGuarded :
      (m : FileMeta) (s : Option ResultStatus)
      → m.overwrite ≡ false
      → IsGuarded n (after_round retry conc last next m s).calls
  unfolding after_round lower_concurrency
  after_round-IsGuarded m (some uploaded) e = (tt, omega arith)
  after_round-IsGuarded m (some renew_token) e = (tt, omega arith)
  after_round-IsGuarded m (some renew_presigned_url) e = (tt, omega arith)
  after_round-IsGuarded m (some need_retry) e = slept m m m conc e
  after_round-IsGuarded m (some need_retry_with_lower_concurrency) e =
      let lower = lower_concurrency m.parallel retry in
      let m' = record m { last_max_concurrency = some lower } in slept m' m' m lower e
  after_round-IsGuarded m _ e = go m conc last e

  -- An upload behind a look that did not find the file.
  after_upload-Guarded :
      (r : Reply (Unit {0}))
      → r.1.overwrite ≡ false
      → Guarded true (after_upload retry conc last next r).calls
        × (looks (after_upload retry conc last next r).calls ≤ n)
  unfolding after_upload
  after_upload-Guarded (throws e, m) q = ((refl, tt), omega arith)
  after_upload-Guarded (ok _, m) q =
      let h = after_round-IsGuarded m m.result_status q in ((refl, h.0), h.1)

module _ (n retry conc : ℕ) (last : Option RemoteError) (next : Next) (go : GoesOn n next)
    {U : Type 0} (upload : Upload U) (a : U)
    (keeps : (m : FileMeta) → (upload a m conc).1.overwrite ≡ m.overwrite) where
  abbrev behind_look : Option FileHeader → FileMeta → Option ResultStatus → Run
  behind_look h m s =
      if is_some h && is_uploaded s
      then returns (as_skipped m)
      else if is_not_found s
      then after_upload retry conc last next (upload a m conc)
      else after_round retry conc last next m s

  looked :
      (h : Option FileHeader) (m : FileMeta) (s : Option ResultStatus)
      → m.overwrite ≡ false
      → IsGuarded (suc n) (with_call (header_call s) (behind_look h m s)).calls
  looked (some x) m (some uploaded) e = (tt, omega arith)
  looked none m (some uploaded) e =
      let h = after_round-IsGuarded n retry conc last next go m (some uploaded) e in
      (h.0, omega (arith, h.1))
  looked (some x) m (some not_found_file) e =
      let k = after_upload-Guarded n retry conc last next go (upload a m conc) (keeps m ∙ e) in
      (k.0, omega (arith, k.1))
  looked none m (some not_found_file) e =
      let k = after_upload-Guarded n retry conc last next go (upload a m conc) (keeps m ∙ e) in
      (k.0, omega (arith, k.1))
  looked (some x) m s e =
      let k = after_round-IsGuarded n retry conc last next go m s e in (k.0, omega (arith, k.1))
  looked none m s e =
      let k = after_round-IsGuarded n retry conc last next go m s e in (k.0, omega (arith, k.1))

  after_header-IsGuarded :
      (r : Reply (Option FileHeader))
      → r.1.overwrite ≡ false
      → IsGuarded (suc n) (after_header upload a retry conc last next r).calls
  unfolding after_header
  after_header-IsGuarded (throws e, m) q = (tt, omega arith)
  after_header-IsGuarded (ok h, m) q = looked h m m.result_status q

module _ {H U D : Type 0} (util : StorageUtil H U D) (law : KeepsFile util)
    (answers : Answers H U) where
  upload_rounds-IsGuarded :
      (upload : Upload U) (text : String)
      → ((a : U) (m : FileMeta) (conc : ℕ) → (upload a m conc).1.overwrite ≡ m.overwrite)
      → (n retry : ℕ) → GoesOn n (upload_rounds util answers upload text n retry)
  unfolding upload_rounds
  upload_rounds-IsGuarded upload text keeps zero retry m conc none e = (tt, omega arith)
  upload_rounds-IsGuarded upload text keeps zero retry m conc (some x) e = (tt, omega arith)
  upload_rounds-IsGuarded upload text keeps (suc n) retry m conc last e =
      let go = upload_rounds-IsGuarded upload text keeps n (suc retry) in
      let next = upload_rounds util answers upload text n (suc retry) in
      let a = answers.upload retry in
      let reply = util.get_file_header (answers.header retry) m m.dst_file_name in
      subst
        (λ (b : Bool).
          IsGuarded (suc n)
            (if b
              then after_upload retry conc last next (upload a m conc)
              else after_header upload a retry conc last next reply).calls)
        (sym e)
        (after_header-IsGuarded n retry conc last next go upload a (λ m'. keeps a m' conc) reply
          ((law.header (answers.header retry) m m.dst_file_name).0 ∙ e))

  encrypted-IsGuarded :
      (r : Result (Option EncryptionMetadata × String)) (m : FileMeta)
      → m.overwrite ≡ false
      → IsGuarded default_max_retry (upload_encrypted util answers r m).calls
  encrypted-IsGuarded (throws x) m e = (tt, omega arith)
  encrypted-IsGuarded (ok (metadata, data_file)) m e =
      upload_rounds-IsGuarded (λ a m' conc. util.upload_file a m' data_file metadata conc) data_file
        (λ a m' conc. (law.upload a m' data_file metadata conc).0) default_max_retry 0 m m.parallel
        none e

  -- Without `overwrite`, which the storage utility leaves as it is, and whatever the storage
  -- answers: each upload of uploadOneFile stands directly behind a look that did not find the
  -- file, and there are at most five looks.
  pub upload_one_file-IsGuarded :
      (encrypt : Encrypt) (m : FileMeta)
      → m.overwrite ≡ false
      → IsGuarded default_max_retry (upload_one_file util answers encrypt m).calls
  unfolding upload_one_file
  upload_one_file-IsGuarded encrypt m e =
      encrypted-IsGuarded (data_file_of encrypt m.real_src_file_path m.encryption_material) m e
