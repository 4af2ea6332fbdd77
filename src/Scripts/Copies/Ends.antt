-- ===== src/Scripts/Copies/Ends.antt =====
-- Whole runs of the copy.
use vethealth_backend.Base.{
  ℕ, ◌+◌, ◌≡◌, ◌↔◌, true, Option, none, some, List, [], length, All, if◌then◌else◌, ltb,
}
use vethealth_backend.Scripts.Environment.{Environment}
use vethealth_backend.Scripts.Copies.{
  File, Bucket, World, Entries, list_files_recursive, End, missing, no_folder, upload_failed,
  nothing, ended, Arguments,
}
use vethealth_backend.Scripts.Copies.Complete.{IsCopied, IsStopped}

abbrev exit_code_of : ℕ → ℕ
exit_code_of fail = if ltb 0 fail then 2 else 0

-- What the end of a run that copies says about the bucket: where it was stopped before the upload,
-- the bucket is as before; where the storage refused a file, those before it are copied, and under the
-- keys of the others the bucket is as before; where it ends with its numbers, every file is copied and counted, and the
-- exit code is 0 exactly if every address that was fetched answered.
abbrev pub IsEnd : World → List File → (bucket bucket' : Bucket) → End → Type 0
IsEnd world files bucket bucket' (missing key) = bucket' ≡ bucket
IsEnd world files bucket bucket' no_folder = bucket' ≡ bucket
IsEnd world files bucket bucket' nothing = (files ≡ []) × (bucket' ≡ bucket)
IsEnd world files bucket bucket' upload_failed = IsStopped world files bucket bucket'
IsEnd world files bucket bucket' (ended uploaded smoke exit_code) =
    All (IsCopied world bucket') files
    × (uploaded ≡ length files)
    × (smoke.ok + smoke.fail ≡ smoke.total)
    × ((exit_code ≡ 0) ↔ (smoke.ok ≡ smoke.total))

abbrev pub executed : ℕ → Arguments
executed sample = record { execute = true; prefix = []; sample_size = sample }

-- The files that a folder has, none where it is missing.
abbrev pub files_of : Option Entries → List File
files_of none = []
files_of (some entries) = list_files_recursive entries
