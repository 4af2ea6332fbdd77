-- ===== src/Scripts/Copies.antt =====
-- scripts/migrate-uploads-to-r2-node.js: the files of a folder are copied to the object storage, and
-- some of them are fetched from there.
pub mod Keys
pub mod Complete
pub mod Ends
pub mod Samples
use vethealth_backend.Base.{
  ℕ, zero, suc, ◌+◌, ◌-◌, Bool, true, false, not, ◌&&◌, ◌||◌, Option, none, some, List, [], ◌∷◌,
  ◌++◌, length, take, get_elem?, map, Text, codes, text_eq, join, ltb, leb, ◌==◌, if◌then◌else◌,
}
use vethealth_backend.Files.Service.{strip_slashes}
use vethealth_backend.Files.Paths.{strip_last, or_empty}
use vethealth_backend.Scripts.Environment.{Environment, get_env, is_unset}

-- A folder. A link is neither a folder nor a file for `readdir`.
mutual
  pub data Tree : Type 0 where
    file : List ℕ → Tree
    directory : Entries → Tree
    link : Tree

  pub data Entries : Type 0 where
    end : Entries
    entry : (name : Text) → Tree → Entries → Entries

-- A file with the names of the folders on the way to it, from the folder of the uploads on: what
-- `path.relative` with `split(path.sep)` makes of its full path.
pub record File : Type 0 where
  pub path : List Text
  pub body : List ℕ

-- `walk`
unfoldable mutual
  pub walk_entry : (above : List Text) (name : Text) → Tree → List File
  walk_entry above name (file body) = record { path = above ++ (name ∷ []); body = body } ∷ []
  walk_entry above name (directory entries) = walk_entries (above ++ (name ∷ [])) entries
  walk_entry above name link = []

  pub walk_entries : (above : List Text) → Entries → List File
  walk_entries above end = []
  walk_entries above (entry name tree entries) =
      walk_entry above name tree ++ walk_entries above entries

abbrev pub list_files_recursive : Entries → List File
unfolding walk_entries
list_files_recursive = walk_entries []

-- `mimeFromExtension`, of the extension in small letters
abbrev pub mime_from_extension : Text → Text
mime_from_extension ext =
    if text_eq ext (codes ".jpg") || text_eq ext (codes ".jpeg")
    then codes "image/jpeg"
    else if text_eq ext (codes ".png")
    then codes "image/png"
    else if text_eq ext (codes ".gif")
    then codes "image/gif"
    else if text_eq ext (codes ".webp")
    then codes "image/webp"
    else if text_eq ext (codes ".svg")
    then codes "image/svg+xml"
    else if text_eq ext (codes ".avif")
    then codes "image/avif"
    else if text_eq ext (codes ".bmp")
    then codes "image/bmp"
    else codes "application/octet-stream"

-- `toObjectKey`
unfoldable pub to_object_key : (prefix : Text) → List Text → Text
unfolding join
to_object_key prefix path = strip_slashes (prefix ++ (b'/' ∷ join (b'/' ∷ []) path))

pub record Object : Type 0 where
  pub content_type : Text
  pub body : List ℕ

-- The objects of a bucket, the last that was put in front.
abbrev pub Bucket : Type 0
Bucket = List (Text × Object)

abbrev pub get_object : Text → Bucket → Option Object
get_object key [] = none
get_object key ((k, o) ∷ bucket) = if text_eq k key then some o else get_object key bucket

-- What the script relies on of others: the extension of a file in small letters, whether the storage
-- takes an object, what a public address answers, and random numbers up to a bound.
pub record World : Type 0 where
  pub extension : List Text → Text
  pub takes : Text → Bool
  pub status : Text → ℕ
  pub random_int : (below : ℕ) → ℕ

module _ (world : World) (prefix : Text) where
  abbrev pub put : File → Bucket → Bucket
  put f bucket =
      (
        to_object_key prefix f.path,
        record { content_type = mime_from_extension (world.extension f.path); body = f.body },
      )
      ∷ bucket

  -- The loop of `uploadFiles`: the number of uploads, none where the storage refuses one
  abbrev pub upload_all : List File → (uploaded : ℕ) → Bucket → Option ℕ × Bucket
  upload_all [] uploaded bucket = (some uploaded, bucket)
  upload_all (f ∷ files) uploaded bucket =
      let rest = upload_all files (uploaded + 1) (put f bucket) in
      if world.takes (to_object_key prefix f.path) then rest else (none, bucket)

  -- `uploadFiles`
  unfoldable pub upload_files : (execute : Bool) → List File → Bucket → Option ℕ × Bucket
  upload_files execute files bucket =
      if execute then upload_all files 0 bucket else (some 0, bucket)

-- `cloned[i]` and `cloned[j]` change places.
abbrev pub replace_at {ℓ} : {A : Type ℓ} → ℕ → A → List A → List A
replace_at i v [] = []
replace_at zero v (x ∷ xs) = v ∷ xs
replace_at (suc i) v (x ∷ xs) = x ∷ replace_at i v xs

abbrev pub exchange {ℓ} : {A : Type ℓ} → ℕ → ℕ → Option A → Option A → List A → List A
exchange i j (some x) (some y) xs = replace_at j x (replace_at i y xs)
exchange i j _ _ xs = xs

abbrev pub swap {ℓ} : {A : Type ℓ} → ℕ → ℕ → List A → List A
swap i j xs = exchange i j (get_elem? xs i) (get_elem? xs j) xs

-- The loop of `sampleArray`, from `i` down to 1
abbrev pub shuffle {ℓ} : {A : Type ℓ} → (random_int : ℕ → ℕ) → (i : ℕ) → List A → List A
shuffle random_int zero xs = xs
shuffle random_int (suc i) xs = shuffle random_int i (swap (suc i) (random_int (suc i + 1)) xs)

-- `sampleArray`
unfoldable pub sample_array {ℓ} : {A : Type ℓ} → (random_int : ℕ → ℕ) → List A → ℕ → List A
sample_array random_int items count =
    if leb (length items) count
    then items
    else take count (shuffle random_int (length items - 1) items)

-- What the smoke check counts.
pub record Smoke : Type 0 where
  pub ok : ℕ
  pub fail : ℕ
  pub total : ℕ

-- `smokeCheck`; the status is 0 where nothing answers.
abbrev pub smoke_loop : (Text → ℕ) → (public_url : Text) → List Text → (ok fail : ℕ) → ℕ × ℕ
smoke_loop status public_url [] ok fail = (ok, fail)
smoke_loop status public_url (key ∷ keys) ok fail =
    let good = status (strip_last public_url ++ (b'/' ∷ key)) == 200 in
    smoke_loop status public_url keys (if good then ok + 1 else ok)
      (if good then fail else fail + 1)

unfoldable pub smoke_check : (Text → ℕ) → (public_url : Text) → List Text → Smoke
smoke_check status public_url keys =
    let (ok, fail) = smoke_loop status public_url keys 0 0 in
    record { ok = ok; fail = fail; total = length keys }

abbrev pub required : List Text
required =
    codes "FILE_S3_ENDPOINT"
    ∷ codes "FILE_S3_BUCKET"
    ∷ codes "FILE_S3_ACCESS_KEY"
    ∷ codes "FILE_S3_SECRET_KEY"
    ∷ codes "FILE_S3_PUBLIC_URL"
    ∷ []

abbrev pub first_missing : List Text → Environment → Option Text
first_missing [] env = none
first_missing (key ∷ keys) env =
    let rest = first_missing keys env in if is_unset (get_env key env) then some key else rest

-- How a run ends: with an error, with nothing to copy, or with the numbers that it prints.
pub data End : Type 0 where
  missing : Text → End
  no_folder upload_failed nothing : End
  ended : (uploaded : ℕ) → Smoke → (exit_code : ℕ) → End

pub record Arguments : Type 0 where
  pub execute : Bool
  pub prefix : Text
  pub sample_size : ℕ

abbrev pub with_uploads : World → Arguments → (public_url : Text) → List File → Option ℕ → End
with_uploads world args public_url files none = upload_failed
with_uploads world args public_url files (some uploaded) =
    let keys =
      map (λ f. to_object_key args.prefix f.path)
        (sample_array world.random_int files args.sample_size) in
    let smoke = smoke_check world.status public_url keys in
    ended uploaded smoke (if args.execute && ltb 0 smoke.fail then 2 else 0)

abbrev pub with_files : World → Arguments → (public_url : Text) → List File → Bucket → End × Bucket
with_files world args public_url [] bucket = (nothing, bucket)
with_files world args public_url (f ∷ files) bucket =
    let (uploaded, bucket') = upload_files world args.prefix args.execute (f ∷ files) bucket in
    (with_uploads world args public_url (f ∷ files) uploaded, bucket')

abbrev pub with_folder :
    World → Arguments → (public_url : Text) → Option Entries → Bucket → End × Bucket
with_folder world args public_url none bucket = (no_folder, bucket)
with_folder world args public_url (some entries) bucket =
    with_files world args public_url (list_files_recursive entries) bucket

abbrev pub with_missing :
    World → Arguments → Environment → Option Entries → Option Text → Bucket → End × Bucket
with_missing world args env folder (some key) bucket = (missing key, bucket)
with_missing world args env folder none bucket =
    with_folder world args (or_empty (get_env (codes "FILE_S3_PUBLIC_URL") env)) folder bucket

-- `main`, behind the reading of the arguments and of the environment file; the folder of the uploads
-- may be missing.
unfoldable pub copy_uploads :
    World → Arguments → Environment → Option Entries → Bucket → End × Bucket
unfolding codes
copy_uploads world args env folder bucket =
    with_missing world args env folder (first_missing required env) bucket
