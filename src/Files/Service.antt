-- ===== src/Files/Service.antt =====
-- The operations of files.service.ts, on the disk with the temporary files, the object storage and
-- the table of files.
use vethealth_backend.Base.{
  ℕ, Bool, not, Option, none, some, List, [], ◌∷◌, ◌++◌, filter, map, Text, codes, text_eq, ltb,
  ◌==◌, if◌then◌else◌,
}
use vethealth_backend.Files.{SniffedImage, sniff_image_type, reconcile_extension, is_image_name}

-- An error, by its status; `fault` is one that is no HTTP exception.
pub data Error : Type 0 where
  wrong_type select_file presigned_not_available too_large fault : Error

pub data Result (A : Type 0) : Type 0 where
  ok : A → Result A
  err : Error → Result A

-- `Fields`
pub data Field : Type 0 where
  post topic post_featured : Field

-- A temporary file that multer wrote.
pub record Upload : Type 0 where
  pub original_name : Text
  pub path : Text
  pub mime_type : Text

pub record StoredObject : Type 0 where
  pub key : Text
  pub content_type : Text
  pub body : List ℕ

pub record World : Type 0 where
  pub disk : List (Text × List ℕ)
  pub objects : List StoredObject
  pub rows : List Text

-- What is not the program's own: Node's `path`, the decoding
-- of bytes and `toLowerCase`, the name that is made of a field and a file name with time and chance,
-- the signature of the storage and whether it answers, whether the database saves the row of a path,
-- and the configuration.
pub record Env : Type 0 where
  pub extname : Text → Text
  pub lower : Text → Text
  pub utf8 : List ℕ → Text
  pub slug_of : Text → Text
  pub suffix : Text
  pub today : Text
  pub sign : (key content_type : Text) (length : ℕ) → Option Text
  pub storage_up : Bool
  pub saves : Text → Bool
  pub is_local : Bool
  pub max_file_size : ℕ

abbrev pub read_file : Text → List (Text × List ℕ) → Option (List ℕ)
read_file path [] = none
read_file path ((p, bytes) ∷ disk) = if text_eq p path then some bytes else read_file path disk

abbrev pub rename : Text → Text → List (Text × List ℕ) → List (Text × List ℕ)
rename from to = map (λ (p, bytes). (if text_eq p from then to else p, bytes))

abbrev pub unlink : Text → List (Text × List ℕ) → List (Text × List ℕ)
unlink path = filter (λ f. not (text_eq f.0 path))

-- `.replace(/\\/g, '/')`
abbrev pub normalized : Text → Text
normalized = map (λ c. if c == 92 then b'/' else c)

-- `.replace(/^\/+/, '')`
abbrev pub strip_slashes : Text → Text
strip_slashes [] = []
strip_slashes (c ∷ t) = if c == b'/' then strip_slashes t else c ∷ t

abbrev strip_prefix : (prefix t whole : Text) → Text
strip_prefix [] t whole = t
strip_prefix (c ∷ prefix) [] whole = whole
strip_prefix (c ∷ prefix) (d ∷ t) whole = if d == c then strip_prefix prefix t whole else whole

-- The key of a file on disk: without leading slashes and the folder `uploads/`.
abbrev pub storage_key_of : Text → Text
storage_key_of path = let t = strip_slashes (normalized path) in strip_prefix (codes "uploads/") t t

abbrev pub sniff_file : Env → Option (List ℕ) → Option SniffedImage
sniff_file env none = none
sniff_file env (some bytes) = sniff_image_type env.utf8 bytes

abbrev pub content_type_of : Upload → Option SniffedImage → Text
content_type_of file none = file.mime_type
content_type_of file (some image) = image.mime_type

abbrev pub actual_path : Env → Upload → Option SniffedImage → Text
actual_path env file sniffed =
    reconcile_extension file.path (env.lower (env.extname file.path)) sniffed

-- `fileRepository.save(create({ path }))`; what was done before stays if it fails.
abbrev pub save_file : Env → Text → World → Result Text × World
save_file env path w =
    if env.saves path then (ok path, record w { rows = path ∷ w.rows }) else (err fault, w)

-- The object storage takes the bytes, the temporary file goes, and the row is saved.
abbrev pub store_object :
    Env → (actual content_type : Text) → Option (List ℕ) → World → Result Text × World
store_object env actual content_type none w = (err fault, w)
store_object env actual content_type (some body) w =
    let key = storage_key_of actual in
    let stored = record w {
      disk = unlink actual w.disk;
      objects = record { key = key; content_type = content_type; body = body } ∷ w.objects;
    } in
    if env.storage_up then save_file env key stored else (err fault, w)

-- One round of the loop of `uploadFile`: the path that is stored in the table.
unfoldable pub upload_one : Env → Upload → World → Result Text × World
upload_one env file w =
    let bytes = read_file file.path w.disk in
    let sniffed = sniff_file env bytes in
    let actual = actual_path env file sniffed in
    let moved = record w { disk = rename file.path actual w.disk } in
    if not (is_image_name file.original_name)
    then (err wrong_type, w)
    else if env.is_local
    then save_file env (b'/' ∷ normalized actual) moved
    else store_object env actual (content_type_of file sniffed) bytes moved

-- The loop of `uploadFile` over the files of a form, each under the name of its field; what was
-- stored before a file that fails stays.
abbrev pub with_answer : Text → Text → Result (List (Text × Text)) → Result (List (Text × Text))
with_answer field path (ok answers) = ok ((field, path) ∷ answers)
with_answer field path (err e) = err e

abbrev pub continue_with :
    Text
    → (World → Result (List (Text × Text)) × World)
    → Result Text × World
    → Result (List (Text × Text)) × World
continue_with field next (err e, w) = (err e, w)
continue_with field next (ok path, w) = let (r, w') = next w in (with_answer field path r, w')

abbrev pub upload_each : Env → List (Text × Upload) → World → Result (List (Text × Text)) × World
upload_each env [] w = (ok [], w)
upload_each env ((field, file) ∷ files) w =
    continue_with field (upload_each env files) (upload_one env file w)

-- `uploadFile`: the paths of the new rows by field
unfoldable pub upload_file :
    Env → Option (List (Text × Upload)) → World → Result (List (Text × Text)) × World
upload_file env none w = (err select_file, w)
upload_file env (some files) w = upload_each env files w

-- `createStorageKey`
abbrev pub create_storage_key : Env → Field → Text → Text
create_storage_key env topic name =
    codes "images/topics/" ++ (env.slug_of name ++ env.lower (env.extname name))
create_storage_key env post_featured name =
    codes "images/posts/featured/post-featured-" ++ (env.suffix ++ env.lower (env.extname name))
create_storage_key env post name =
    codes "images/posts/content/"
    ++ (env.today ++ (codes "/post-" ++ (env.suffix ++ env.lower (env.extname name))))

-- `UploadPresignedDto`
pub record UploadPresigned : Type 0 where
  pub field : Field
  pub file_name : Text
  pub file_size : ℕ
  pub content_type : Text

-- The address is signed before the row is saved.
abbrev pub with_url : Text → Result Text × World → Result (Text × Text) × World
with_url url (ok key, w) = (ok (key, url), w)
with_url url (err e, w) = (err e, w)

abbrev pub signed : Env → Text → Option Text → World → Result (Text × Text) × World
signed env key none w = (err fault, w)
signed env key (some url) w = with_url url (save_file env key w)

-- `createPresignedUpload`: the path of the new row, and the address to upload to
unfoldable pub create_presigned_upload :
    Env → Option UploadPresigned → World → Result (Text × Text) × World
create_presigned_upload env none w = (err select_file, w)
create_presigned_upload env (some input) w =
    let key = create_storage_key env input.field input.file_name in
    if not (is_image_name input.file_name)
    then (err wrong_type, w)
    else if ltb env.max_file_size input.file_size
    then (err too_large, w)
    else if env.is_local
    then (err presigned_not_available, w)
    else signed env key (env.sign key input.content_type input.file_size) w
