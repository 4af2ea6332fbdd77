-- ===== src/Files/Uploads.antt =====
-- What is stored of an upload.
use vethealth_backend.Base.{
  ℕ, ◌≤◌, ◌≡◌, refl, inl, inr, true, false, Option, none, some, List, ◌∷◌, Text, arith,
  Option-cases,
}
use vethealth_backend.Files.{is_image_name}
use vethealth_backend.Files.Service.{
  Error, ok, err, Upload, World, Env, read_file, sniff_file, content_type_of, actual_path,
  create_storage_key, UploadPresigned, create_presigned_upload,
}

-- What an upload to the object storage leaves behind.
pub record IsStored (env : Env) (file : Upload) (w w' : World) (key : Text) : Type 0 where
  pub bytes : List ℕ
  pub read : read_file file.path w.disk ≡ some bytes
  pub object :
      w'.objects
      ≡ record {
        key = key;
        content_type = content_type_of file (sniff_file env (some bytes));
        body = bytes;
      }
        ∷ w.objects
  pub row : w'.rows ≡ key ∷ w.rows
  pub cleared : read_file (actual_path env file (sniff_file env (some bytes))) w'.disk ≡ none

-- A presigned upload that succeeds is for a name of an image, no larger than allowed and on object
-- storage; the new row has the key that was signed. In every other case nothing is stored.
pub create_presigned_upload_sound :
    (env : Env) (input : Option UploadPresigned) (w : World)
    → ((x : Error)
        → (create_presigned_upload env input w).0 ≡ err x
        → (create_presigned_upload env input w).1 ≡ w)
      × ((key url : Text)
          → (create_presigned_upload env input w).0 ≡ ok (key, url)
          → (i : UploadPresigned) × (input ≡ some i)
            × (is_image_name i.file_name ≡ true)
            × (i.file_size ≤ env.max_file_size)
            × (env.is_local ≡ false)
            × (env.sign key i.content_type i.file_size ≡ some url)
            × ((create_presigned_upload env input w).1.rows ≡ key ∷ w.rows))
unfolding create_presigned_upload
create_presigned_upload_sound env none w = (λ x e. refl, λ key url e. absurd (ground arith))
create_presigned_upload_sound env (some i) w = (
  λ x e. ground arith,
  λ key url e.
      let k = create_storage_key env i.field i.file_name in
      elim (Option-cases (env.sign k i.content_type i.file_size)) [
        | inl f ↦ absurd (ground arith)
        | inr (u, f) ↦
            (i, refl, ground arith, ground arith, ground arith, ground arith, ground arith)
      ],
)
