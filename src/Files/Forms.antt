-- ===== src/Files/Forms.antt =====
-- What `uploadFile` stores of a whole form.
use vethealth_backend.Base.{
  ℕ, ◌≡◌, ◌≢◌, refl, ap, sym, ◌∙◌, true, if◌then◌else◌, Bool, not, false, Option, none, some, List,
  [], ◌∷◌, map, Text, Bool-cases, inl, inr,
}
use vethealth_backend.Files.{is_image_name}
use vethealth_backend.Files.Service.{
  Error, Result, ok, err, Upload, StoredObject, World, Env, read_file, sniff_file, actual_path,
  rename, unlink, storage_key_of, save_file, content_type_of, upload_one, store_object,
  continue_with, with_answer, upload_each, upload_file,
}

-- The list with more elements before it, the last of them first.
abbrev pub push_all {ℓ} : {A : Type ℓ} → (new old : List A) → List A
push_all [] old = old
push_all (x ∷ new) old = push_all new (x ∷ old)

abbrev pub with_orphan : Option StoredObject → List StoredObject → List StoredObject
with_orphan none objects = objects
with_orphan (some o) objects = o ∷ objects

-- An object without a row is one whose row the database did not save.
abbrev pub IsUnsaved : Env → Option StoredObject → Type 0
IsUnsaved env none = Unit
IsUnsaved env (some o) = env.saves o.key ≡ false

-- The objects that a form stored with their rows, and at most one more, the last, without its row.
pub record IsMirrored (env : Env) (w : World) (r : Result (List (Text × Text))) (w' : World)
    : Type 0 where
  pub new : List StoredObject
  pub orphan : Option StoredObject
  pub unsaved : IsUnsaved env orphan
  pub objects : w'.objects ≡ with_orphan orphan (push_all new w.objects)
  pub rows : w'.rows ≡ push_all (map (λ o. o.key) new) w.rows
  pub answered :
      (answers : List (Text × Text))
      → r ≡ ok answers
      → (orphan ≡ none) × (map (λ a. a.1) answers ≡ map (λ o. o.key) new)

-- One file is stored with its row, or no row is, and the object only where the row was not saved.
abbrev IsStep : Env → List StoredObject → List Text → Result Text × World → Type 0
IsStep env objects rows (err e, w) =
    (orphan : Option StoredObject) × IsUnsaved env orphan
    × (w.objects ≡ with_orphan orphan objects)
    × (w.rows ≡ rows)
IsStep env objects rows (ok key, w) =
    (o : StoredObject) × (o.key ≡ key) × (w.objects ≡ o ∷ objects) × (w.rows ≡ key ∷ rows)

if-IsStep :
    (env : Env) (objects : List StoredObject) (rows : List Text) (b : Bool)
    (r s : Result Text × World)
    → IsStep env objects rows r
    → IsStep env objects rows s
    → IsStep env objects rows (if b then r else s)
if-IsStep env objects rows true r s p q = p
if-IsStep env objects rows false r s p q = q

save_file-IsStep :
    (env : Env) (o : StoredObject) (objects : List StoredObject) (w : World)
    → w.objects ≡ o ∷ objects
    → IsStep env objects w.rows (save_file env o.key w)
save_file-IsStep env o objects w e = elim (Bool-cases (env.saves o.key)) [
  | inl h ↦ rw h (o, refl, e, refl)
  | inr h ↦ rw h (some o, h, e, refl)
]

store_object-IsStep :
    (env : Env) (actual content_type : Text) (bytes : Option (List ℕ)) (w : World)
    → IsStep env w.objects w.rows (store_object env actual content_type bytes w)
store_object-IsStep env actual content_type none w = (none, tt, refl, refl)
store_object-IsStep env actual content_type (some body) w =
    let o : StoredObject = record {
      key = storage_key_of actual;
      content_type = content_type;
      body = body;
    } in
    let stored : World = record w { disk = unlink actual w.disk; objects = o ∷ w.objects } in
    if-IsStep env w.objects w.rows env.storage_up _ _ (save_file-IsStep env o w.objects stored refl)
      (none, tt, refl, refl)

upload_one-IsStep :
    (env : Env) (file : Upload) (w : World)
    → env.is_local ≡ false
    → IsStep env w.objects w.rows (upload_one env file w)
unfolding upload_one
upload_one-IsStep env file w l =
    let bytes = read_file file.path w.disk in
    let sniffed = sniff_file env bytes in
    let actual = actual_path env file sniffed in
    let moved : World = record w { disk = rename file.path actual w.disk } in
    if-IsStep env w.objects w.rows (not (is_image_name file.original_name)) _ _
      (none, tt, refl, refl)
      (rw l (store_object-IsStep env actual (content_type_of file sniffed) bytes moved))

err-ne_ok : {A : Type 0} {e : Error} {a : A} → err e ≢ ok a
err-ne_ok h = cc

-- A form that fails before it stores anything.
IsMirrored-err :
    (env : Env) (w w' : World) (e : Error) (orphan : Option StoredObject)
    → IsUnsaved env orphan
    → w'.objects ≡ with_orphan orphan w.objects
    → w'.rows ≡ w.rows
    → IsMirrored env w (err e) w'
IsMirrored-err env w w' e orphan u o r = record {
  new = [];
  orphan = orphan;
  unsaved = u;
  objects = o;
  rows = r;
  answered = λ answers h. absurd (err-ne_ok h);
}

abbrev paths_of : Result (List (Text × Text)) → List Text
paths_of (ok answers) = map (λ a. a.1) answers
paths_of (err e) = []

with_answer-answered :
    (field key : Text) (keys : List Text) (r : Result (List (Text × Text)))
    → ((answers : List (Text × Text)) → r ≡ ok answers → map (λ a. a.1) answers ≡ keys)
    → (answers : List (Text × Text)) → with_answer field key r ≡ ok answers
    → map (λ a. a.1) answers ≡ key ∷ keys
with_answer-answered field key keys (err e) f answers h = absurd (err-ne_ok h)
with_answer-answered field key keys (ok rest) f answers h =
    sym (ap paths_of h) ∙ ap (λ ks. key ∷ ks) (f rest refl)

continue_with-IsMirrored :
    (env : Env) (field : Text) (next : World → Result (List (Text × Text)) × World) (w : World)
    (r : Result Text × World)
    → IsStep env w.objects w.rows r
    → ((w1 : World) → IsMirrored env w1 (next w1).0 (next w1).1)
    → IsMirrored env w (continue_with field next r).0 (continue_with field next r).1
continue_with-IsMirrored env field next w (err e, w') (orphan, u, o, r) f =
    IsMirrored-err env w w' e orphan u o r
continue_with-IsMirrored env field next w (ok key, w1) (o, k, os, rs) f =
    let rest = f w1 in
    record {
      new = o ∷ rest.new;
      orphan = rest.orphan;
      unsaved = rest.unsaved;
      objects = rest.objects ∙ ap (λ xs. with_orphan rest.orphan (push_all rest.new xs)) os;
      rows =
          rest.rows ∙ ap (push_all (map (λ x. x.key) rest.new)) (rs ∙ ap (λ x. x ∷ w.rows) (sym k));
      answered = λ answers h. (
        none_left (next w1).0 rest.answered answers h,
        with_answer-answered field key (map (λ x. x.key) rest.new) (next w1).0
              (λ a e. (rest.answered a e).1) answers h
            ∙ ap (λ x. x ∷ map (λ y. y.key) rest.new) (sym k),
      );
    }
  where
    none_left :
        {orphan : Option StoredObject} {keys : List Text} (r : Result (List (Text × Text)))
        → ((answers : List (Text × Text))
            → r ≡ ok answers
            → (orphan ≡ none) × (map (λ a. a.1) answers ≡ keys))
        → (answers : List (Text × Text)) → with_answer field key r ≡ ok answers
        → orphan ≡ none
    none_left (err e) g answers h = absurd (err-ne_ok h)
    none_left (ok rest) g answers h = (g rest refl).0

upload_each-IsMirrored :
    (env : Env) (files : List (Text × Upload)) (w : World)
    → env.is_local ≡ false
    → IsMirrored env w (upload_each env files w).0 (upload_each env files w).1
upload_each-IsMirrored env [] w l = record {
  new = [];
  orphan = none;
  unsaved = tt;
  objects = refl;
  rows = refl;
  answered = λ answers h. (refl, sym (ap paths_of h));
}
upload_each-IsMirrored env ((field, file) ∷ files) w l =
    continue_with-IsMirrored env field (upload_each env files) w (upload_one env file w)
      (upload_one-IsStep env file w l) (λ w1. upload_each-IsMirrored env files w1 l)

-- Over object storage, every new row of a form has its object and every new object its row, under
-- the same keys and in the same order, but for one object at most: where the database refuses a row,
-- the form fails and the object that was stored last is left without one. The answer to a form that
-- is stored has these keys, and leaves no object without its row.
pub upload_file-IsMirrored :
    (env : Env) (form : Option (List (Text × Upload))) (w : World)
    → env.is_local ≡ false
    → IsMirrored env w (upload_file env form w).0 (upload_file env form w).1
unfolding upload_file
upload_file-IsMirrored env none w l = IsMirrored-err env w w _ none tt refl refl
upload_file-IsMirrored env (some files) w l = upload_each-IsMirrored env files w l
