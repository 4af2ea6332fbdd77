-- ===== src/Scripts/Copies/Complete.antt =====
-- What a run of the copy leaves in the bucket.
use vethealth_backend.Base.{
  ℕ, ◌+◌, ◌≡◌, ◌≢◌, ◌∙◌, refl, sym, ap, subst, true, false, all, ◌++◌, Option, none, some, List, [],
  ◌∷◌, length, All, text_eq, text_eq_iff, text_eq_refl, arith, Bool-cases, inl, inr,
}
use vethealth_backend.Scripts.Copies.{
  File, Bucket, World, get_object, to_object_key, mime_from_extension, put, upload_all,
}
use vethealth_backend.Scripts.Copies.Keys.{IsPath, to_object_key_injective}

-- Each file has a path, and no two of them the same.
abbrev pub UniquePaths : List File → Type 0
UniquePaths [] = Unit
UniquePaths (f ∷ files) = IsPath f.path × All (λ g. g.path ≢ f.path) files × UniquePaths files

module _ (world : World) where
  -- The object of a file stands under the key of its path, with its bytes and the type of its name.
  abbrev pub IsCopied : Bucket → File → Type 0
  IsCopied bucket f =
      get_object (to_object_key [] f.path) bucket
      ≡ some (record { content_type = mime_from_extension (world.extension f.path); body = f.body })

  put-IsCopied : (f : File) (bucket : Bucket) → IsCopied (put world [] f bucket) f
  put-IsCopied f bucket = rw (text_eq_refl (to_object_key [] f.path)) refl

  put_other :
      (f g : File) (bucket : Bucket)
      → IsPath f.path
      → IsPath g.path
      → g.path ≢ f.path
      → get_object (to_object_key [] f.path) (put world [] g bucket)
        ≡ get_object (to_object_key [] f.path) bucket
  put_other f g bucket hf hg n =
      elim (Bool-cases (text_eq (to_object_key [] g.path) (to_object_key [] f.path))) [
        | inl e ↦ absurd (n (to_object_key_injective g.path f.path hg hf ((text_eq_iff _ _).0 e)))
        | inr e ↦ rw e refl
      ]

  upload_all_other :
      (f : File) (files : List File) (n : ℕ) (bucket : Bucket)
      → IsPath f.path
      → UniquePaths files
      → All (λ g. g.path ≢ f.path) files
      → get_object (to_object_key [] f.path) (upload_all world [] files n bucket).1
        ≡ get_object (to_object_key [] f.path) bucket
  upload_all_other f [] n bucket hf u o = refl
  upload_all_other f (g ∷ files) n bucket hf (hg, _, u) o =
      elim (Bool-cases (world.takes (to_object_key [] g.path))) [
        | inl e ↦ rw e (
            upload_all_other f files (n + 1) (put world [] g bucket) hf u o.1
            ∙ put_other f g bucket hf hg o.0)
        | inr e ↦ rw e refl
      ]

  none-ne_some : {A : Type 0} {a : A} → none ≢ some a
  none-ne_some e = cc

  value_of : ℕ → Option ℕ → ℕ
  value_of n none = n
  value_of n (some m) = m

  pub upload_all-IsCopied :
      (files : List File) (n : ℕ) (bucket : Bucket) (uploaded : ℕ)
      → UniquePaths files
      → (upload_all world [] files n bucket).0 ≡ some uploaded
      → All (IsCopied (upload_all world [] files n bucket).1) files × (uploaded ≡ n + length files)
  unfolding value_of
  upload_all-IsCopied [] n bucket uploaded u e = (tt, omega (arith, ap (value_of n) e))
  upload_all-IsCopied (f ∷ files) n bucket uploaded (hf, o, u) e =
      elim (Bool-cases (world.takes (to_object_key [] f.path))) [
        | inl a ↦
            let next = put world [] f bucket in
            let step : upload_all world [] (f ∷ files) n bucket
                ≡ upload_all world [] files (n + 1) next =
              rw a refl in
            let (all, count) = upload_all-IsCopied files (n + 1) next uploaded u (rw a at e) in
            (
              subst (λ r. All (IsCopied r.1) (f ∷ files)) (sym step)
                  (upload_all_other f files (n + 1) next hf u o ∙ put-IsCopied f bucket, all),
              omega (arith, count),
            )
        | inr a ↦ absurd (none-ne_some (rw a at e))
      ]

  all_paths : (files : List File) → UniquePaths files → All (λ f. IsPath f.path) files
  all_paths [] u = tt
  all_paths (f ∷ files) (h, o, u) = (h, all_paths files u)

  All-suffix : {A : Type 0} (P : A → Type 0) (xs ys : List A) → All P (xs ++ ys) → All P ys
  All-suffix P [] ys h = h
  All-suffix P (x ∷ xs) ys h = All-suffix P xs ys h.1

  -- The object of a file is the same in both buckets.
  abbrev pub IsSame : (bucket bucket' : Bucket) → File → Type 0
  IsSame bucket bucket' f =
      get_object (to_object_key [] f.path) bucket' ≡ get_object (to_object_key [] f.path) bucket

  All-refl : (bucket : Bucket) (files : List File) → All (IsSame bucket bucket) files
  All-refl bucket [] = tt
  All-refl bucket (f ∷ files) = (refl, All-refl bucket files)

  untouched_put :
      (f : File) (gs : List File) (bucket bucket' : Bucket)
      → IsPath f.path
      → All (λ g. IsPath g.path) gs
      → All (λ g. g.path ≢ f.path) gs
      → All (IsSame (put world [] f bucket) bucket') gs
      → All (IsSame bucket bucket') gs
  untouched_put f [] bucket bucket' h hs o s = tt
  untouched_put f (g ∷ gs) bucket bucket' h hs o s = (
    s.0 ∙ put_other g f bucket hs.0 h (λ e. o.0 (sym e)),
    untouched_put f gs bucket bucket' h hs.1 o.1 s.1,
  )

  -- An upload that stopped: the files before the one that was refused are copied, that one and those
  -- behind it are not.
  pub record IsStopped (files : List File) (bucket bucket' : Bucket) : Type 0 where
    pub done : List File
    pub refused : File
    pub rest : List File
    pub files_of : files ≡ done ++ (refused ∷ rest)
    pub taken : all (λ f. world.takes (to_object_key [] f.path)) done ≡ true
    pub not_taken : world.takes (to_object_key [] refused.path) ≡ false
    pub copied : All (IsCopied bucket') done
    pub untouched : All (IsSame bucket bucket') (refused ∷ rest)

  pub upload_all-IsStopped :
      (files : List File) (n : ℕ) (bucket : Bucket)
      → UniquePaths files
      → (upload_all world [] files n bucket).0 ≡ none
      → IsStopped files bucket (upload_all world [] files n bucket).1
  upload_all-IsStopped [] n bucket u e = absurd (none-ne_some (sym e))
  upload_all-IsStopped (f ∷ files) n bucket (hf, o, u) e =
      elim (Bool-cases (world.takes (to_object_key [] f.path))) [
        | inl a ↦
            let next = put world [] f bucket in
            let step : upload_all world [] (f ∷ files) n bucket
                ≡ upload_all world [] files (n + 1) next =
              rw a refl in
            let s = upload_all-IsStopped files (n + 1) next u (rw a at e) in
            subst (λ r. IsStopped (f ∷ files) bucket r.1) (sym step)
              (record {
                done = f ∷ s.done;
                refused = s.refused;
                rest = s.rest;
                files_of = ap (λ fs. f ∷ fs) s.files_of;
                taken = rw a s.taken;
                not_taken = s.not_taken;
                copied = (
                  upload_all_other f files (n + 1) next hf u o ∙ put-IsCopied f bucket,
                  s.copied,
                );
                untouched =
                    untouched_put f (s.refused ∷ s.rest) bucket
                      (upload_all world [] files (n + 1) next).1 hf
                      (All-suffix (λ g. IsPath g.path) s.done (s.refused ∷ s.rest)
                        (subst (All (λ g. IsPath g.path)) s.files_of (all_paths files u)))
                      (All-suffix (λ g. g.path ≢ f.path) s.done (s.refused ∷ s.rest)
                        (subst (All (λ g. g.path ≢ f.path)) s.files_of o))
                      s.untouched;
              })
        | inr a ↦
            subst (λ r. IsStopped (f ∷ files) bucket r.1) (sym (stopped f files n bucket a))
              (record {
                done = [];
                refused = f;
                rest = files;
                files_of = refl;
                taken = refl;
                not_taken = a;
                copied = tt;
                untouched = All-refl bucket (f ∷ files);
              })
      ]
    where
      stopped :
          (f : File) (files : List File) (n : ℕ) (bucket : Bucket)
          → world.takes (to_object_key [] f.path) ≡ false
          → upload_all world [] (f ∷ files) n bucket ≡ (none, bucket)
      stopped f files n bucket a = rw a refl
