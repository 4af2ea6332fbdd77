-- ===== src/Repository/Tombstones.antt =====
-- Tables whose deletions only mark the rows, as `softDelete` does: they too meet the laws of the
-- interface.
use vethealth_backend.Base.{
  ◌≡◌, refl, Bool, true, false, not, ◌&&◌, Option, none, some, List, [], ◌∷◌, ◌++◌, map, Text,
  arith, filter, first, if◌then◌else◌,
}
use vethealth_backend.Repository.{Repository, update_rows}

pub record Stored (R : Type 0) : Type 0 where
  pub row : R
  pub deleted : Bool

module _ {R : Type 0} where
  abbrev pub live : List (Stored R) → List R
  live [] = []
  live (c ∷ cells) = if c.deleted then live cells else c.row ∷ live cells

  -- The search passes over the rows that are marked.
  abbrev pub search_live : (R → Bool) → List (Stored R) → Option R
  search_live p [] = none
  search_live p (c ∷ cells) =
      let rest = search_live p cells in if not c.deleted && p c.row then some c.row else rest

  abbrev pub edit : (R → Bool) → (R → R) → List (Stored R) → List (Stored R)
  edit p f = map (λ c. if p c.row then record c { row = f c.row } else c)

  abbrev pub mark : (R → Bool) → List (Stored R) → List (Stored R)
  mark p = map (λ c. if p c.row then record c { deleted = true } else c)

  pub search_live-live : (p : R → Bool) (s : List (Stored R)) → search_live p s ≡ first p (live s)
  search_live-live p [] = refl
  search_live-live p (c ∷ cells) = ground (arith, search_live-live p cells)

  pub live-append :
      (s : List (Stored R)) (r : R)
      → live (s ++ (record { row = r; deleted = false } ∷ [])) ≡ live s ++ (r ∷ [])
  live-append [] r = refl
  live-append (c ∷ cells) r = ground (arith, live-append cells r)

  pub live-edit :
      (p : R → Bool) (f : R → R) (s : List (Stored R))
      → live (edit p f s) ≡ update_rows p f (live s)
  live-edit p f [] = refl
  live-edit p f (c ∷ cells) = ground (arith, live-edit p f cells)

  pub live-mark :
      (p : R → Bool) (s : List (Stored R)) → live (mark p s) ≡ filter (λ r. not (p r)) (live s)
  live-mark p [] = refl
  live-mark p (c ∷ cells) = ground (arith, live-mark p cells)

abbrev pub tombstones :
    {R W : Type 0} (fits : W → R → Bool) (has : Text → R → Bool)
    → Repository R W (List (Stored R)) fits has
tombstones fits has = record {
  rows = live;
  find_one = λ w s. search_live (fits w) s;
  insert = λ r s. s ++ (record { row = r; deleted = false } ∷ []);
  update = λ k f s. edit (has k) f s;
  remove = λ w s. mark (fits w) s;
  find_one-rows = λ w s. search_live-live (fits w) s;
  rows-insert = λ r s. live-append s r;
  rows-update = λ k f s h. live-edit (has k) f s;
  rows-remove = λ w s. live-mark (fits w) s;
}
