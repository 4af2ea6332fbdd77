-- ===== src/Repository/Memory.antt =====
-- Tables held in memory: the laws of the interface can be met.
use vethealth_backend.Base.{refl, Bool, not, List, [], ◌∷◌, ◌++◌, Text, filter, first}
use vethealth_backend.Repository.{Repository, update_rows}

abbrev pub memory :
    {R W : Type 0} (fits : W → R → Bool) (has : Text → R → Bool) → Repository R W (List R) fits has
memory fits has = record {
  rows = λ s. s;
  find_one = λ w s. first (fits w) s;
  insert = λ r s. s ++ (r ∷ []);
  update = λ k f s. update_rows (has k) f s;
  remove = λ w s. filter (λ r. not (fits w r)) s;
  find_one-rows = λ w s. refl;
  rows-insert = λ r s. refl;
  rows-update = λ k f s h. refl;
  rows-remove = λ w s. refl;
}
