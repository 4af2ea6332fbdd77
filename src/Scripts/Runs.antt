-- ===== src/Scripts/Runs.antt =====
-- Whole runs of the repair.
use vethealth_backend.Base.{
  ℕ, ◌+◌, ◌≤◌, ◌≡◌, ◌≢◌, refl, sym, ◌∙◌, subst, Bool, true, List, [], ◌∷◌, All, Text, length, arith,
  Option-cases, inl, inr,
}
use vethealth_backend.Scripts.ContentTypes.{
  sniffed_type, Bucket, Outcome, unknown, ok, fixed, failed, Stats, no_stats, count, inspect_object,
  inspect_all,
}
use vethealth_backend.Scripts.Repairs.{IsSettled, step-Settles}

count-le-failed : (o : Outcome) (s : Stats) → s.failed ≤ (count o s).failed
count-le-failed unknown s = omega arith
count-le-failed ok s = omega arith
count-le-failed fixed s = omega arith
count-le-failed failed s = omega arith

ne_failed : (o : Outcome) (s : Stats) → (count o s).failed ≡ 0 → o ≢ failed
ne_failed unknown s e = λ x. cc
ne_failed ok s e = λ x. cc
ne_failed fixed s e = λ x. cc
ne_failed failed s e = absurd (omega arith)

-- The numbers of a run add up.
abbrev pub IsSum : Stats → Type 0
IsSum s = s.total ≡ s.ok + (s.fixed + (s.unknown + s.failed))

count-IsSum : (o : Outcome) (s : Stats) → IsSum s → IsSum (count o s)
count-IsSum unknown s h = omega (arith, h)
count-IsSum ok s h = omega (arith, h)
count-IsSum fixed s h = omega (arith, h)
count-IsSum failed s h = omega (arith, h)

count-total : (o : Outcome) (s : Stats) → (count o s).total ≡ s.total + 1
count-total unknown s = refl
count-total ok s = refl
count-total fixed s = refl
count-total failed s = refl

module _ {W : Type 0} (bucket : Bucket W) (lower : Text → Text) (utf8 : List ℕ → Text) where
  failed_grows :
      (execute : Bool) (keys : List Text) (s : Stats) (w : W)
      → s.failed ≤ (inspect_all bucket lower utf8 execute keys s w).0.failed
  unfolding inspect_all
  failed_grows execute [] s w = omega arith
  failed_grows execute (k ∷ keys) s w =
      let (o, w') = inspect_object bucket lower utf8 execute k w in
      omega (arith, count-le-failed o s, failed_grows execute keys (count o s) w')

  -- A run in which nothing fails settles its objects, and unsettles none.
  run-IsSettled :
      (keys : List Text) (s : Stats) (w : W)
      → (inspect_all bucket lower utf8 true keys s w).0.failed ≡ 0
      → let w' = (inspect_all bucket lower utf8 true keys s w).1 in
        All (IsSettled bucket lower utf8 w') keys
        × ((j : Text) → IsSettled bucket lower utf8 w j → IsSettled bucket lower utf8 w' j)
  unfolding inspect_all
  run-IsSettled [] s w e = (tt, λ j h. h)
  run-IsSettled (k ∷ keys) s w e =
      let (o, w') = inspect_object bucket lower utf8 true k w in
      let none_failed : (count o s).failed ≡ 0 =
        omega (arith, e, failed_grows true keys (count o s) w') in
      let (own, others) = step-Settles bucket lower utf8 k w (ne_failed o s none_failed) in
      let (rest, keep) = run-IsSettled keys (count o s) w' e in
      ((keep k own, rest), λ j h. keep j (others j h))

  -- A settled object is left alone, and not counted as repaired.
  inspect_object-IsSettled :
      (execute : Bool) (k : Text) (s : Stats) (w : W)
      → IsSettled bucket lower utf8 w k
      → ((inspect_object bucket lower utf8 execute k w).1 ≡ w)
        × ((count (inspect_object bucket lower utf8 execute k w).0 s).fixed ≡ s.fixed)
  unfolding inspect_object
  inspect_object-IsSettled execute k s w h = elim (Option-cases (bucket.head_object k w)) [
    | inl e ↦ rw e (refl, refl)
    | inr (stored, e) ↦ elim (Option-cases (bucket.read_head k w)) [
      | inl r ↦ rw (e, r) (refl, refl)
      | inr (bytes, r) ↦ elim (Option-cases (sniffed_type utf8 bytes)) [
        | inl f ↦ rw (e, r, f) (refl, refl)
        | inr (actual, f) ↦ rw (e, r, f, h stored actual bytes e r f) (refl, refl)
      ]
    ]
  ]

  inspect_all-IsSettled :
      (execute : Bool) (keys : List Text) (s : Stats) (w : W)
      → All (IsSettled bucket lower utf8 w) keys
      → ((inspect_all bucket lower utf8 execute keys s w).0.fixed ≡ s.fixed)
        × ((inspect_all bucket lower utf8 execute keys s w).1 ≡ w)
  unfolding inspect_all
  inspect_all-IsSettled execute [] s w h = (refl, refl)
  inspect_all-IsSettled execute (k ∷ keys) s w h =
      let (o, w') = inspect_object bucket lower utf8 execute k w in
      let (same, fixed_same) = inspect_object-IsSettled execute k s w h.0 in
      let (f, e) =
        inspect_all-IsSettled execute keys (count o s) w'
          (subst (λ v. All (IsSettled bucket lower utf8 v) keys) (sym same) h.1) in
      (f ∙ fixed_same, e ∙ same)

  -- Behind a run that applies its repairs and in which nothing fails, a second run over the same
  -- objects finds nothing to repair and leaves the bucket as it is, whether it applies repairs or
  -- not, and whatever can be read of the objects.
  pub inspect_all_twice :
      (execute : Bool) (keys : List Text) (w : W)
      → (inspect_all bucket lower utf8 true keys no_stats w).0.failed ≡ 0
      → let w' = (inspect_all bucket lower utf8 true keys no_stats w).1 in
        ((inspect_all bucket lower utf8 execute keys no_stats w').0.fixed ≡ 0)
        × ((inspect_all bucket lower utf8 execute keys no_stats w').1 ≡ w')
  inspect_all_twice execute keys w e =
      let w' = (inspect_all bucket lower utf8 true keys no_stats w).1 in
      inspect_all-IsSettled execute keys no_stats w' (run-IsSettled keys no_stats w e).0

  sums :
      (execute : Bool) (keys : List Text) (s : Stats) (w : W)
      → IsSum s
      → IsSum (inspect_all bucket lower utf8 execute keys s w).0
        × ((inspect_all bucket lower utf8 execute keys s w).0.total ≡ s.total + length keys)
  unfolding inspect_all
  sums execute [] s w h = (h, omega arith)
  sums execute (k ∷ keys) s w h =
      let (o, w') = inspect_object bucket lower utf8 execute k w in
      let (sum, total) = sums execute keys (count o s) w' (count-IsSum o s h) in
      (sum, omega (arith, total, count-total o s))
