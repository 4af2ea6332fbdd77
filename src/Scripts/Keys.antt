-- ===== src/Scripts/Keys.antt =====
-- The key of a file from its public address, and a second normalization.
use vethealth_backend.Base.{
  subst, ◌≢◌, ℕ, ◌+◌, ◌≡◌, refl, ap, Bool, true, false, ◌&&◌, ◌||◌, none, some, [], ◌∷◌, ◌++◌, all,
  Text, codes, is_space, leb, ◌==◌, arith, Bool-cases, inl, inr,
}
use vethealth_backend.Files.Paths.{
  FileConfig, update_path, public_base, is_absolute, starts_with_slash, strip_leading,
}
use vethealth_backend.Scripts.References.{
  starts_allowed, is_allowed, key_here, behind, allowed_part, find_key, normalize_file_key,
  starts_in,
}

pub find_key-append : (s t : Text) → starts_in s t ≡ false → find_key (s ++ t) ≡ find_key t
find_key-append [] t h = refl
find_key-append (c ∷ s) t h = ground (arith, find_key-append s t)

pub allowed_part-all : (t : Text) → all is_allowed t ≡ true → allowed_part t ≡ t
allowed_part-all [] h = refl
allowed_part-all (c ∷ t) h = ground (arith, allowed_part-all t)

pub key_here-ne_nil : key_here [] ≢ true
unfolding key_here codes
key_here-ne_nil h = cc

-- A key starts with a letter.
pub key_here-first :
    (c : ℕ) (t : Text) → key_here (c ∷ t) ≡ true → (c == 105 || c + 32 == 105) ≡ true
unfolding key_here codes
key_here-first c t h = ground arith

-- So it is no address, and no path from the root.
pub key_here-relative :
    (t : Text)
    → key_here t ≡ true
    → (is_absolute t ≡ false) × (starts_with_slash t ≡ false) × (strip_leading t ≡ t)
unfolding codes
key_here-relative [] h = absurd (key_here-ne_nil h)
key_here-relative (c ∷ t) h =
    let first = key_here-first c t h in (ground arith, ground arith, ground arith)

pub find_key-key : (t : Text) → key_here t ≡ true → all is_allowed t ≡ true → find_key t ≡ some t
find_key-key [] h a = absurd (key_here-ne_nil h)
find_key-key (c ∷ t) h a = rw (h, allowed_part-all (c ∷ t) a) refl

pub public_path :
    (config : FileConfig) (key : Text)
    → config.is_local ≡ false
    → key_here key ≡ true
    → (update_path config key).path ≡ public_base config ++ (b'/' ∷ key)
unfolding update_path
public_path config key l h = let (a, s, e) = key_here-relative key h in rw (a, s, l, e) refl

append_assoc : (s : Text) (c : ℕ) (t : Text) → s ++ (c ∷ t) ≡ (s ++ (c ∷ [])) ++ t
append_assoc [] c t = refl
append_assoc (d ∷ s) c t = ap (λ u. d ∷ u) (append_assoc s c t)

-- The public address that a loaded file has for its key is taken back to the key. The key has the
-- form of the program's keys, with allowed characters only, files are not stored locally, and no
-- key starts in the base of the address.
pub normalize_file_key-update_path :
    (config : FileConfig) (key : Text)
    → config.is_local ≡ false
    → key_here key ≡ true
    → all is_allowed key ≡ true
    → starts_in (public_base config ++ (b'/' ∷ [])) key ≡ false
    → normalize_file_key (update_path config key).path ≡ key
unfolding normalize_file_key
normalize_file_key-update_path config key l h a n =
    rw
      (
        public_path config key l h,
        append_assoc (public_base config) b'/' key,
        find_key-append (public_base config ++ (b'/' ∷ [])) key n,
        find_key-key key h a,
      )
      refl

pub allowed_part-allowed : (t : Text) → all is_allowed (allowed_part t) ≡ true
allowed_part-allowed [] = refl
allowed_part-allowed (c ∷ t) = ground (arith, allowed_part-allowed t)

pub allowed_letter :
    (c d : ℕ)
    → is_allowed c ≡ true
    → (d == c || (leb 97 c && (leb c 122 && d + 32 == c))) ≡ true
    → is_allowed d ≡ true
unfolding is_space
allowed_letter c d a h = ground arith

behind-allowed_part :
    (word t : Text)
    → all is_allowed word ≡ true
    → starts_allowed (behind word t) ≡ true
    → starts_allowed (behind word (allowed_part t)) ≡ true
behind-allowed_part [] [] a h = cc
behind-allowed_part [] (d ∷ t) a h = rw h h
behind-allowed_part (c ∷ word) [] a h = cc
behind-allowed_part (c ∷ word) (d ∷ t) a h =
    ground (arith, behind-allowed_part word t, allowed_letter c d)

words_allowed :
    (all is_allowed (codes "images/posts/") ≡ true)
    × (all is_allowed (codes "images/topics/") ≡ true)
unfolding codes is_space
words_allowed = (refl, refl)

or_true : (b : Bool) → (b || true) ≡ true
or_true true = refl
or_true false = refl

pub key_here-allowed_part : (t : Text) → key_here t ≡ true → key_here (allowed_part t) ≡ true
unfolding key_here
key_here-allowed_part t h = elim (Bool-cases (starts_allowed (behind (codes "images/posts/") t))) [
  | inl p ↦ rw (behind-allowed_part (codes "images/posts/") t words_allowed.0 p) refl
  | inr p ↦
      let q : starts_allowed (behind (codes "images/topics/") t) ≡ true = rw p at h in
      rw (behind-allowed_part (codes "images/topics/") t words_allowed.1 q) (or_true _)
]

none-ne_some : {k : Text} → none ≢ some k
none-ne_some e = cc

pub find_key_sound :
    (t k : Text) → find_key t ≡ some k → (key_here k ≡ true) × (all is_allowed k ≡ true)
find_key_sound [] k e = absurd (none-ne_some e)
find_key_sound (c ∷ t) k e = elim (Bool-cases (key_here (c ∷ t))) [
  | inl h ↦
      let same : allowed_part (c ∷ t) ≡ k = cc (rw h at e) in
      subst (λ s. (key_here s ≡ true) × (all is_allowed s ≡ true)) same
        (key_here-allowed_part (c ∷ t) h, allowed_part-allowed (c ∷ t))
  | inr h ↦ find_key_sound t k (rw h at e)
]

-- A path with a key in it is made the key, which is one, and to normalize it again changes nothing.
pub normalize_file_key_twice :
    (t k : Text)
    → find_key t ≡ some k
    → (normalize_file_key t ≡ k)
      × (key_here k ≡ true)
      × (normalize_file_key (normalize_file_key t) ≡ normalize_file_key t)
unfolding normalize_file_key
normalize_file_key_twice t k e =
    let (h, a) = find_key_sound t k e in (rw e refl, h, rw e (rw (find_key-key k h a) refl))
