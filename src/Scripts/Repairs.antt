-- ===== src/Scripts/Repairs.antt =====
-- The repair of the types: it agrees with the service, and a second run finds nothing.
use mathlib.Core.Option
use vethealth_backend.Base.{
  ℕ, ◌≡◌, ◌≢◌, refl, ap, sym, ◌∙◌, subst, Bool, true, ◌||◌, none, some, List, Text, codes, text_eq,
  text_eq_refl, text_eq_iff, truthy, arith, Bool-cases, Option-cases, Option, inl, inr, trim_start,
  take,
}
use vethealth_backend.Files.{sniff_svg, sniff_brand, SniffedImage, sniff_image_type, ascii_at}
use vethealth_backend.Scripts.ContentTypes.{
  sniffed_type, is_equivalent, svg_type, brand_type, Bucket, Outcome, failed, inspect_object,
  repair,
}

svg_lem : (head : Text) → svg_type head ≡ Option.map (λ i. i.mime_type) (sniff_svg head)
svg_lem head = ground arith

brand_lem :
    (brand : Text) (rest : Option SniffedImage)
    → brand_type brand (Option.map (λ i. i.mime_type) rest)
      ≡ Option.map (λ i. i.mime_type) (sniff_brand brand rest)
brand_lem brand rest = ground arith

-- The script finds the type that the service finds for an upload, for any bytes.
pub sniffed_type-eq-sniff_image_type :
    (utf8 : List ℕ → Text) (bytes : List ℕ)
    → sniffed_type utf8 bytes ≡ Option.map (λ i. i.mime_type) (sniff_image_type utf8 bytes)
unfolding sniffed_type sniff_image_type
sniffed_type-eq-sniff_image_type utf8 bytes =
    let head = trim_start (utf8 (take 1024 bytes)) in
    ground (arith, svg_lem head, brand_lem (ascii_at bytes 8 4) (sniff_svg head))

-- A type that is found is not empty.
abbrev named : Option Text → Bool
named none = true
named (some t) = truthy t

svg_type-named : (head : Text) → named (svg_type head) ≡ true
unfolding codes
svg_type-named head = ground arith

brand_type-named :
    (brand : Text) (rest : Option Text) → named rest ≡ true → named (brand_type brand rest) ≡ true
unfolding codes
brand_type-named brand rest h =
    elim (Bool-cases (text_eq brand (codes "avif") || text_eq brand (codes "avis"))) [
      | inl e ↦ rw e refl
      | inr e ↦
          elim (Bool-cases (
            text_eq brand (codes "heic")
            || (text_eq brand (codes "heix") || text_eq brand (codes "mif1")))) [
              | inl f ↦ rw (e, f) refl
              | inr f ↦ rw (e, f) h
            ]
    ]

image_types_truthy :
    (truthy (codes "image/jpeg") ≡ true)
    × (truthy (codes "image/png") ≡ true)
    × (truthy (codes "image/gif") ≡ true)
    × (truthy (codes "image/webp") ≡ true)
unfolding codes
image_types_truthy = (refl, refl, refl, refl)

sniffed_type-named :
    (utf8 : List ℕ → Text) (bytes : List ℕ) → named (sniffed_type utf8 bytes) ≡ true
unfolding sniffed_type
sniffed_type-named utf8 bytes =
    let svg = svg_type-named (trim_start (utf8 (take 1024 bytes))) in
    let brand =
      brand_type-named (ascii_at bytes 8 4) (svg_type (trim_start (utf8 (take 1024 bytes)))) svg in
    ground (arith, image_types_truthy)

is_equivalent_refl :
    (lower : Text → Text) (t : Text) → truthy t ≡ true → is_equivalent lower t t ≡ true
unfolding is_equivalent
is_equivalent_refl lower t h = rw (h, text_eq_refl) refl

module _ {W : Type 0} (bucket : Bucket W) (lower : Text → Text) (utf8 : List ℕ → Text) where
  -- Where the type of an object is stored and its bytes show a type, they agree.
  abbrev pub IsSettled : W → Text → Type 0
  IsSettled w k =
      (stored actual : Text) (bytes : List ℕ)
      → bucket.head_object k w ≡ some stored
      → bucket.read_head k w ≡ some bytes
      → sniffed_type utf8 bytes ≡ some actual
      → is_equivalent lower stored actual ≡ true

  -- A copy with the type that the bytes show settles its object.
  copied-IsSettled :
      (k t : Text) (bytes : List ℕ) (w w' : W)
      → bucket.read_head k w ≡ some bytes
      → sniffed_type utf8 bytes ≡ some t
      → bucket.copy_object k t w ≡ some w'
      → IsSettled w' k
  copied-IsSettled k t bytes w w' r f c stored actual b h r' f' =
      let s : stored ≡ t = bucket.head_object-copy k t w w' c stored h in
      let same_bytes : b ≡ bytes = cc (sym r' ∙ bucket.read_head-copy k k t w w' c ∙ r) in
      let same_type : actual ≡ t = cc (sym f' ∙ ap (sniffed_type utf8) same_bytes ∙ f) in
      let has_name : truthy t ≡ true = ap named (sym f) ∙ sniffed_type-named utf8 bytes in
      rw (s, same_type) (is_equivalent_refl lower t has_name)

  -- And it leaves the others as they were.
  copied-IsSettled_other :
      (k j t : Text) (w w' : W)
      → j ≢ k
      → bucket.copy_object k t w ≡ some w'
      → IsSettled w j
      → IsSettled w' j
  copied-IsSettled_other k j t w w' ne c h stored actual bytes s r f =
      h stored actual bytes (sym (bucket.head_object-other k j t w w' c ne) ∙ s)
        (sym (bucket.read_head-copy k j t w w' c) ∙ r) f

  copied-IsSettled_all :
      (k j t : Text) (bytes : List ℕ) (w w' : W)
      → bucket.read_head k w ≡ some bytes
      → sniffed_type utf8 bytes ≡ some t
      → bucket.copy_object k t w ≡ some w'
      → IsSettled w j
      → IsSettled w' j
  copied-IsSettled_all k j t bytes w w' r f c h = elim (Bool-cases (text_eq j k)) [
    | inl e ↦
        subst (IsSettled w') (sym ((text_eq_iff j k).0 e)) (copied-IsSettled k t bytes w w' r f c)
    | inr e ↦ copied-IsSettled_other k j t w w' (λ same. cc (sym e ∙ (text_eq_iff j k).1 same)) c h
  ]

  -- An object that the run leaves as it is, for its type.
  IsSettled-of :
      (k stored actual : Text) (bytes : List ℕ) (w : W)
      → bucket.head_object k w ≡ some stored
      → bucket.read_head k w ≡ some bytes
      → sniffed_type utf8 bytes ≡ some actual
      → is_equivalent lower stored actual ≡ true
      → IsSettled w k
  IsSettled-of k stored actual bytes w e r f q stored' actual' bytes' e' r' f' =
      let s : stored' ≡ stored = cc (sym e' ∙ e) in
      let b : bytes' ≡ bytes = cc (sym r' ∙ r) in
      let a : actual' ≡ actual = cc (sym f' ∙ ap (sniffed_type utf8) b ∙ f) in rw (s, a) q

  IsSettled-of_unknown :
      (k : Text) (bytes : List ℕ) (w : W)
      → bucket.read_head k w ≡ some bytes
      → sniffed_type utf8 bytes ≡ none
      → IsSettled w k
  IsSettled-of_unknown k bytes w r f stored' actual' bytes' e' r' f' =
      let b : bytes' ≡ bytes = cc (sym r' ∙ r) in cc (sym f' ∙ ap (sniffed_type utf8) b ∙ f)

  -- A step that does not fail settles its object, and unsettles none.
  abbrev pub Settles : Text → W → Outcome × W → Type 0
  Settles k w (outcome, w') = IsSettled w' k × ((j : Text) → IsSettled w j → IsSettled w' j)

  repair-Settles :
      (k stored actual : Text) (bytes : List ℕ) (w : W)
      → bucket.head_object k w ≡ some stored
      → bucket.read_head k w ≡ some bytes
      → sniffed_type utf8 bytes ≡ some actual
      → (repair bucket lower utf8 true k stored actual w).0 ≢ failed
      → Settles k w (repair bucket lower utf8 true k stored actual w)
  repair-Settles k stored actual bytes w e r f ne =
      elim (Bool-cases (is_equivalent lower stored actual)) [
        | inl q ↦ rw q (IsSettled-of k stored actual bytes w e r f q, λ j h. h)
        | inr q ↦ elim (Option-cases (bucket.copy_object k actual w)) [
          | inl c ↦ absurd (ne (rw (q, c) refl))
          | inr (w', c) ↦
              rw (q, c)
                (
                  copied-IsSettled k actual bytes w w' r f c,
                  λ j. copied-IsSettled_all k j actual bytes w w' r f c,
                )
        ]
      ]

  pub step-Settles :
      (k : Text) (w : W)
      → (inspect_object bucket lower utf8 true k w).0 ≢ failed
      → Settles k w (inspect_object bucket lower utf8 true k w)
  unfolding inspect_object
  step-Settles k w ne = elim (Option-cases (bucket.head_object k w)) [
    | inl e ↦ absurd (ne (rw e refl))
    | inr (stored, e) ↦ elim (Option-cases (bucket.read_head k w)) [
      | inl r ↦ absurd (ne (rw (e, r) refl))
      | inr (bytes, r) ↦ elim (Option-cases (sniffed_type utf8 bytes)) [
        | inl f ↦ rw (e, r, f) (IsSettled-of_unknown k bytes w r f, λ j h. h)
        | inr (actual, f) ↦
            let ne' : (repair bucket lower utf8 true k stored actual w).0 ≢ failed =
              λ x. ne (rw (e, r, f) x) in
            rw (e, r, f) (repair-Settles k stored actual bytes w e r f ne')
      ]
    ]
  ]
