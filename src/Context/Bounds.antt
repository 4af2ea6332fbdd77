-- ===== src/Context/Bounds.antt =====
-- The length of a prepared text.
use vethealth_backend.Base.{
  ℕ, ◌+◌, ◌-◌, ◌*◌, ◌/◌, ◌≤◌, ◌<◌, ◌≡◌, refl, subst, ◌↔◌, true, List, [], ◌∷◌, ◌++◌, map, length,
  length-append, length-take, length-drop, take, drop, All, Text, codes, join, trim, arith, ltb,
  if◌then◌else◌,
}
use native.Mathlib.Nat.{mul-div-le, le-div_iff_mul-le}
use vethealth_backend.Context.{
  max_chars, take_last, marker, outline_of, selected_of, excerpt, three_parts, budget_of,
  excerpts_text, headings_of, sections_of, shortened, prepare_seo_context,
}

length-marker : length marker ≡ 32
unfolding marker codes
length-marker = refl

length-title : length (codes "Структура матеріалу:") ≡ 20
unfolding codes
length-title = refl

length-outline_le : (headings : List Text) → length (outline_of headings) ≤ 2423
length-outline_le [] = omega arith
length-outline_le (h ∷ headings) =
    let body = join (10 ∷ []) (h ∷ headings) in
    omega (
      arith,
      length-title,
      length-append (codes "Структура матеріалу:") (10 ∷ (take 2400 body ++ (10 ∷ 10 ∷ []))),
      length-append (take 2400 body) (10 ∷ 10 ∷ []),
      length-take 2400 body,
    )

length-take_last_le : (n : ℕ) (t : Text) → 0 < n → length (take_last n t) ≤ n
length-take_last_le n t h = ground (arith, length-drop (length t - n) t)

length-excerpt_le :
    (budget : ℕ) (section : Text) → 2 ≤ budget → length (excerpt budget section) ≤ budget + 32
length-excerpt_le budget section h =
    let start = take ((budget + 1) / 2) section in
    let end = take_last (budget / 2) section in
    ground (
      arith,
      length-append start (marker ++ end),
      length-append marker end,
      length-marker,
      length-take ((budget + 1) / 2) section,
      length-take_last_le (budget / 2) section (omega arith),
    )

All-excerpt :
    (budget : ℕ) (sections : List Text)
    → 2 ≤ budget
    → All (λ t. length t ≤ budget + 32) (map (excerpt budget) sections)
All-excerpt budget [] h = tt
All-excerpt budget (s ∷ sections) h = (length-excerpt_le budget s h, All-excerpt budget sections h)

length-join_le :
    (sep : Text) (b : ℕ) (t : Text) (parts : List Text)
    → All (λ t. length t ≤ b + 32) (t ∷ parts)
    → length sep ≡ 32
    → length (join sep (t ∷ parts)) + 32 ≤ length (t ∷ parts) * b + length (t ∷ parts) * 64
unfolding join
length-join_le sep b t [] h e = omega (arith, h.0)
length-join_le sep b t (next ∷ parts) h e = omega (
  arith,
  h.0,
  e,
  length-append t (sep ++ join sep (next ∷ parts)),
  length-append sep (join sep (next ∷ parts)),
  length-join_le sep b next parts h.1 e,
)

length-map : (f : Text → Text) (xs : List Text) → length (map f xs) ≡ length xs
length-map f [] = refl
length-map f (x ∷ xs) = omega (arith, length-map f xs)

-- What the budget of all excerpts together leaves room for.
budget-le :
    (outline count : ℕ)
    → outline ≤ 2423
    → 0 < count
    → count ≤ 16
    → (count * budget_of outline count + count * 64 + outline ≤ 12000 + 32)
      × (2 ≤ budget_of outline count)
unfolding marker codes
budget-le outline count o l h =
    let room = max_chars - outline - length marker * (count * 2 - 1) in
    (
      omega (arith, mul-div-le room count, length-marker),
      (le-div_iff_mul-le {k = count} {x = 2} {y = room} l).1 (omega (arith, length-marker)),
    )

length-excerpts_le :
    (outline t : Text) (selected : List Text)
    → length outline ≤ 2423
    → length (t ∷ selected) ≤ 16
    → length (excerpts_text outline (t ∷ selected)) ≤ 12000
length-excerpts_le outline t selected o k =
    let b = budget_of (length outline) (length (t ∷ selected)) in
    let room = budget-le (length outline) (length (t ∷ selected)) o (omega arith) k in
    omega (
      arith,
      room.0,
      length-append outline (join marker (map (excerpt b) (t ∷ selected))),
      subst (λ n. length (join marker (map (excerpt b) (t ∷ selected))) + 32 ≤ n * b + n * 64)
          (length-map (excerpt b) (t ∷ selected))
          (length-join_le marker b (excerpt b t) (map (excerpt b) selected)
            (All-excerpt b (t ∷ selected) room.1) length-marker),
    )

length-three_le :
    (outline text : Text) → length outline ≤ 2423 → length (three_parts outline text) ≤ 12000
length-three_le outline text o =
    let size = (max_chars - length outline - length marker * 2) / 3 in
    let middle = take size (drop ((length text - size) / 2) text) in
    let end = take_last size text in
    omega (
      arith,
      length-marker,
      length-append outline (take size text ++ (marker ++ (middle ++ (marker ++ end)))),
      length-append (take size text) (marker ++ (middle ++ (marker ++ end))),
      length-append marker (middle ++ (marker ++ end)),
      length-append middle (marker ++ end),
      length-append marker end,
      length-take size text,
      length-take size (drop ((length text - size) / 2) text),
      length-take_last_le size text (omega (arith, length-marker)),
    )

length-selected_le : (sections : List Text) → length (selected_of sections) ≤ 16
length-selected_le sections = ground arith

length-shortened_of_le :
    (outline text : Text) (selected : List Text)
    → length outline ≤ 2423
    → length selected ≤ 16
    → length (
        if ltb 1 (length selected)
        then excerpts_text outline selected
        else three_parts outline text)
      ≤ 12000
length-shortened_of_le outline text [] o k = length-three_le outline text o
length-shortened_of_le outline text (t ∷ []) o k = length-three_le outline text o
length-shortened_of_le outline text (t ∷ u ∷ selected) o k =
    ground (arith, length-excerpts_le outline t (u ∷ selected) o k)

length-shortened_le : (text : Text) → length (shortened text) ≤ 12000
length-shortened_le text =
    length-shortened_of_le (outline_of (headings_of text)) text (selected_of (sections_of text))
      (length-outline_le (headings_of text)) (length-selected_le (sections_of text))

-- What goes into a prompt is never longer than 12000 characters, outline and markers included, and
-- it is marked as truncated exactly if the trimmed text is longer than that.
pub prepare_seo_context_bounded :
    (text : Text)
    → (length (prepare_seo_context text).text ≤ 12000)
      × (((prepare_seo_context text).source_truncated ≡ true) ↔ (12000 < length (trim text)))
unfolding prepare_seo_context
prepare_seo_context_bounded text = (ground (arith, length-shortened_le (trim text)), (ground arith))
