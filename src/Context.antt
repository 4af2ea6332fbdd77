-- ===== src/Context.antt =====
-- `prepareSeoContext` of utils/seo-content-context.ts at its default of 12000 characters, the only
-- one that the program asks for.
pub mod Lexical
pub mod Bounds
pub mod Prose
pub mod Pages
pub mod Urls
mod Tests
use vethealth_backend.Base.{
  ℕ, zero, suc, ◌+◌, ◌-◌, ◌*◌, ◌/◌, Bool, true, false, not, ◌&&◌, ◌||◌, Option, none, some, List,
  [], ◌∷◌, ◌++◌, map, length, take, drop, filter, get_elem?, Text, codes, truthy, split, join,
  is_space, trim, ltb, leb, ◌==◌, if◌then◌else◌,
}

abbrev pub max_chars : ℕ
max_chars = 12000

-- `#{n}` more at most, then a space
abbrev hashes : ℕ → Text → Bool
hashes n [] = false
hashes zero (c ∷ s) = is_space c
hashes (suc n) (c ∷ s) = is_space c || (c == b'#' && hashes n s)

-- `/^#{1,6}\s/`
unfoldable pub is_heading : Text → Bool
is_heading [] = false
is_heading (c ∷ s) = c == b'#' && hashes 5 s

-- `\n`, `\r` and the separators of lines and paragraphs end a line.
abbrev is_terminator : ℕ → Bool
is_terminator c = c == 10 || (c == 13 || (c == 8232 || c == 8233))

abbrev onto_head : ℕ → List Text → List Text
onto_head c [] = (c ∷ []) ∷ []
onto_head c (part ∷ parts) = (c ∷ part) ∷ parts

-- The text is cut before a heading that starts a line, here with what stood before.
abbrev cut_after : ℕ → Text → List Text
cut_after before [] = [] ∷ []
cut_after before (c ∷ s) =
    let rest = onto_head c (cut_after c s) in
    if is_terminator before && is_heading (c ∷ s) then [] ∷ rest else rest

-- `text.split(/(?=^#{1,6}\s)/m)`
unfoldable pub cut : Text → List Text
cut [] = [] ∷ []
cut (c ∷ s) = onto_head c (cut_after c s)

-- `text.slice(-n)`, where `-0` is 0
abbrev pub take_last : ℕ → Text → Text
take_last n t = if n == 0 then t else drop (length t - n) t

unfoldable pub marker : Text
marker = 10 ∷ (codes "[… пропущено частину тексту …]" ++ (10 ∷ []))

abbrev pub outline_of : List Text → Text
outline_of [] = []
outline_of (h ∷ headings) =
    codes "Структура матеріалу:"
    ++ (10 ∷ (take (max_chars / 5) (join (10 ∷ []) (h ∷ headings)) ++ (10 ∷ 10 ∷ [])))

abbrev some_or_empty : Option Text → Text
some_or_empty none = []
some_or_empty (some t) = t

-- `sections[Math.round((i * (sections.length - 1)) / 15)]`
abbrev pub sample : List Text → ℕ → Text
sample sections i = some_or_empty (get_elem? sections ((2 * (i * (length sections - 1)) + 15) / 30))

-- `Array.from({ length: 16 }, ...)`
abbrev pub up_from : ℕ → ℕ → List ℕ
up_from i zero = []
up_from i (suc n) = i ∷ up_from (suc i) n

abbrev pub selected_of : List Text → List Text
selected_of sections =
    if ltb 16 (length sections) then map (sample sections) (up_from 0 16) else sections

-- A long section keeps its beginning and its end. `Math.ceil(budget / 2)` is `(budget + 1) / 2`.
abbrev pub excerpt : ℕ → Text → Text
excerpt budget section =
    if leb (length section) budget
    then section
    else take ((budget + 1) / 2) section ++ (marker ++ take_last (budget / 2) section)

-- `SeoTextContext`
pub record SeoTextContext : Type 0 where
  pub text : Text
  pub source_truncated : Bool

-- The parts of a text with one section only.
abbrev pub three_parts : Text → Text → Text
three_parts outline text =
    let size = (max_chars - length outline - length marker * 2) / 3 in
    let middle = (length text - size) / 2 in
    outline
    ++ (take size text
        ++ (marker ++ (take size (drop middle text) ++ (marker ++ take_last size text))))

abbrev pub budget_of : ℕ → ℕ → ℕ
budget_of outline_length count =
    (max_chars - outline_length - length marker * (count * 2 - 1)) / count

abbrev pub excerpts_text : Text → List Text → Text
excerpts_text outline selected =
    outline ++ join marker (map (excerpt (budget_of (length outline) (length selected))) selected)

abbrev pub headings_of : Text → List Text
headings_of text = filter is_heading (split 10 text)

abbrev pub sections_of : Text → List Text
sections_of text = filter (λ part. truthy (trim part)) (cut text)

-- What a text that is too long becomes.
abbrev pub shortened : Text → Text
shortened text =
    let outline = outline_of (headings_of text) in
    let selected = selected_of (sections_of text) in
    if ltb 1 (length selected) then excerpts_text outline selected else three_parts outline text

abbrev prepare_trimmed : Text → SeoTextContext
prepare_trimmed text =
    if leb (length text) max_chars
    then record { text = text; source_truncated = false }
    else record { text = shortened text; source_truncated = true }

unfoldable pub prepare_seo_context : Text → SeoTextContext
prepare_seo_context text = prepare_trimmed (trim text)
