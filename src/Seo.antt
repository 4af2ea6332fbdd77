-- ===== src/Seo.antt =====
-- modules/seo/seo.service.ts: the fields of the metadata that the SEO screen edits, and the update
-- of one material.
pub mod Updates
pub mod Review
pub mod Entries
pub mod Listing
pub mod Prompts
pub mod Sources
pub mod Publication
pub mod Defects
mod Tests
use vethealth_backend.Base.{
  ℕ, Bool, true, false, not, Option, none, some, List, [], ◌∷◌, Text, text_eq, truthy, trim,
  if◌then◌else◌,
}
use vethealth_backend.Repository.{Repository}

-- `SEO_FIELDS`
pub data SeoField : Type 0 where
  meta_title meta_description meta_keywords og_title og_description : SeoField

-- `Record<SeoField, string | null>`
abbrev pub SeoFieldValues : Type 0
SeoFieldValues = SeoField → Option Text

-- A row of `metadata`; `rest` are the columns that the screen does not edit.
pub record Metadata : Type 0 where
  pub id : Text
  pub fields : SeoFieldValues
  pub rest : Text

-- A post, page or topic: its id and the foreign key of its metadata.
pub record SeoTarget : Type 0 where
  pub id : Text
  pub metadata : Option Text

abbrev pub has_id : Text → Metadata → Bool
has_id k m = text_eq m.id k

abbrev pub fits : Text → Metadata → Bool
fits k m = text_eq m.id k

abbrev pub target_has_id : Text → SeoTarget → Bool
target_has_id k t = text_eq t.id k

-- `dto[field].trim() || null`
abbrev pub cleaned : Text → Option Text
cleaned t = if truthy (trim t) then some (trim t) else none

-- A given field is written over the old value; a field that is not given keeps it.
abbrev pub merged : SeoFieldValues → SeoFieldValues → SeoFieldValues
merged dto old field = elim (dto field) [ none ↦ old field | some t ↦ cleaned t ]

abbrev pub no_fields : SeoFieldValues
no_fields field = none

-- The two tables: the metadata, and the materials of the type that was asked for.
pub record Tables (M T : Type 0) : Type 0 where
  pub metadata : M
  pub targets : T

module _ {M T : Type 0} (metadata : Repository Metadata Text M fits has_id)
    (targets : Repository SeoTarget Text T target_has_id target_has_id) where
  -- The row of the relation `metadata`
  abbrev pub row_of : SeoTarget → Tables M T → Option Metadata
  row_of target s = elim target.metadata [ none ↦ none | some k ↦ metadata.find_one k s.metadata ]

  -- A row is saved in place, or a new one is made and its id written into the material.
  abbrev pub saved :
      Text
      → (new_id : Text) → SeoFieldValues
      → Option Metadata
      → Tables M T
      → SeoFieldValues × Tables M T
  saved id new_id dto (some row) s = (
    merged dto row.fields,
    record s {
      metadata =
          metadata.update row.id (λ m. record m { fields = merged dto row.fields }) s.metadata;
    },
  )
  saved id new_id dto none s = (
    merged dto no_fields,
    record {
      metadata =
          metadata.insert (record { id = new_id; fields = merged dto no_fields; rest = [] })
            s.metadata;
      targets = targets.update id (λ t. record t { metadata = some new_id }) s.targets;
    },
  )

  -- `update`; `none` is a `NotFoundException`.
  unfoldable pub update :
      Text → (new_id : Text) → SeoFieldValues → Tables M T → Option SeoFieldValues × Tables M T
  update id new_id dto s = elim (targets.find_one id s.targets) [
    | none ↦ (none, s)
    | some target ↦ let (values, s') = saved id new_id dto (row_of target s) s in (some values, s')
  ]
