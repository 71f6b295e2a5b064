-- ===== src/Publish/Appraisal/Judged.antt =====
-- That no machine passes a dimension which only a person decides.
use new_z.Prelude.{
  ℕ, ◌≡◌, Bool, true, not, ◌||◌, some, List, String, ◌==◌, string_eq, is_text, is_some, every,
}
use new_z.Present.Cards.{Card, CardRevision}
use new_z.Publish.Tables.{AppraisalDimension, dimension_value, AppraisalRow, PublishStore}
use new_z.Publish.Appraisal.{DimensionResult, appraise, record_judgment}

-- A dimension by its name that only a person decides.
abbrev pub is_for_person : String → Bool
is_for_person name = name == "fair_representation" || name == "material_omission"

-- A row of such a dimension has a verdict only from a named reviewer.
abbrev pub is_judged : AppraisalRow → Bool
is_judged row =
    not (is_for_person row.dimension) || (not (is_some row.passed) || is_text row.reviewer)

abbrev pub IsJudged : List AppraisalRow → Type 0
IsJudged rows = every is_judged rows ≡ true

-- A result of a dimension that a machine decides.
abbrev is_machine : DimensionResult → Bool
is_machine r = not (is_for_person (dimension_value r.dimension))

module _ (repr : String → String) (digest : Card → String) (bucket : String → ℕ)
    (local_id : String → String) where
  -- An appraisal, or a recorded judgment.
  pub data Step (s t : PublishStore) : Type 0 where
    appraises : (row : CardRevision) → t ≡ (appraise repr digest bucket local_id s row).0 → Step s t
    judges :
        (card_revision_id : String) (dimension : AppraisalDimension) (passed : Bool)
        (reviewer finding : String)
        → record_judgment s card_revision_id dimension passed reviewer finding ≡ some t
        → Step s t
