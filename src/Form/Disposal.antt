-- ===== src/Form/Disposal.antt =====
-- `formdecoder_dispose` (formdecoder.c): the descriptors and temporary files that it lets go of. What
-- frees memory is left out.
pub mod Closed
pub mod Tidy
use fcgijwtauth.Base.{ℕ, suc, none, some, List, [], ◌∷◌, ◌++◌, if◌then◌else◌, Bytes}
use fcgijwtauth.Web.{Web}
use fcgijwtauth.Form.{Form, Field}

pub data Disposal : Type 0 where
  closed_temporary closed_zero unlinked : Disposal

-- The descriptor is closed unless it is -1.
abbrev pub closings : Field → List Disposal
closings field = elim field.file [
  | some _ ↦ closed_temporary ∷ []
  | none ↦ if field.zeroed then closed_zero ∷ [] else []
]

-- A field has a temporary file from its creation on.
abbrev pub unlinkings : Field → List Disposal
unlinkings field = elim field.file [
  | some _ ↦ unlinked ∷ []
  | none ↦ elim field.saved [ none ↦ [] | some _ ↦ unlinked ∷ [] ]
]

abbrev pub dispose_form_field : Field → List Disposal
dispose_form_field field = closings field ++ unlinkings field

unfoldable pub dispose_fields : List (Bytes × Field) → List Disposal
dispose_fields [] = []
dispose_fields ((k, field) ∷ fields) = dispose_form_field field ++ dispose_fields fields

unfoldable pub dispose : {web : Web} → Form web → List Disposal
unfolding dispose_fields
dispose form = dispose_fields form.fields

abbrev pub closed_of : List Disposal → ℕ
closed_of [] = 0
closed_of (unlinked ∷ ds) = closed_of ds
closed_of (_ ∷ ds) = suc (closed_of ds)
