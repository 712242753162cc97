-- ===== src/Form/Disposal/Closed.antt =====
-- Fields whose descriptors are closed, and what their disposal closes.
use fcgijwtauth.Base.{
  ◌+◌, ◌≤◌, ◌≡◌, refl, ◌∙◌, Bool, true, false, none, some, List, [], ◌∷◌, ◌++◌, Bytes, arith, All,
  Bool-cases, Option-cases, inl, inr,
}
use fcgijwtauth.Form.{Field, modify_last, last_value}
use fcgijwtauth.Form.Disposal.{
  Disposal, closed_temporary, closed_zero, unlinked, dispose_form_field, dispose_fields, closed_of,
}

-- The descriptor is -1.
abbrev pub IsClosed : Bytes × Field → Type 0
IsClosed (k, field) = (field.file ≡ none) × (field.zeroed ≡ false)

-- All are closed but the last one, whose descriptor is not 0.
abbrev pub InitClosed : List (Bytes × Field) → Type 0
InitClosed [] = Unit
InitClosed ((k, field) ∷ []) = field.zeroed ≡ false
InitClosed ((k, field) ∷ p ∷ fields) = IsClosed (k, field) × InitClosed (p ∷ fields)

-- Only the field that the decoder works on may have an open descriptor.
abbrev pub Tidy : Bool → List (Bytes × Field) → Type 0
Tidy true fields = InitClosed fields
Tidy false fields = All IsClosed fields

pub InitClosed-modify_last :
    (f : Field → Field) (fields : List (Bytes × Field))
    → ((field : Field) → (f field).zeroed ≡ field.zeroed)
    → InitClosed fields
    → InitClosed (modify_last f fields)
InitClosed-modify_last f [] same h = tt
InitClosed-modify_last f ((k, field) ∷ []) same h = same field ∙ h
InitClosed-modify_last f ((k, field) ∷ (l, next) ∷ []) same (c, h) = (c, same next ∙ h)
InitClosed-modify_last f ((k, field) ∷ p ∷ q ∷ fields) same (c, h) =
    (c, InitClosed-modify_last f (p ∷ q ∷ fields) same h)

pub modify_last-IsClosed :
    (f : Field → Field) (fields : List (Bytes × Field))
    → ((field : Field) → (f field).zeroed ≡ field.zeroed)
    → ((field : Field) → last_value fields ≡ some field → (f field).file ≡ none)
    → InitClosed fields
    → All IsClosed (modify_last f fields)
modify_last-IsClosed f [] same h i = tt
modify_last-IsClosed f ((k, field) ∷ []) same h i = ((h field refl, same field ∙ i), tt)
modify_last-IsClosed f ((k, field) ∷ p ∷ fields) same h (c, i) =
    (c, modify_last-IsClosed f (p ∷ fields) same h i)

pub InitClosed-snoc :
    (fields : List (Bytes × Field)) (p : Bytes × Field)
    → p.1.zeroed ≡ false
    → All IsClosed fields
    → InitClosed (fields ++ p ∷ [])
InitClosed-snoc [] (k, field) z h = z
InitClosed-snoc ((k, field) ∷ []) (l, next) z (c, h) = (c, z)
InitClosed-snoc ((k, field) ∷ q ∷ fields) p z (c, h) = (c, InitClosed-snoc (q ∷ fields) p z h)

closed_of-append : (ds es : List Disposal) → closed_of (ds ++ es) ≡ closed_of ds + closed_of es
closed_of-append [] es = omega arith
closed_of-append (closed_temporary ∷ ds) es = omega (arith, closed_of-append ds es)
closed_of-append (closed_zero ∷ ds) es = omega (arith, closed_of-append ds es)
closed_of-append (unlinked ∷ ds) es = closed_of-append ds es

closed_of-closed_field :
    (field : Field)
    → field.file ≡ none
    → field.zeroed ≡ false
    → closed_of (dispose_form_field field) ≡ 0
closed_of-closed_field field file zeroed = elim (Option-cases field.saved) [
  | inl unsaved ↦ rw (file, zeroed, unsaved) refl
  | inr (text, saved) ↦ rw (file, zeroed, saved) refl
]

closed_of-field : (field : Field) → closed_of (dispose_form_field field) ≤ 1
closed_of-field field = elim (Option-cases field.file) [
  | inr (text, file) ↦ rw file (omega arith)
  | inl file ↦ elim (Bool-cases field.zeroed) [
    | inr zeroed ↦ omega (arith, closed_of-closed_field field file zeroed)
    | inl zeroed ↦ elim (Option-cases field.saved) [
      | inl unsaved ↦ rw (file, zeroed, unsaved) (omega arith)
      | inr (text, saved) ↦ rw (file, zeroed, saved) (omega arith)
    ]
  ]
]

pub closed_of-dispose_fields :
    (fields : List (Bytes × Field)) → All IsClosed fields → closed_of (dispose_fields fields) ≡ 0
unfolding dispose_fields
closed_of-dispose_fields [] h = refl
closed_of-dispose_fields ((k, field) ∷ fields) ((file, zeroed), h) = omega (
  arith,
  closed_of-append (dispose_form_field field) (dispose_fields fields),
  closed_of-closed_field field file zeroed,
  closed_of-dispose_fields fields h,
)

pub closed_of-InitClosed :
    (fields : List (Bytes × Field)) → InitClosed fields → closed_of (dispose_fields fields) ≤ 1
unfolding dispose_fields
closed_of-InitClosed [] h = omega arith
closed_of-InitClosed ((k, field) ∷ []) h =
    omega (arith, closed_of-append (dispose_form_field field) [], closed_of-field field)
closed_of-InitClosed ((k, field) ∷ p ∷ fields) ((file, zeroed), h) = omega (
  arith,
  closed_of-append (dispose_form_field field) (dispose_fields (p ∷ fields)),
  closed_of-closed_field field file zeroed,
  closed_of-InitClosed (p ∷ fields) h,
)
