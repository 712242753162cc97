-- ===== src/Form/Disposal/Tidy.antt =====
-- The descriptors that a form holds while it is decoded.
use fcgijwtauth.Base.{
  ◌+◌, ◌%◌, ◌^◌, length, ◌≤◌, ◌≡◌, refl, ap, sym, ◌∙◌, Bool, true, false, ◌&&◌, Option, none, some,
  List, [], ◌∷◌, ◌++◌, if◌then◌else◌, Bytes, arith, All, Bool-cases, Option-cases, inl, inr, lit,
}
use mathlib.Core.Path.{subst}
use fcgijwtauth.Outcome.{Outcome, ok, throws, undefined, ◌>>=◌}
use fcgijwtauth.Web.{Web}
use fcgijwtauth.Form.{Form, Field, new_field, init, modify_last, last_value}
use fcgijwtauth.Form.Header.{get_name, get_filename, is_prefix}
use fcgijwtauth.Form.Decode.{
  MimeEvent, header, element_begin, element_chunk, element_end, file_of, modify_current, open_file,
  on_disposition, on_header, on_begin, on_chunk, on_end, on_event, on_events, continue, bytes_of,
}
use fcgijwtauth.Form.Disposal.{dispose, closed_of}
use fcgijwtauth.Form.Disposal.Closed.{
  IsClosed, InitClosed, Tidy, InitClosed-modify_last, modify_last-IsClosed, InitClosed-snoc,
  closed_of-dispose_fields, closed_of-InitClosed,
}

if_either {ℓ κ} :
    {A : Type ℓ} (P : A → Type κ) (b : Bool) (x y : A)
    → (b ≡ true → P x)
    → (b ≡ false → P y)
    → P (if b then x else y)
if_either P true x y h k = h refl
if_either P false x y h k = k refl

option_either {ℓ κ μ} :
    {A : Type ℓ} {B : Type κ} (P : A → Type μ) (m : Option B) (x : A) (f : B → A)
    → (m ≡ none → P x)
    → ((b : B) → m ≡ some b → P (f b))
    → P (elim m [ none ↦ x | some b ↦ f b ])
option_either P none x f h k = h refl
option_either P (some b) x f h k = k b refl

both : (a b : Bool) → (a && b) ≡ true → a ≡ true
both true b e = refl
both false b e = cc e

file_of-none :
    (fields : List (Bytes × Field)) (field : Field)
    → file_of (last_value fields) ≡ none
    → last_value fields ≡ some field
    → field.file ≡ none
file_of-none fields field e last = ap file_of (sym last) ∙ e

module _ (web : Web) where
  abbrev IsTidy : Form web → Type 0
  IsTidy form = Tidy form.is_open form.fields

  in_field : (form : Form web) → form.is_open ≡ true → IsTidy form → InitClosed form.fields
  in_field form e h = subst (λ b. Tidy b form.fields) e h

  between : (form : Form web) → form.is_open ≡ false → IsTidy form → All IsClosed form.fields
  between form e h = subst (λ b. Tidy b form.fields) e h

  -- The current field is changed, and its descriptor is not set to 0.
  modify_current-IsTidy :
      (f : Field → Field) (form : Form web)
      → ((field : Field) → (f field).zeroed ≡ field.zeroed)
      → form.is_open ≡ true
      → IsTidy form
      → IsTidy (modify_current web f form)
  modify_current-IsTidy f form same e h =
      subst (λ b. Tidy b (modify_last f form.fields)) (sym e)
        (InitClosed-modify_last f form.fields same (in_field form e h))

  open_file-IsTidy :
      (filename : Option Bytes) (form : Form web)
      → IsTidy form
      → IsTidy (open_file web filename form)
  open_file-IsTidy none form h = h
  open_file-IsTidy (some name) form h =
      if_either IsTidy (form.is_open && form.save_files) _ form
        (λ e.
          modify_current-IsTidy
            (λ (field : Field). record field { filename = some name; file = some [] }) form
            (λ field. refl) (both form.is_open form.save_files e) h)
        (λ _. h)

  on_disposition-IsTidy :
      (value : Bytes) (form : Form web) → IsTidy form → IsTidy (on_disposition web value form).0
  unfolding on_disposition
  on_disposition-IsTidy value form h = elim (Option-cases (get_name value)) [
    | inl unnamed ↦ rw (unnamed, on_disposition) (open_file-IsTidy (get_filename value) form h)
    | inr (name, named) ↦
        rw (named, on_disposition)
          (if_either (λ (r : Form web × Bool). IsTidy r.0) form.is_open (form, false) _ (λ _. h)
            (λ shut.
              open_file-IsTidy (get_filename value)
                (record form { fields = form.fields ++ (name, new_field) ∷ []; is_open = true })
                (InitClosed-snoc form.fields (name, new_field) refl (between form shut h))))
  ]

  on_begin-IsTidy : (form : Form web) → IsTidy form → IsTidy (on_begin web form).0
  unfolding on_begin
  on_begin-IsTidy form h =
      if_either (λ (r : Form web × Bool). IsTidy r.0) form.is_open _ (form, false)
        (λ _.
          option_either (λ (r : Form web × Bool). IsTidy r.0) form.collected _ (λ _. (form, false))
            (λ _.
              option_either IsTidy (file_of (last_value form.fields))
                (record form { collected = some [] }) (λ _. form) (λ _. h) (λ _ _. h))
            (λ _ _. h))
        (λ _. h)

  on_chunk-IsTidy :
      (piece : Bytes) (form : Form web) → IsTidy form → IsTidy (on_chunk web piece form).0
  unfolding on_chunk
  on_chunk-IsTidy piece form h =
      if_either (λ (r : Form web × Bool). IsTidy r.0) form.is_open _ (form, false)
        (λ opened.
          let counted : Field → Field =
            λ field. record field { data_len = (field.data_len + length piece) % 2 ^ 64 } in
          let tidy = modify_current-IsTidy counted form (λ field. refl) opened h in
          option_either IsTidy (file_of (last_value form.fields)) _ _ (λ _. tidy)
            (λ written _.
              modify_current-IsTidy
                (λ (field : Field). record field { file = some (written ++ piece) })
                (modify_current web counted form) (λ field. refl) opened tidy))
        (λ _. h)

  on_end-IsTidy : (form : Form web) → IsTidy form → IsTidy (on_end web form)
  unfolding on_end
  on_end-IsTidy form h =
      if_either IsTidy form.is_open _ form
        (λ opened.
          option_either IsTidy (file_of (last_value form.fields)) _ _
            (λ unfiled.
              modify_last-IsClosed
                (λ (field : Field). record field {
                  data_len = length (bytes_of form.collected);
                  body = some (bytes_of form.collected);
                })
                form.fields (λ field. refl)
                (λ field last. file_of-none form.fields field unfiled last)
                (in_field form opened h))
            (λ written _.
              modify_last-IsClosed
                (λ (field : Field). record field { file = none; saved = some written }) form.fields
                (λ field. refl) (λ field last. refl) (in_field form opened h)))
        (λ _. h)

  -- A call that returns leaves such a form.
  abbrev LeavesTidy : Outcome (Form web × Bool) → Type 0
  LeavesTidy (ok (form, goes_on)) = IsTidy form
  LeavesTidy (throws e) = Unit
  LeavesTidy undefined = Unit

  on_header-LeavesTidy :
      (name value : Bytes) (form : Form web)
      → IsTidy form
      → LeavesTidy (on_header web name value form)
  unfolding on_header
  on_header-LeavesTidy name value form h =
      if_either LeavesTidy (is_prefix name (lit "Content-Disposition")) _ _
        (λ _.
          if_either (λ (r : Form web × Bool). IsTidy r.0) (is_prefix (lit "form-data") value)
            (on_disposition web value form) (form, true) (λ _. on_disposition-IsTidy value form h)
            (λ _. h))
        (λ _.
          if_either LeavesTidy (is_prefix name (lit "Content-Type")) _ _
            (λ _.
              if_either LeavesTidy form.is_open _ _
                (λ opened.
                  modify_current-IsTidy (λ (field : Field). record field { mime_type = some value })
                    form (λ field. refl) opened h)
                (λ _. tt))
            (λ _. h))

  on_event-LeavesTidy :
      (event : MimeEvent) (form : Form web) → IsTidy form → LeavesTidy (on_event web event form)
  unfolding on_event
  on_event-LeavesTidy (header name value) form h = on_header-LeavesTidy name value form h
  on_event-LeavesTidy element_begin form h = on_begin-IsTidy form h
  on_event-LeavesTidy (element_chunk piece) form h = on_chunk-IsTidy piece form h
  on_event-LeavesTidy element_end form h = on_end-IsTidy form h

  continued :
      (r : Outcome (Form web × Bool)) (next : Form web → Outcome (Form web × Bool))
      → LeavesTidy r
      → ((form : Form web) → IsTidy form → LeavesTidy (next form))
      → LeavesTidy (r >>= λ (s : Form web × Bool). continue web s (next s.0))
  continued (ok (form, true)) next h k = k form h
  continued (ok (form, false)) next h k = h
  continued (throws e) next h k = tt
  continued undefined next h k = tt

  on_events-LeavesTidy :
      (es : List MimeEvent) (form : Form web) → IsTidy form → LeavesTidy (on_events web es form)
  unfolding on_events
  on_events-LeavesTidy [] form h = h
  on_events-LeavesTidy (event ∷ es) form h =
      continued (on_event web event form) (on_events web es) (on_event-LeavesTidy event form h)
        (on_events-LeavesTidy es)

  -- Whatever events a form was decoded from, it has at most one open descriptor when it is disposed of,
  -- and none unless the decoder was in a field.
  pub dispose-on_events :
      (es : List MimeEvent) (save_files : Bool) (form : Form web) (goes_on : Bool)
      → on_events web es (record (init web) { save_files = save_files }) ≡ ok (form, goes_on)
      → closed_of (dispose form) ≤ (if form.is_open then 1 else 0)
  unfolding dispose
  dispose-on_events es save_files form goes_on e =
      let start : Form web = record (init web) { save_files = save_files } in
      let tidy : IsTidy form = subst LeavesTidy e (on_events-LeavesTidy es start tt) in
      elim (Bool-cases form.is_open) [
        | inl opened ↦ rw opened (closed_of-InitClosed form.fields (in_field form opened tidy))
        | inr shut ↦
            rw shut (omega (arith, closed_of-dispose_fields form.fields (between form shut tidy)))
      ]
