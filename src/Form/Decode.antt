-- ===== src/Form/Decode.antt =====
-- `formdecoder_mimedecoder_callback` (formdecoder.c): the form behind an event of the MIME decoder,
-- and whether 0 is returned. A buffer that was never written to is detached as the empty string.
pub mod Parts
use fcgijwtauth.Base.{
  ℕ, ◌+◌, ◌%◌, ◌^◌, Bool, true, false, ◌&&◌, ◌||◌, not, Option, none, some, List, [], ◌∷◌, ◌++◌,
  ◌==◌, if◌then◌else◌, Bytes, length, lit,
}
use fcgijwtauth.Outcome.{Outcome, ok, throws, undefined, ◌>>=◌}
use fcgijwtauth.Web.{Web}
use fcgijwtauth.Form.{Form, Field, new_field, modify_last, last_value}
use fcgijwtauth.Form.Header.{get_name, get_filename, is_prefix}

pub data MimeEvent : Type 0 where
  header : Bytes → Bytes → MimeEvent
  element_begin : MimeEvent
  element_chunk : Bytes → MimeEvent
  element_end : MimeEvent

abbrev pub bytes_of : Option Bytes → Bytes
bytes_of none = []
bytes_of (some text) = text

-- The descriptor of the current field, by what was written to it.
abbrev pub file_of : Option Field → Option Bytes
file_of none = none
file_of (some field) = field.file

module _ (web : Web) where
  abbrev pub modify_current : (Field → Field) → Form web → Form web
  modify_current f form = record form { fields = modify_last f form.fields }

  -- A file that was uploaded: its name is kept and a temporary file is opened. Where the field has one
  -- already, this one takes its place, and the first one stays open with nothing that leads to it.
  abbrev pub open_file : Option Bytes → Form web → Form web
  open_file none form = form
  open_file (some name) form =
      if form.is_open && form.save_files
      then modify_current (λ (field : Field). record field { filename = some name; file = some [] })
          form
      else form

  -- The header of a form's field: a second one is refused.
  unfoldable pub on_disposition : Bytes → Form web → Form web × Bool
  on_disposition value form = elim (get_name value) [
    | none ↦ (open_file (get_filename value) form, true)
    | some name ↦ if form.is_open then (form, false) else (
      open_file (get_filename value)
          (record form { fields = form.fields ++ (name, new_field) ∷ []; is_open = true }),
      true,
    )
  ]

  -- `strncmp` goes no further than the name that was received, so it may be a prefix. Without a current
  -- field a "Content-Type" writes through the null pointer.
  unfoldable pub on_header : Bytes → Bytes → Form web → Outcome (Form web × Bool)
  unfolding on_disposition is_prefix lit
  on_header name value form =
      let typed : Outcome (Form web × Bool) =
        if form.is_open
        then ok
            (modify_current (λ (field : Field). record field { mime_type = some value }) form, true)
        else undefined in
      if is_prefix name (lit "Content-Disposition")
      then ok
          (if is_prefix (lit "form-data") value then on_disposition value form else (form, true))
      else if is_prefix name (lit "Content-Type")
      then typed
      else ok (form, true)

  unfoldable pub on_begin : Form web → Form web × Bool
  on_begin form =
      let begun : Form web = elim (file_of (last_value form.fields)) [
        | none ↦ record form { collected = some [] }
        | some _ ↦ form
      ] in
      let result : Form web × Bool = elim form.collected [
        | some _ ↦ (form, false)
        | none ↦ (begun, true)
      ] in
      if form.is_open then result else (form, false)

  unfoldable pub on_chunk : Bytes → Form web → Form web × Bool
  on_chunk piece form =
      let counted =
        modify_current
          (λ (field : Field). record field { data_len = (field.data_len + length piece) % 2 ^ 64 })
          form in
      let done : Form web = elim (file_of (last_value form.fields)) [
        | none ↦ record counted { collected = some (bytes_of form.collected ++ piece) }
        | some written ↦
            modify_current (λ (field : Field). record field { file = some (written ++ piece) })
              counted
      ] in
      if form.is_open then (done, true) else (form, false)

  unfoldable pub on_end : Form web → Form web
  on_end form =
      let text = bytes_of form.collected in
      let done : Form web = elim (file_of (last_value form.fields)) [
        | none ↦
            modify_current
              (λ (field : Field). record field { data_len = length text; body = some text })
              (record form { collected = none; is_open = false })
        | some written ↦
            modify_current (λ (field : Field). record field { file = none; saved = some written })
              (record form { is_open = false })
      ] in
      if form.is_open then done else form

  unfoldable pub on_event : MimeEvent → Form web → Outcome (Form web × Bool)
  unfolding on_header on_begin on_chunk on_end
  on_event (header name value) form = on_header name value form
  on_event element_begin form = ok (on_begin form)
  on_event (element_chunk piece) form = ok (on_chunk piece form)
  on_event element_end form = ok (on_end form, true)

  abbrev pub continue : Form web × Bool → Outcome (Form web × Bool) → Outcome (Form web × Bool)
  continue (form, true) rest = rest
  continue (form, false) rest = ok (form, false)

  -- Events one after the other, up to the first for which 0 is not returned.
  unfoldable pub on_events : List MimeEvent → Form web → Outcome (Form web × Bool)
  on_events [] form = ok (form, true)
  on_events (e ∷ es) form =
      on_event e form >>= λ (r : Form web × Bool). continue r (on_events es r.0)
