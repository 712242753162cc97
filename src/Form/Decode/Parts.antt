-- ===== src/Form/Decode/Parts.antt =====
-- The forms that well-formed parts are decoded to.
use fcgijwtauth.Base.{
  concat, ℕ, ◌+◌, ◌%◌, ◌^◌, ◌≡◌, refl, ap, ◌∙◌, Bool, true, false, none, some, List, [], ◌∷◌, ◌++◌,
  Bytes, length, lit, All, Avoids, append_assoc, append-nil, map,
}
use fcgijwtauth.Outcome.{ok}
use fcgijwtauth.Web.{Web}
use fcgijwtauth.Form.{Form, init, Field, new_field, modify_last, last_value}
use fcgijwtauth.Form.Header.{get_name, get_filename, is_prefix}
use fcgijwtauth.Form.Header.Laws.{
  Attribute, IsAttribute, header_of, value_of, find_attribute_value-header_of,
}
use fcgijwtauth.Form.Decode.{
  MimeEvent, header, element_begin, element_chunk, element_end, on_disposition, on_header, on_begin,
  on_chunk, on_end, on_event, on_events,
}

-- A part without a file: the name of its field, and its body in pieces.
pub record Part : Type 0 where
  pub name : Bytes
  pub pieces : List Bytes

abbrev form_data : Attribute
form_data = record { name = lit "form-data"; value = none }

abbrev name_attribute : Bytes → Attribute
name_attribute name = record { name = lit "name"; value = some name }

abbrev pub disposition : Bytes → Bytes
disposition name = header_of (form_data ∷ name_attribute name ∷ [])

abbrev pub chunks_of : List Bytes → List MimeEvent
chunks_of [] = element_end ∷ []
chunks_of (piece ∷ pieces) = element_chunk piece ∷ chunks_of pieces

abbrev pub events_of : List Part → List MimeEvent
events_of [] = []
events_of (p ∷ ps) =
    header (lit "Content-Disposition") (disposition p.name)
    ∷ element_begin
    ∷ (chunks_of p.pieces ++ events_of ps)

abbrev pub field_of : Part → Bytes × Field
field_of p = (
  p.name,
  record new_field { data_len = length (concat p.pieces); body = some (concat p.pieces) },
)

form_data-IsAttribute : IsAttribute form_data
unfolding lit
form_data-IsAttribute = record {
  starts = refl;
  plain = (refl, (refl, (refl, (refl, (refl, (refl, (refl, (refl, (refl, tt)))))))));
  value_is = tt;
}

name_attribute-IsAttribute : (name : Bytes) → Avoids b'"' name → IsAttribute (name_attribute name)
unfolding lit
name_attribute-IsAttribute name h = record {
  starts = refl;
  plain = (refl, (refl, (refl, (refl, tt))));
  value_is = h;
}

get_name-disposition : (name : Bytes) → Avoids b'"' name → get_name (disposition name) ≡ some name
unfolding get_name value_of lit is_prefix
get_name-disposition name h =
    find_attribute_value-header_of (lit "name") form_data (name_attribute name ∷ [])
      form_data-IsAttribute (name_attribute-IsAttribute name h, tt)

get_filename-disposition :
    (name : Bytes) → Avoids b'"' name → get_filename (disposition name) ≡ none
unfolding get_filename value_of lit is_prefix
get_filename-disposition name h =
    find_attribute_value-header_of (lit "filename") form_data (name_attribute name ∷ [])
      form_data-IsAttribute (name_attribute-IsAttribute name h, tt)

module _ {ℓ} {V : Type ℓ} where
  modify_last-append :
      (f : V → V) (m : List (Bytes × V)) (k : Bytes) (v : V)
      → modify_last f (m ++ (k, v) ∷ []) ≡ m ++ (k, f v) ∷ []
  modify_last-append f [] k v = refl
  modify_last-append f (p ∷ []) k v = refl
  modify_last-append f (p ∷ q ∷ m) k v = ap (◌∷◌ p) (modify_last-append f (q ∷ m) k v)

  last_value-append :
      (m : List (Bytes × V)) (k : Bytes) (v : V) → last_value (m ++ (k, v) ∷ []) ≡ some v
  last_value-append [] k v = refl
  last_value-append (p ∷ []) k v = refl
  last_value-append (p ∷ q ∷ m) k v = last_value-append (q ∷ m) k v

module _ (web : Web) where
  -- A form in a part, with so many bytes counted and these collected; and behind the part.
  abbrev during : Form web → Bytes → ℕ → Bytes → Form web
  during form name n text = record form {
    fields = form.fields ++ (name, record new_field { data_len = n }) ∷ [];
    is_open = true;
    collected = some text;
  }

  abbrev behind : Form web → Bytes → Bytes → Form web
  behind form name text = record form {
    fields =
        form.fields ++ (name, record new_field { data_len = length text; body = some text }) ∷ [];
    is_open = false;
    collected = none;
  }

  on_chunk-during :
      (piece : Bytes) (form : Form web) (name : Bytes) (n : ℕ) (text : Bytes)
      → on_chunk web piece (during form name n text)
        ≡ (during form name ((n + length piece) % 2 ^ 64) (text ++ piece), true)
  unfolding on_chunk
  on_chunk-during piece form name n text =
      rw (last_value-append form.fields name (record new_field { data_len = n })) (
        rw
          (modify_last-append
            (λ (field : Field). record field {
              data_len = (field.data_len + length piece) % 2 ^ 64;
            })
            form.fields name (record new_field { data_len = n }))
          refl)

  on_end-during :
      (form : Form web) (name : Bytes) (n : ℕ) (text : Bytes)
      → on_end web (during form name n text) ≡ behind form name text
  unfolding on_end
  on_end-during form name n text =
      rw (last_value-append form.fields name (record new_field { data_len = n })) (
        rw
          (modify_last-append
            (λ (field : Field). record field { data_len = length text; body = some text })
            form.fields name (record new_field { data_len = n }))
          refl)

  on_events-chunks_of :
      (pieces : List Bytes) (es : List MimeEvent) (form : Form web) (name : Bytes) (n : ℕ)
      (text : Bytes)
      → on_events web (chunks_of pieces ++ es) (during form name n text)
        ≡ on_events web es (behind form name (text ++ concat pieces))
  unfolding on_events on_event
  on_events-chunks_of [] es form name n text = rw (on_end-during form name n text, append-nil) refl
  on_events-chunks_of (piece ∷ pieces) es form name n text =
      rw (on_chunk-during piece form name n text) (
        on_events-chunks_of pieces es form name ((n + length piece) % 2 ^ 64) (text ++ piece)
        ∙ ap (λ t. on_events web es (behind form name t)) (append_assoc text piece (concat pieces)))

  -- A form between two parts.
  abbrev closed : Form web → List (Bytes × Field) → Form web
  closed form fields = record form { fields = fields; is_open = false; collected = none }

  on_disposition-closed :
      (form : Form web) (fields : List (Bytes × Field)) (value : Bytes) {name : Bytes}
      → get_name value ≡ some name
      → get_filename value ≡ none
      → on_disposition web value (closed form fields) ≡ (
        record (closed form fields) { fields = fields ++ (name, new_field) ∷ []; is_open = true },
        true,
      )
  unfolding on_disposition
  on_disposition-closed form fields value e n = rw (e, on_disposition) (rw n refl)

  on_header-disposition :
      (form : Form web) (value : Bytes)
      → is_prefix (lit "form-data") value ≡ true
      → on_header web (lit "Content-Disposition") value form ≡ ok (on_disposition web value form)
  unfolding on_header
  on_header-disposition form value e = rw (content_disposition, e) refl
    where
      content_disposition : is_prefix (lit "Content-Disposition") (lit "Content-Disposition") ≡ true
      content_disposition = unfold is_prefix lit in refl

  disposition-form_data : (name : Bytes) → is_prefix (lit "form-data") (disposition name) ≡ true
  unfolding header_of is_prefix lit
  disposition-form_data name = refl

  on_event-disposition :
      (form : Form web) (fields : List (Bytes × Field)) (name : Bytes)
      → Avoids b'"' name
      → on_event web (header (lit "Content-Disposition") (disposition name)) (closed form fields)
        ≡ ok (
          record (closed form fields) { fields = fields ++ (name, new_field) ∷ []; is_open = true },
          true,
        )
  on_event-disposition form fields name h =
      unfold on_event in
      on_header-disposition (closed form fields) (disposition name) (disposition-form_data name)
      ∙ ap ok (
          on_disposition-closed form fields (disposition name) (get_name-disposition name h)
            (get_filename-disposition name h))

  on_event-element_begin :
      (form : Form web) (fields : List (Bytes × Field)) (name : Bytes)
      → on_event web element_begin (record (closed form fields) {
        fields = fields ++ (name, new_field) ∷ [];
        is_open = true;
      })
        ≡ ok (during (closed form fields) name 0 [], true)
  unfolding on_event on_begin
  on_event-element_begin form fields name = rw (last_value-append fields name new_field) refl

  on_events-closed :
      (ps : List Part) (form : Form web) (fields : List (Bytes × Field))
      → All (λ (p : Part). Avoids b'"' p.name) ps
      → on_events web (events_of ps) (closed form fields)
        ≡ ok (closed form (fields ++ map field_of ps), true)
  unfolding on_events
  on_events-closed [] form fields h = rw append-nil refl
  on_events-closed (p ∷ ps) form fields (n, h) = rw (on_event-disposition form fields p.name n) (
      rw (on_event-element_begin form fields p.name) (
        on_events-chunks_of p.pieces (events_of ps) (closed form fields) p.name 0 []
        ∙ on_events-closed ps form (fields ++ field_of p ∷ []) h
        ∙ ap (λ fs. ok (closed form fs, true))
            (append_assoc fields (field_of p ∷ []) (map field_of ps))))

  -- The events of a body of parts without files, each with a name that holds no quote and its text
  -- in any pieces, make a form with one field for each part, in order, with that name and that text
  -- whole, its length beside it; no event is refused.
  pub on_events-events_of :
      (ps : List Part) (save_files : Bool)
      → All (λ (p : Part). Avoids b'"' p.name) ps
      → on_events web (events_of ps) (record (init web) { save_files = save_files })
        ≡ ok (record (init web) { save_files = save_files; fields = map field_of ps }, true)
  on_events-events_of ps save_files h =
      on_events-closed ps (record (init web) { save_files = save_files }) [] h
