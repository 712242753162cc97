-- ===== src/Tests/Forms.antt =====
-- Forms and headers of MIME parts at concrete inputs.
use fcgijwtauth.Base.{◌≤◌, lit, ◌≡◌, refl, true, none, some, List, [], ◌∷◌, arith}
use fcgijwtauth.Outcome.{ok}
use fcgijwtauth.Form.{Form, init, new_field}
use fcgijwtauth.Form.Header.{get_name, get_filename, is_prefix, find_attribute_value}
use fcgijwtauth.Form.Header.Laws.{
  Attribute, IsAttribute, header_of, value_of, find_attribute_value-header_of,
}
use fcgijwtauth.Form.Decode.{MimeEvent, on_event, on_events}
use fcgijwtauth.Form.Disposal.{Disposal, dispose, closed_of}
use fcgijwtauth.Form.Disposal.Tidy.{dispose-on_events}
use fcgijwtauth.Form.Decode.Parts.{Part, events_of, on_events-events_of}
use fcgijwtauth.Form.Upload.{decode_urlencoded}
use fcgijwtauth.Form.Upload.Laws.{decode_urlencoded_lem}
use fcgijwtauth.Tests.Templates.{web}

-- The field "a" with the text "xyz" in two pieces, and the field "b" without text.
abbrev parts : List Part
parts =
    record { name = b'a' ∷ []; pieces = (b'x' ∷ []) ∷ (b'y' ∷ b'z' ∷ []) ∷ [] }
    ∷ record { name = b'b' ∷ []; pieces = [] }
    ∷ []

abbrev posted : Form web
posted = record (init web) {
  save_files = true;
  fields =
      (b'a' ∷ [], record new_field { data_len = 3; body = some (b'x' ∷ b'y' ∷ b'z' ∷ []) })
      ∷ (b'b' ∷ [], record new_field { data_len = 0; body = some [] })
      ∷ [];
}

on_events-events_of_example :
    on_events web (events_of parts) (record (init web) { save_files = true }) ≡ ok (posted, true)
on_events-events_of_example =
    on_events-events_of web parts true ((omega arith, tt), ((omega arith, tt), tt))

-- Four bytes do not fit a buffer of four, which has to hold the terminator too.
decode_urlencoded_lem_example : decode_urlencoded web 4 (b'a' ∷ b'=' ∷ b'1' ∷ b'2' ∷ []) ≡ none
decode_urlencoded_lem_example = decode_urlencoded_lem web 4 (b'a' ∷ b'=' ∷ b'1' ∷ b'2' ∷ [])

-- "n=\"x\"; name=\"y\""
abbrev short_name : Attribute
short_name = record { name = b'n' ∷ []; value = some (b'x' ∷ []) }

abbrev full_name : Attribute
full_name = record { name = b'n' ∷ b'a' ∷ b'm' ∷ b'e' ∷ []; value = some (b'y' ∷ []) }

short_name-IsAttribute : IsAttribute short_name
short_name-IsAttribute = record { starts = refl; plain = (refl, tt); value_is = (omega arith, tt) }

full_name-IsAttribute : IsAttribute full_name
full_name-IsAttribute = record {
  starts = refl;
  plain = (refl, (refl, (refl, (refl, tt))));
  value_is = (omega arith, tt);
}

find_attribute_value-header_of_example :
    find_attribute_value (header_of (short_name ∷ full_name ∷ [])) (b'n' ∷ b'a' ∷ b'm' ∷ b'e' ∷ [])
    ≡ value_of (b'n' ∷ b'a' ∷ b'm' ∷ b'e' ∷ []) (short_name ∷ full_name ∷ [])
find_attribute_value-header_of_example =
    find_attribute_value-header_of (b'n' ∷ b'a' ∷ b'm' ∷ b'e' ∷ []) short_name (full_name ∷ [])
      short_name-IsAttribute (full_name-IsAttribute, tt)

-- The value that is found is that of the shorter name.
found_short :
    value_of (b'n' ∷ b'a' ∷ b'm' ∷ b'e' ∷ []) (short_name ∷ full_name ∷ []) ≡ some (b'x' ∷ [])
unfolding value_of is_prefix
found_short = refl

-- An upload that ends in the middle of the file "f".
abbrev cut_short : List MimeEvent
cut_short =
    MimeEvent.header (lit "Content-Disposition") (lit "form-data; name=\"a\"; filename=\"f\"")
    ∷ MimeEvent.element_begin
    ∷ MimeEvent.element_chunk (b'x' ∷ [])
    ∷ []

abbrev uploading : Form web
uploading = record (init web) {
  save_files = true;
  is_open = true;
  fields =
      (
        b'a' ∷ [],
        record new_field { data_len = 1; filename = some (b'f' ∷ []); file = some (b'x' ∷ []) },
      )
      ∷ [];
}

file_received :
    on_events web cut_short (record (init web) { save_files = true }) ≡ ok (uploading, true)
unfolding on_events on_event get_name get_filename
file_received = refl

dispose-on_events_example : closed_of (dispose uploading) ≤ 1
dispose-on_events_example = dispose-on_events web cut_short true uploading true file_received

both_done : dispose uploading ≡ Disposal.closed_temporary ∷ Disposal.unlinked ∷ []
unfolding dispose
both_done = refl
