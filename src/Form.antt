-- ===== src/Form.antt =====
-- formdecoder.c: the fields of a form that was posted, and what the MIME decoder's events make of
-- them. A `simplemap` is a list of pairs that may repeat a key. Allocations and the creation of
-- temporary files are taken to succeed, and so are complete writes to these.
pub mod Header
pub mod Decode
pub mod Upload
pub mod Disposal
use mathlib.Core.Option
use fcgijwtauth.Base.{
  ℕ, zero, suc, ◌+◌, Bool, true, false, ◌&&◌, ◌||◌, not, Option, none, some, List, [], ◌∷◌, ◌++◌,
  ◌==◌, if◌then◌else◌, Bytes, bytes_eq, length, take, lit,
}
use fcgijwtauth.Outcome.{Outcome, ok, throws, undefined}
use fcgijwtauth.Web.{Web}
use fcgijwtauth.Form.Header.{get_name, get_filename, is_prefix}

pub data Kind : Type 0 where
  multipart query_string : Kind

-- `struct formdecoder_context_field`. `body` is none for the null pointer; `file` holds what was
-- written to the temporary file of the field, as long as its descriptor is open, and `saved` what it
-- held when it was closed; `zeroed` is set where `fd` is 0, as the memory was cleared to.
pub record Field : Type 0 where
  pub data_len : ℕ
  pub body : Option Bytes
  pub mime_type : Option Bytes
  pub filename : Option Bytes
  pub file : Option Bytes
  pub saved : Option Bytes
  pub zeroed : Bool

abbrev pub new_field : Field
new_field = record {
  data_len = 0;
  body = none;
  mime_type = none;
  filename = none;
  file = none;
  saved = none;
  zeroed = false;
}

-- The field that `current_field` points at is the last of the list where `is_open` is set.
-- `collected` is the buffer of `current_field_data`, none where it is null.
pub record Form (web : Web) : Type 0 where
  pub kind : Kind
  pub fields : List (Bytes × Field)
  pub is_open : Bool
  pub collected : Option Bytes
  pub query : Option web.Query
  pub save_files : Bool

abbrev pub init : (web : Web) → Form web
init web = record {
  kind = multipart;
  fields = [];
  is_open = false;
  collected = none;
  query = none;
  save_files = false;
}

module _ {ℓ} {V : Type ℓ} where
  -- `simplemap_findfromkey`: the value at the idx-th place with that key.
  unfoldable pub find_nth : Bytes → ℕ → List (Bytes × V) → Option V
  find_nth key idx [] = none
  find_nth key zero ((k, v) ∷ m) =
      let next = find_nth key 0 m in if bytes_eq k key then some v else next
  find_nth key (suc idx) ((k, v) ∷ m) =
      let same = find_nth key idx m in
      let next = find_nth key (suc idx) m in if bytes_eq k key then same else next

  unfoldable pub remove_first : Bytes → List (Bytes × V) → List (Bytes × V)
  remove_first key [] = []
  remove_first key ((k, v) ∷ m) =
      let rest = remove_first key m in if bytes_eq k key then m else (k, v) ∷ rest

  abbrev pub modify_last : (V → V) → List (Bytes × V) → List (Bytes × V)
  modify_last f [] = []
  modify_last f ((k, v) ∷ []) = (k, f v) ∷ []
  modify_last f ((k, v) ∷ p ∷ m) = (k, v) ∷ modify_last f (p ∷ m)

  abbrev pub last_value : List (Bytes × V) → Option V
  last_value [] = none
  last_value ((k, v) ∷ []) = some v
  last_value ((k, v) ∷ p ∷ m) = last_value (p ∷ m)

module _ (web : Web) where
  -- `formdecoder_takefieldvalue`: the length and the data, and the form without the field.
  unfoldable pub take_field_value : Bytes → Form web → Form web × Option (ℕ × Option Bytes)
  unfolding find_nth remove_first
  take_field_value key form = elim (find_nth key 0 form.fields) [
    | none ↦ (form, none)
    | some field ↦
        (record form { fields = remove_first key form.fields }, some (field.data_len, field.body))
  ]

  -- `formdecoder_setfield`: whether it returns 0. The key is not there, so nothing is replaced.
  unfoldable pub set_field : Bytes → ℕ → Option Bytes → Form web → Form web × Bool
  unfolding find_nth
  set_field key data_len body form = elim (find_nth key 0 form.fields) [
    | some field ↦ (form, false)
    | none ↦ (
      record form {
        fields =
            form.fields
            ++ (key, record new_field { data_len = data_len; body = body; zeroed = true }) ∷ [];
      },
      true,
    )
  ]

  -- `formdecoder_getfield`: none where it does not return 0, else the length and the data.
  unfoldable pub get_field : Form web → Bytes → Option (ℕ × Option Bytes)
  unfolding find_nth
  get_field form key = elim form.kind [
    | query_string ↦ Option.map (λ v. (length v, some v)) (web.get_by_key form.query key)
    | multipart ↦
        Option.map (λ (field : Field). (field.data_len, field.body)) (find_nth key 0 form.fields)
  ]

  unfoldable pub get_field_ex : Form web → Bytes → ℕ → Option Field
  unfolding find_nth
  get_field_ex form key idx = elim form.kind [
    | multipart ↦ find_nth key idx form.fields
    | query_string ↦ none
  ]

  unfoldable pub field_count : Form web → ℕ
  field_count form = length form.fields
