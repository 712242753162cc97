-- ===== src/Form/Upload.antt =====
-- formdecoder_fastcgi.c: the body of a POST read into a form. `FCGX_GetStr` reads as many bytes as it
-- is asked for, or all that are left. What is noted in the errorinfo_context is left out.
pub mod Laws
use fcgijwtauth.Base.{
  ℕ, zero, suc, ◌+◌, ◌-◌, ◌≤◌, Bool, true, false, not, Option, none, some, List, [], ◌∷◌, ◌++◌, ltb,
  leb, ◌==◌, if◌then◌else◌, Bytes, bytes_eq, length, take, drop, lit, is_nil,
}
use fcgijwtauth.Outcome.{Outcome, ok, throws, undefined, ◌>>=◌}
use fcgijwtauth.Web.{Web}
use fcgijwtauth.Form.{Form, Kind, init}
use fcgijwtauth.Form.Header.{is_prefix}
use fcgijwtauth.Form.Decode.{MimeEvent, on_event}

-- `mimedecoder_setcontenttype`, `mimedecoder_decode` on each piece and `mimedecoder_finalise`, with a
-- limit on the size and a callback: the form that the callback made, and whether all returned 0.
abbrev pub MimeDecoder : Web → Type 0
MimeDecoder web =
    (MimeEvent → Form web → Outcome (Form web × Bool))
    → ℕ
    → Bytes
    → List Bytes
    → Form web
    → Outcome (Form web × Bool)

abbrev pub read_buffer_size : ℕ
read_buffer_size = 8192

-- The pieces that the loop of the multipart decoder reads; each takes a byte at least.
unfoldable pub pieces_from : ℕ → Bytes → List Bytes
pieces_from zero input = []
pieces_from (suc fuel) [] = []
pieces_from (suc fuel) (c ∷ input) =
    take read_buffer_size (c ∷ input) ∷ pieces_from fuel (drop read_buffer_size (c ∷ input))

-- The loop of the other decoder: the bytes that are read into the buffer, or none where it is full.
unfoldable pub read_from : ℕ → ℕ → Bytes → Bytes → Option Bytes
read_from zero max_size buffer input = none
read_from (suc fuel) max_size buffer input =
    let bytes_to_read = max_size - length buffer in
    let got = take bytes_to_read input in
    let next = read_from fuel max_size (buffer ++ got) (drop bytes_to_read input) in
    if bytes_to_read == 0 then none else if is_nil got then some buffer else next

-- The environment and the input of a request.
pub record PostRequest : Type 0 where
  pub request_method : Option Bytes
  pub content_type : Option Bytes
  pub input : Bytes

module _ (web : Web) where
  abbrev succeeded : Form web × Bool → Option (Form web)
  succeeded (form, true) = some form
  succeeded (form, false) = none

  -- `none` is the return of -1.
  unfoldable pub decode_multipart :
      MimeDecoder web → ℕ → Bytes → Bytes → Outcome (Option (Form web))
  unfolding pieces_from on_event
  decode_multipart decoder max_size content_type input =
      decoder (on_event web) max_size content_type (pieces_from (length input) input)
        (record (init web) { save_files = true })
      >>= λ r. ok (succeeded r)

  unfoldable pub decode_urlencoded : ℕ → Bytes → Option (Form web)
  unfolding read_from
  decode_urlencoded max_size input = elim (read_from (suc (length input)) max_size [] input) [
    | none ↦ none
    | some buffer ↦
        let decoded : Option (Form web) = elim (web.decode_query (some buffer)) [
          | none ↦ none
          | some query ↦ some (record (init web) { kind = Kind.query_string; query = some query })
        ] in
        if leb max_size (length buffer) then none else decoded
  ]

  -- The branches on the content type.
  unfoldable pub decode_typed : MimeDecoder web → ℕ → Bytes → Bytes → Outcome (Option (Form web))
  unfolding decode_multipart decode_urlencoded is_prefix lit
  decode_typed decoder max_size content_type input =
      if is_prefix (lit "multipart/form-data") content_type
      then decode_multipart decoder max_size content_type input
      else if is_prefix (lit "application/x-www-form-urlencoded") content_type
      then ok (decode_urlencoded max_size input)
      else ok none

  unfoldable pub decode_request : MimeDecoder web → ℕ → PostRequest → Outcome (Option (Form web))
  unfolding decode_typed
  decode_request decoder max_size req = elim req.request_method [
    | none ↦ ok none
    | some request_method ↦
        let typed : Outcome (Option (Form web)) = elim req.content_type [
          | none ↦ ok none
          | some content_type ↦ decode_typed decoder max_size content_type req.input
        ] in
        if bytes_eq (lit "POST") request_method then typed else ok none
  ]
