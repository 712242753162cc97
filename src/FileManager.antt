-- ===== src/FileManager.antt =====
-- appfileman.cpp: the file manager, which shows a user the groups that a database lists for the
-- address in the token, and the files of these groups. What it writes to stderr is left out, and so is
-- `fileman_process_index_post_request`, which nothing calls.
pub mod Finished
pub mod System
pub mod Setup
pub mod Launcher
use fcgijwtauth.Base.{
  ℤ, Bool, Option, none, some, List, [], ◌∷◌, ◌++◌, if◌then◌else◌, Bytes, bytes_eq, lit, concat,
}
use fcgijwtauth.Outcome.{Exception, Outcome, ok, throws, undefined}
use fcgijwtauth.Library.{Library}
use fcgijwtauth.Cookies.{get_token_from_cookie_or_authorization, c_string}
use fcgijwtauth.UserContext.{JwtUserContext, get_user_context}
use fcgijwtauth.Fcgi.{Event}
use fcgijwtauth.Login.{Request}

-- `filesystem_fileitem_ex`, with the two bits of its attributes that are read.
pub record FileItem : Type 0 where
  pub name : Bytes
  pub is_directory : Bool
  pub is_symbolic_link : Bool

-- The rows of a statement, and the exception that ends the loop over them, if one does.
pub record Rows : Type 0 where
  pub group_ids : List ℤ
  pub broken : Option Exception

-- The SQLite wrapper, the listing of files and the printing of numbers, which are not in the
-- repository.
pub record Data : Type 0 where
  -- "SELECT groupid FROM users WHERE username = ?;", prepared, and then bound to a name.
  pub select_groups : Outcome (Bytes → Outcome Rows)
  -- `filesystemex_list(file_listing, location, location, 1, 64)` into an empty list.
  pub list_files : Bytes → List FileItem
  -- "%d" of a number of 64 bits, in `FCGX_FPrintF` and in `dynstring_sprintf`.
  pub print_number : ℤ → Bytes

-- What was done to the request, and how the call ended.
abbrev pub Handled : Type 0
Handled = List Event × Outcome (Unit {0})

-- Calls one after the other: the second is made where the first one returned.
abbrev pub followed_by : List Event → Handled → Handled
followed_by events (later, ended) = (events ++ later, ended)

-- A value that has to be computed first; nothing is done to the request by that.
abbrev pub given {ℓ} : {A : Type ℓ} → Outcome A → (A → Handled) → Handled
given (ok a) next = next a
given (throws e) next = ([], throws e)
given undefined next = ([], undefined)

-- The reading of a member through the pointer, which may be null.
abbrev pub dereferenced : Option JwtUserContext → Outcome JwtUserContext
dereferenced none = undefined
dereferenced (some user_ctx) = ok user_ctx

abbrev pub ended_rows : Option Exception → Outcome (Unit {0})
ended_rows none = ok tt
ended_rows (some e) = throws e

-- The loop over the rows, and what follows it where it ends.
abbrev pub after_rows : Option Exception → Handled → Handled
after_rows none next = next
after_rows (some e) next = ([], throws e)

unfoldable pub user_page : JwtUserContext → Bytes
unfolding lit c_string
user_page user_ctx = concat (
    lit "Status: 200\r\nContent-Type: text/plain; charset=utf-8\r\n\r\n"
    ∷ lit "user parsed from jwt ----\r\nemail address: ["
    ∷ c_string user_ctx.email_address
    ∷ lit "]\r\nfriendly name: "
    ∷ c_string user_ctx.friendly_name
    ∷ lit "\r\n"
    ∷ [])

unfoldable pub exception_page : Bytes
unfolding lit
exception_page =
    lit "Status: 500\r\nContent-Type: text/plain; charset=utf-8\r\n\r\n"
    ++ lit "500 Internal Server Error\r\nPlease see logs\r\n"

-- The `catch` clause.
abbrev pub answering_exceptions : Handled → Handled
answering_exceptions (events, ok u) = (events, ok u)
answering_exceptions (events, throws e) =
    (events ++ Event.put exception_page ∷ Event.flush ∷ Event.close ∷ Event.finish ∷ [], ok tt)
answering_exceptions (events, undefined) = (events, undefined)

-- A parameter that is printed and compared through its pointer, which may be null.
abbrev pub non_null : Option Bytes → (Bytes → Handled) → Handled
non_null none next = ([], undefined)
non_null (some text) next = next text

module _ (lib : Library) (data_source : Data) where
  open data_source use {select_groups, list_files, print_number}

  -- `jwtinterface_getusercontext` of the token in the cookie; `none` is the null pointer.
  unfoldable pub user_of : Request → Outcome (Option JwtUserContext)
  unfolding get_token_from_cookie_or_authorization get_user_context lit
  user_of req = get_user_context lib (
      get_token_from_cookie_or_authorization (req.get_param (lit "HTTP_COOKIE"))
        (req.get_param (lit "HTTP_AUTHORIZATION")))

  -- One line for each row.
  unfoldable pub put_groups : List ℤ → List Event
  unfolding lit
  put_groups [] = []
  put_groups (group_id ∷ group_ids) =
      Event.put (print_number group_id ++ lit "\r\n") ∷ put_groups group_ids

  unfoldable pub fileman_process_index_get_request : Request → Handled
  unfolding user_of user_page put_groups lit
  fileman_process_index_get_request req = given (user_of req) λ pointed.
      given (dereferenced pointed) λ user_ctx. followed_by (Event.put (user_page user_ctx) ∷ []) (
        given select_groups λ bound. given (bound (c_string user_ctx.email_address)) λ rows.
          followed_by (Event.put (lit "Group membership:\r\n") ∷ put_groups rows.group_ids)
            (after_rows rows.broken (Event.flush ∷ Event.close ∷ Event.finish ∷ [], ok tt)))

  unfoldable pub file_line : ℤ → FileItem → Bytes
  unfolding lit c_string
  file_line client_id file =
      let filename = concat (print_number client_id ∷ lit "/" ∷ c_string file.name ∷ []) in
      concat (
        (if file.is_directory then lit "DIR " else [])
        ∷ (if file.is_symbolic_link then lit "SYM " else [])
        ∷ lit "<a href=\""
        ∷ filename
        ∷ lit "\">"
        ∷ filename
        ∷ lit "</a><br/>\r\n"
        ∷ [])

  unfoldable pub file_lines : ℤ → List FileItem → Bytes
  unfolding file_line
  file_lines client_id [] = []
  file_lines client_id (file ∷ files) = file_line client_id file ++ file_lines client_id files

  -- The list is cleared behind each group.
  unfoldable pub file_listing_html : List ℤ → Bytes
  unfolding file_lines lit
  file_listing_html [] = []
  file_listing_html (client_id ∷ group_ids) =
      file_lines client_id
        (list_files (concat (lit "data/" ∷ print_number client_id ∷ lit "/" ∷ [])))
      ++ file_listing_html group_ids

  unfoldable pub fileman_process_list_get_request : Request → Handled
  unfolding user_of file_listing_html lit
  fileman_process_list_get_request req = given (user_of req) λ pointed. given select_groups λ bound.
      given (dereferenced pointed) λ user_ctx.
        given (bound (c_string user_ctx.email_address)) λ rows. after_rows rows.broken (
          Event.put (lit "Status: 200 OK\r\nContent-Type: text/html; charset=utf-8\r\n\r\n")
              ∷ Event.put (file_listing_html rows.group_ids)
              ∷ Event.flush
              ∷ Event.finish
              ∷ [],
          ok tt,
        )

  -- The request is a GET; another path is left without an answer.
  unfoldable pub route : Request → Bytes → Handled
  unfolding fileman_process_index_get_request fileman_process_list_get_request lit
  route req path_info =
      let index = fileman_process_index_get_request req in
      let listing = fileman_process_list_get_request req in
      if bytes_eq path_info (lit "index")
      then index
      else if bytes_eq path_info (lit "list")
      then listing
      else ([], ok tt)

  unfoldable pub fileman_process_request : Request → Handled
  unfolding route exception_page lit
  fileman_process_request req = non_null (req.get_param (lit "REQUEST_METHOD")) λ request_method.
      non_null (req.get_param (lit "PATH_INFO")) λ path_info.
        let get = answering_exceptions (route req path_info) in
        if bytes_eq request_method (lit "GET") then get else ([], ok tt)
