-- ===== src/HttpClient.antt =====
-- httpclient.c: `http_post` over libcurl, which calls `write_callback` for each piece of the answer
-- until one call returns less than it was given. Allocations are taken to succeed.
pub mod Laws
use fcgijwtauth.Base.{
  ℕ, zero, suc, ◌+◌, ◌-◌, ◌*◌, ◌%◌, ◌^◌, Bool, true, false, ◌&&◌, ◌||◌, not, Option, none, some,
  List, [], ◌∷◌, ◌++◌, ltb, leb, ◌==◌, if◌then◌else◌, Bytes, length, lit, is_nil,
}
use fcgijwtauth.Web.{Web, Performed}

-- `MAX_RESPONSE_SIZE` of httpclient.h.
abbrev pub max_response_size : ℕ
max_response_size = 1024 * 1024

-- The buffer behind the call and the number that it returns. `MAX_RESPONSE_SIZE - buf->length` is
-- unsigned, 64 bits wide.
unfoldable pub write_callback : Bytes → Bytes → Bytes × ℕ
write_callback piece buffer =
    let room = (max_response_size + 2 ^ 64 - length buffer) % 2 ^ 64 in
    if length piece == 0
    then (buffer, 0)
    else if ltb room (length piece)
    then (buffer, 0)
    else (buffer ++ piece, length piece)

-- The pieces one after the other; libcurl fails where the callback takes fewer bytes than it gave.
unfoldable pub write_pieces : List Bytes → Bytes → Bytes × Bool
unfolding write_callback
write_pieces [] buffer = (buffer, true)
write_pieces (piece ∷ pieces) buffer =
    let (buffer', written) = write_callback piece buffer in
    let rest = write_pieces pieces buffer' in
    if written == length piece then rest else (buffer', false)

pub record HttpResponse : Type 0 where
  pub content_type : Option Bytes
  pub body : Bytes

abbrev kept_type : Performed → Option Bytes
kept_type p = if p.status == 200 then p.content_type else none

-- `none` is the return of -1, behind which the response is the empty one.
unfoldable pub http_post : Web → Option Bytes → Bytes → Bytes → Option HttpResponse
unfolding write_pieces
http_post web none content_type post_data = none
http_post web (some url) content_type post_data =
    let p = web.perform_post url content_type post_data in
    let (buffer, complete) = write_pieces p.pieces [] in
    if p.is_ok && complete
    then some (record { content_type = kept_type p; body = buffer })
    else none
