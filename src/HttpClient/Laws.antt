-- ===== src/HttpClient/Laws.antt =====
-- The size of what `http_post` keeps.
use fcgijwtauth.Base.{
  concat, ◌+◌, ◌≤◌, ◌<◌, ◌≡◌, refl, true, false, ◌&&◌, none, some, List, [], ◌∷◌, ◌++◌, Bytes,
  arith, length, length-append, Bool-cases, inl, inr, append-nil, append_assoc, leb, ==_iff,
  if◌then◌else◌,
}
use fcgijwtauth.Web.{Web, Performed}
use fcgijwtauth.HttpClient.{max_response_size, write_callback, write_pieces, kept_type, http_post}

write_callback-fit :
    (piece buffer : Bytes)
    → length buffer + length piece ≤ max_response_size
    → write_callback piece buffer ≡ (buffer ++ piece, length piece)
unfolding write_callback
write_callback-fit [] buffer h = ground (arith, append-nil buffer)
write_callback-fit (x ∷ piece) buffer h = ground arith

write_callback-full :
    (piece buffer : Bytes)
    → length buffer ≤ max_response_size
    → max_response_size < length buffer + length piece
    → (write_callback piece buffer).1 ≡ 0
unfolding write_callback
write_callback-full piece buffer h k = ground arith

write_pieces-fit :
    (pieces : List Bytes) (buffer : Bytes)
    → length buffer + length (concat pieces) ≤ max_response_size
    → write_pieces pieces buffer ≡ (buffer ++ concat pieces, true)
unfolding write_pieces
write_pieces-fit [] buffer h = rw append-nil
write_pieces-fit (piece ∷ pieces) buffer h =
    let size = length-append piece (concat pieces) in
    let taken = write_callback-fit piece buffer (omega (arith, size)) in
    let rest =
      write_pieces-fit pieces (buffer ++ piece) (omega (arith, size, length-append buffer piece)) in
    rw (taken, (==_iff (length piece) (length piece)).1 refl, rest) (rw append_assoc)

write_pieces-full :
    (pieces : List Bytes) (buffer : Bytes)
    → length buffer ≤ max_response_size
    → max_response_size < length buffer + length (concat pieces)
    → (write_pieces pieces buffer).1 ≡ false
unfolding write_pieces
write_pieces-full [] buffer h k = absurd (omega arith)
write_pieces-full (piece ∷ pieces) buffer h k =
    let size = length-append piece (concat pieces) in
    elim (Bool-cases (leb (length buffer + length piece) max_response_size)) [
      | inl fits ↦
          let taken = write_callback-fit piece buffer (ground arith) in
          rw (taken, (==_iff (length piece) (length piece)).1 refl)
            (write_pieces-full pieces (buffer ++ piece) (ground (arith, length-append buffer piece))
              (ground (arith, size, length-append buffer piece)))
      | inr full ↦
          let none_taken = write_callback-full piece buffer h (ground arith) in
          rw none_taken (ground arith)
    ]

-- `http_post` keeps the whole body, in the order of its pieces, exactly if the transfer succeeds and
-- the body has at most `MAX_RESPONSE_SIZE` bytes; otherwise it fails and keeps nothing. The content
-- type is kept at the status 200 alone.
pub http_post_lem :
    (web : Web) (url content_type post_data : Bytes) (p : Performed)
    → web.perform_post url content_type post_data ≡ p
    → http_post web (some url) content_type post_data ≡ (
        if p.is_ok && leb (length (concat p.pieces)) max_response_size
        then some (record { content_type = kept_type p; body = concat p.pieces })
        else none)
unfolding http_post
http_post_lem web url content_type post_data p e =
    elim (Bool-cases (leb (length (concat p.pieces)) max_response_size)) [
      | inl fits ↦ rw (e, http_post) (rw (write_pieces-fit p.pieces [] (ground arith), fits) refl)
      | inr full ↦
          rw (e, http_post)
            (rw (write_pieces-full p.pieces [] (ground arith) (ground arith), full) (ground arith))
    ]
