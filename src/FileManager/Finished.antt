-- ===== src/FileManager/Finished.antt =====
-- Whether a page of the file manager is finished, by whatever way the handlers are left.
use fcgijwtauth.Base.{
  ◌≡◌, ◌≢◌, refl, ap, sym, ◌∙◌, ◌⊎◌, inl, inr, Option, none, some, List, [], ◌∷◌, ◌++◌,
  append_assoc, Bytes, bytes_eq, ℤ, drop, bytes_eq_iff, lit,
}
use fcgijwtauth.Outcome.{Exception, Outcome, ok, throws, undefined, Outcome-cases}
use fcgijwtauth.Library.{Library}
use fcgijwtauth.Cookies.{c_string}
use fcgijwtauth.UserContext.{JwtUserContext}
use fcgijwtauth.Fcgi.{Event}
use fcgijwtauth.Login.{Request}
use fcgijwtauth.FileManager.{
  Rows, Data, Handled, followed_by, given, after_rows, answering_exceptions, user_of, user_page,
  put_groups, file_listing_html, exception_page, fileman_process_index_get_request,
  fileman_process_list_get_request, route, fileman_process_request,
}

-- Where a call returns, this holds of what was done to the request; it may also throw.
abbrev When : (List Event → Type 0) → Handled → Type 0
When P (events, ok u) = P events
When P (events, throws e) = Unit
When P (events, undefined) = ⊥

abbrev Finishes : List Event → Type 0
Finishes events = (before : List Event) × (events ≡ before ++ Event.finish ∷ [])

-- The first thing is the status 200, and the last one that the request is finished.
abbrev pub IsPage : List Event → Type 0
IsPage events =
    (head : Bytes) × (rest : List Event) × (events
      ≡ Event.put (lit "Status: 200" ++ head) ∷ (rest ++ Event.finish ∷ []))

-- The status 500 with its text, and then the request is finished.
abbrev pub error_answer : List Event
error_answer =
    Event.put (
      lit "Status: 500\r\nContent-Type: text/plain; charset=utf-8\r\n\r\n"
      ++ lit "500 Internal Server Error\r\nPlease see logs\r\n")
    ∷ Event.flush
    ∷ Event.close
    ∷ Event.finish
    ∷ []

followed_by-Finishes :
    (events : List Event) (h : Handled) → When Finishes h → When Finishes (followed_by events h)
followed_by-Finishes events (later, ok u) (before, e) = (
  events ++ before,
  ap (λ es. events ++ es) e ∙ sym (append_assoc events before (Event.finish ∷ [])),
)
followed_by-Finishes events (later, throws e) a = tt
followed_by-Finishes events (later, undefined) a = a

followed_by-IsPage :
    (head : Bytes) (h : Handled)
    → When Finishes h
    → When IsPage (followed_by (Event.put (lit "Status: 200" ++ head) ∷ []) h)
followed_by-IsPage head (later, ok u) (before, e) =
    (head, before, ap (λ es. Event.put (lit "Status: 200" ++ head) ∷ es) e)
followed_by-IsPage head (later, throws e) a = tt
followed_by-IsPage head (later, undefined) a = a

given-When {ℓ} :
    {A : Type ℓ} (P : List Event → Type 0) (m : Outcome A) (next : A → Handled)
    → m ≢ undefined
    → ((a : A) → When P (next a))
    → When P (given m next)
given-When P (ok a) next d h = h a
given-When P (throws e) next d h = tt
given-When P undefined next d h = d refl

after_rows-When :
    (P : List Event → Type 0) (broken : Option Exception) (h : Handled)
    → When P h
    → When P (after_rows broken h)
after_rows-When P none h a = a
after_rows-When P (some e) h a = tt

user_page_status :
    (user_ctx : JwtUserContext) → (head : Bytes) × (user_page user_ctx ≡ lit "Status: 200" ++ head)
unfolding user_page lit
user_page_status user_ctx = (drop 11 (user_page user_ctx), refl)

list_status :
    lit "Status: 200 OK\r\nContent-Type: text/html; charset=utf-8\r\n\r\n"
    ≡ lit "Status: 200" ++ lit " OK\r\nContent-Type: text/html; charset=utf-8\r\n\r\n"
unfolding lit
list_status = refl

-- What the `catch` clause makes of a call: it is left as it is, or the status 500 is put behind it.
abbrev pub Caught : Handled → Handled → Type 0
Caught h answer =
    (IsPage h.0 × (h.1 ≡ ok tt) × (answer ≡ h))
    ⊎ ((e : Exception) × (h.1 ≡ throws e) × (answer ≡ (h.0 ++ error_answer, ok tt)))

answering_exceptions-Caught : (h : Handled) → When IsPage h → Caught h (answering_exceptions h)
unfolding exception_page
answering_exceptions-Caught (events, ok u) page = inl (page, refl, refl)
answering_exceptions-Caught (events, throws e) a = inr (e, refl, refl)
answering_exceptions-Caught (events, undefined) a = absurd a

-- The statement on the database is prepared and bound, or one of these throws.
pub record Returns (data_source : Data) : Type 0 where
  pub prepared : data_source.select_groups ≢ undefined
  pub bound :
      (bound : Bytes → Outcome Rows)
      → data_source.select_groups ≡ ok bound
      → (user : Bytes) → bound user ≢ undefined

module _ (lib : Library) (data_source : Data) (returns : Returns data_source) (req : Request) where
  -- The token names no user, and nothing was done; or the call is left in a defined way.
  abbrev Known : Handled → Type 0
  Known h = ((user_of lib data_source req ≡ ok none) × (h ≡ ([], undefined))) ⊎ When IsPage h

  -- What comes of the statement.
  rows-When :
      (P : List Event → Type 0) (bound : Bytes → Outcome Rows) (user : Bytes)
      (next : Rows → Handled)
      → data_source.select_groups ≡ ok bound
      → ((rows : Rows) → When P (next rows))
      → When P (given (bound user) next)
  rows-When P bound user next e h = given-When P (bound user) next (returns.bound bound e user) h

  select-When :
      (P : List Event → Type 0) (next : (Bytes → Outcome Rows) → Handled)
      → ((bound : Bytes → Outcome Rows)
          → data_source.select_groups ≡ ok bound
          → When P (next bound))
      → When P (given data_source.select_groups next)
  select-When P next h = elim (Outcome-cases data_source.select_groups) [
    | inl (bound, e) ↦ rw e (h bound e)
    | inr (inl (_, e)) ↦ rw e tt
    | inr (inr e) ↦ absurd (returns.prepared e)
  ]

  -- What the index page puts behind the user.
  abbrev behind_user : JwtUserContext → Handled
  behind_user user_ctx = given data_source.select_groups λ bound.
      given (bound (c_string user_ctx.email_address)) λ rows.
        followed_by
          (Event.put (lit "Group membership:\r\n") ∷ put_groups lib data_source rows.group_ids)
          (after_rows rows.broken (Event.flush ∷ Event.close ∷ Event.finish ∷ [], ok tt))

  behind_user-Finishes : (user_ctx : JwtUserContext) → When Finishes (behind_user user_ctx)
  behind_user-Finishes user_ctx = select-When Finishes _ λ bound prepared.
      rows-When Finishes bound (c_string user_ctx.email_address) _ prepared λ rows.
        followed_by-Finishes
          (Event.put (lit "Group membership:\r\n") ∷ put_groups lib data_source rows.group_ids) _
          (after_rows-When Finishes rows.broken
            (Event.flush ∷ Event.close ∷ Event.finish ∷ [], ok tt)
            (Event.flush ∷ Event.close ∷ [], refl))

  index-Known :
      user_of lib data_source req ≢ undefined
      → Known (fileman_process_index_get_request lib data_source req)
  unfolding fileman_process_index_get_request
  index-Known d = elim (Outcome-cases (user_of lib data_source req)) [
    | inl (none, e) ↦ inl (e, rw e refl)
    | inl (some user_ctx, e) ↦
        let (head, page) = user_page_status user_ctx in
        inr (
          rw e (
            rw page
              (followed_by-IsPage head (behind_user user_ctx) (behind_user-Finishes user_ctx))))
    | inr (inl (_, e)) ↦ inr (rw e tt)
    | inr (inr e) ↦ absurd (d e)
  ]

  -- The list page, where the loop over the rows ends.
  listed :
      (group_ids : List ℤ)
      → IsPage (
          Event.put (lit "Status: 200 OK\r\nContent-Type: text/html; charset=utf-8\r\n\r\n")
          ∷ Event.put (file_listing_html lib data_source group_ids)
          ∷ Event.flush
          ∷ Event.finish
          ∷ [])
  listed group_ids = (
    lit " OK\r\nContent-Type: text/html; charset=utf-8\r\n\r\n",
    Event.put (file_listing_html lib data_source group_ids) ∷ Event.flush ∷ [],
    rw list_status refl,
  )

  list-Known :
      user_of lib data_source req ≢ undefined
      → Known (fileman_process_list_get_request lib data_source req)
  unfolding fileman_process_list_get_request
  list-Known d = elim (Outcome-cases (user_of lib data_source req)) [
    | inl (none, e) ↦ elim (Outcome-cases data_source.select_groups) [
      | inl (bound, p) ↦ inl (e, rw (e, p) refl)
      | inr (inl (_, p)) ↦ inr (rw (e, p) tt)
      | inr (inr p) ↦ absurd (returns.prepared p)
    ]
    | inl (some user_ctx, e) ↦ inr (
        rw e (
          select-When IsPage _ λ bound prepared.
            rows-When IsPage bound (c_string user_ctx.email_address) _ prepared
              λ rows. after_rows-When IsPage rows.broken _ (listed rows.group_ids)))
    | inr (inl (_, e)) ↦ inr (rw e tt)
    | inr (inr e) ↦ absurd (d e)
  ]

  routed_index :
      route lib data_source req (lit "index")
      ≡ fileman_process_index_get_request lib data_source req
  unfolding route lit bytes_eq
  routed_index = refl

  routed_list :
      route lib data_source req (lit "list") ≡ fileman_process_list_get_request lib data_source req
  unfolding route lit bytes_eq
  routed_list = refl

  routed_get :
      (path : Bytes)
      → req.get_param (lit "REQUEST_METHOD") ≡ some (lit "GET")
      → req.get_param (lit "PATH_INFO") ≡ some path
      → fileman_process_request lib data_source req
        ≡ answering_exceptions (route lib data_source req path)
  routed_get path method path_info =
      unfold fileman_process_request in
      rw (method, path_info) (rw ((bytes_eq_iff (lit "GET") (lit "GET")).1 refl) refl)

  routed_cases :
      (path : Bytes)
      → (path ≡ lit "index") ⊎ (path ≡ lit "list")
      → user_of lib data_source req ≢ undefined
      → Known (route lib data_source req path)
  routed_cases path (inl index) d = rw (index, routed_index) (index-Known d)
  routed_cases path (inr listing) d = rw (listing, routed_list) (list-Known d)

  -- The two pages are answered to the end. Where the page's handler returns, it has put the status 200
  -- first and finished the request last, and nothing is added to that; where it throws, the status 500
  -- with its text is put behind what it has put, and the request is finished. The exception is a token
  -- that names no user, where the call may be undefined with nothing done to the request. The reading of
  -- the token is defined, and so is the statement on the database.
  pub fileman_process_request-finish :
      (path : Bytes)
      → user_of lib data_source req ≢ undefined
      → req.get_param (lit "REQUEST_METHOD") ≡ some (lit "GET")
      → req.get_param (lit "PATH_INFO") ≡ some path
      → (path ≡ lit "index") ⊎ (path ≡ lit "list")
      → ((user_of lib data_source req ≡ ok none)
          × (fileman_process_request lib data_source req ≡ ([], undefined)))
        ⊎ Caught (route lib data_source req path) (fileman_process_request lib data_source req)
  fileman_process_request-finish path d method path_info known =
      let called = routed_get path method path_info in
      elim (routed_cases path known d) [
        | inl (none_named, e) ↦ inl (none_named, called ∙ ap answering_exceptions e)
        | inr page ↦
            inr (rw called (answering_exceptions-Caught (route lib data_source req path) page))
      ]
