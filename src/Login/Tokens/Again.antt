-- ===== src/Login/Tokens/Again.antt =====
-- The exchange of a code whose token is kept.
use fcgijwtauth.Base.{
  ℕ, ◌≡◌, ◌<◌, ◌≤◌, ◌+◌, ap, ◌∙◌, none, some, List, [], ◌∷◌, Bytes, bytes_eq, lit, bytes_eq_iff,
  arith, Bool-cases, Option-cases, inl, inr, All,
}
use fcgijwtauth.Outcome.{ok}
use fcgijwtauth.Library.{Library}
use fcgijwtauth.Web.{Web, Config}
use fcgijwtauth.HttpClient.{http_post}
use fcgijwtauth.Jwks.Store.{find_key, try_emplace}
use fcgijwtauth.Cookies.{c_string}
use fcgijwtauth.Login.{TimedEntry, Codes}
use fcgijwtauth.Login.Tokens.{
  remove_expired, got, lifetime, post_data, timed, keep_token, token_read, requested,
  get_tokens_from_microsoft,
}
use fcgijwtauth.Login.Tokens.Entries.{
  remove_expired-keeps, find_key-remove_expired, find_key-snoc_other, find_key-update_other,
  find_key-snoc_self, find_key-update_key,
}

-- The code has an entry whose value gives this token, and which does not expire before `until`.
abbrev pub Held : ℕ → Bytes → Codes → Bytes → Type 0
Held until code codes token =
    (entry : TimedEntry) × (find_key code codes ≡ some entry)
    × (c_string entry.value ≡ token)
    × (until ≤ entry.expires_at)

-- What a request makes of the codes holds if it holds of them as they are and with the code added.
module _ (lib : Library) (web : Web) (config : Config) where
  token_read-keeps :
      (P : Codes → Type 0) (code : Bytes) (codes : Codes) (val : lib.Value)
      → P codes
      → ((text : Bytes) → P (try_emplace code (timed lib web config text) codes).0)
      → P (token_read lib web config code codes val).0
  unfolding token_read keep_token
  token_read-keeps P code codes val h k = elim (Option-cases (lib.as_object val)) [
    | inl m ↦ rw (m, token_read) h
    | inr (obj, m) ↦ elim (Option-cases (find_key (lit "id_token") obj)) [
      | inl n ↦ rw (m, token_read) (rw (n, token_read) h)
      | inr (member, n) ↦ elim (Option-cases (lib.as_string member)) [
        | inl o ↦ rw (m, token_read) (rw (n, token_read) (rw (o, keep_token) h))
        | inr (text, o) ↦ rw (m, token_read) (rw (n, token_read) (rw (o, keep_token) (k text)))
      ]
    ]
  ]

  pub requested-keeps :
      (P : Codes → Type 0) (code : Bytes) (codes : Codes)
      → P codes
      → ((text : Bytes) → P (try_emplace code (timed lib web config text) codes).0)
      → P (requested lib web config code codes).0
  unfolding requested
  requested-keeps P code codes h k =
      elim (Option-cases (
        http_post web (some (lit "https://login.microsoftonline.com/common/oauth2/v2.0/token"))
          (lit "application/x-www-form-urlencoded") (post_data lib web config code))) [
            | inl n ↦ rw (n, requested) h
            | inr (r, n) ↦ rw (n, requested) (token_read-keeps P code codes (lib.parse r.body) h k)
          ]

module _ (lib : Library) (web : Web) (config : Config) where
  keep_token-Held :
      (code token : Bytes) (codes : Codes) (val : lib.Value) {codes' : Codes}
      → find_key code codes ≡ none
      → keep_token lib web config code codes val ≡ (codes', ok (got token))
      → Held (web.steady_now + lifetime) code codes' token
  unfolding keep_token try_emplace
  keep_token-Held code token codes val fresh e = elim (Option-cases (lib.as_string val)) [
    | inl m ↦ cc (rw (m, keep_token) at e)
    | inr (text, m) ↦
        let e' = rw (fresh, try_emplace) at (rw (m, keep_token) at e) in
        (
          timed lib web config text,
          rw (← ap (λ r. r.0) e') (find_key-snoc_self code (timed lib web config text) codes fresh),
          cc e',
          omega arith,
        )
  ]

  token_read-Held :
      (code token : Bytes) (codes : Codes) (val : lib.Value) {codes' : Codes}
      → find_key code codes ≡ none
      → token_read lib web config code codes val ≡ (codes', ok (got token))
      → Held (web.steady_now + lifetime) code codes' token
  unfolding token_read
  token_read-Held code token codes val fresh e = elim (Option-cases (lib.as_object val)) [
    | inl m ↦ cc (rw (m, token_read) at e)
    | inr (obj, m) ↦ elim (Option-cases (find_key (lit "id_token") obj)) [
      | inl n ↦ cc (rw (n, token_read) at (rw (m, token_read) at e))
      | inr (member, n) ↦
          keep_token-Held code token codes member fresh
            (rw (n, token_read) at (rw (m, token_read) at e))
    ]
  ]

  get_tokens_from_microsoft-Held :
      (code token : Bytes) (codes : Codes) {codes' : Codes}
      → get_tokens_from_microsoft lib web config code codes ≡ (codes', ok (got token))
      → Held (web.steady_now + lifetime) code codes' token
  unfolding get_tokens_from_microsoft requested
  get_tokens_from_microsoft-Held code token codes e = elim (Option-cases (find_key code codes)) [
    | inr (entry, m) ↦
        let e' = rw (m, get_tokens_from_microsoft) at e in
        let renewed : TimedEntry = record entry { expires_at = web.steady_now + lifetime } in
        (
          renewed,
          rw (← ap (λ r. r.0) e') (find_key-update_key code renewed codes m),
          cc e',
          omega arith,
        )
    | inl m ↦
        let live = remove_expired web.steady_now codes in
        let fresh = find_key-remove_expired web.steady_now code codes m in
        let e' = rw (m, get_tokens_from_microsoft) at e in
        elim (Option-cases (
          http_post web (some (lit "https://login.microsoftonline.com/common/oauth2/v2.0/token"))
            (lit "application/x-www-form-urlencoded") (post_data lib web config code))) [
              | inl n ↦ cc (rw (n, requested) at e')
              | inr (r, n) ↦
                  token_read-Held code token live (lib.parse r.body) fresh (rw (n, requested) at e')
            ]
  ]

module _ (lib : Library) (web : Web) (config : Config) (until : ℕ) (code token : Bytes) where
  try_emplace-Held :
      (c : Bytes) (v : TimedEntry) (codes : Codes)
      → Held until code codes token
      → Held until code (try_emplace c v codes).0 token
  unfolding try_emplace
  try_emplace-Held c v codes (entry, found, text, late) = elim (Option-cases (find_key c codes)) [
    | inl m ↦ rw (m, try_emplace) (entry, find_key-snoc_other code c v codes found, text, late)
    | inr (_, m) ↦ rw (m, try_emplace) (entry, found, text, late)
  ]

  -- An exchange of any code, before the entry of this one expires.
  get_tokens_from_microsoft-keeps :
      (c : Bytes) (codes : Codes)
      → web.steady_now < until
      → until ≤ web.steady_now + lifetime
      → Held until code codes token
      → Held until code (get_tokens_from_microsoft lib web config c codes).0 token
  unfolding get_tokens_from_microsoft
  get_tokens_from_microsoft-keeps c codes early long (entry, found, text, late) =
      elim (Option-cases (find_key c codes)) [
        | inl m ↦
            let kept : Held until code (remove_expired web.steady_now codes) token = (
              entry,
              remove_expired-keeps web.steady_now code codes found (omega arith),
              text,
              late,
            ) in
            rw (m, get_tokens_from_microsoft)
              (requested-keeps lib web config (λ l. Held until code l token) c
                (remove_expired web.steady_now codes) kept
                λ t.
                  try_emplace-Held c (timed lib web config t) (remove_expired web.steady_now codes)
                    kept)
        | inr (old, m) ↦
            let renewed : TimedEntry = record old { expires_at = web.steady_now + lifetime } in
            rw (m, get_tokens_from_microsoft)
              (elim (Bool-cases (bytes_eq c code)) [
                | inl same ↦
                    let c_is : c ≡ code = (bytes_eq_iff c code).0 same in
                    let old_is : old ≡ entry = cc (rw c_is at m) in
                    (
                      renewed,
                      rw c_is (find_key-update_key code renewed codes found),
                      ap (λ (o : TimedEntry). c_string o.value) old_is ∙ text,
                      long,
                    )
                | inr other ↦
                    (entry, find_key-update_other code c renewed codes other ∙ found, text, late)
              ])
      ]

-- Exchanges one after the other, each with what the provider and the clock say by then.
pub exchanges : Library → Config → List (Web × Bytes) → Codes → Codes
exchanges lib config [] codes = codes
exchanges lib config ((web, code) ∷ visits) codes =
    exchanges lib config visits (get_tokens_from_microsoft lib web config code codes).0

-- An exchange that is begun at a time of the steady clock and before another.
abbrev pub Between : ℕ → ℕ → Web × Bytes → Type 0
Between first end (web, code) = (first ≤ web.steady_now) × (web.steady_now < end)

exchanges-Held :
    (lib : Library) (config : Config) (start : ℕ) (code token : Bytes) (visits : List (Web × Bytes))
    (codes : Codes)
    → All (Between start (start + lifetime)) visits
    → Held (start + lifetime) code codes token
    → Held (start + lifetime) code (exchanges lib config visits codes) token
unfolding exchanges
exchanges-Held lib config start code token [] codes within held = held
exchanges-Held lib config start code token ((web, c) ∷ visits) codes ((after, before), within)
      held =
    exchanges-Held lib config start code token visits
      (get_tokens_from_microsoft lib web config c codes).0 within
      (get_tokens_from_microsoft-keeps lib web config (start + lifetime) code token c codes before
        (omega arith) held)

-- A code that was exchanged for a token is exchanged for the same token again, if all the exchanges in
-- between, of this code or of others, were begun not before the first one and within its lifetime of 30
-- seconds. What the provider would answer by then, and the time of the last exchange, do not matter: the
-- expiry of the entry that is found is not looked at.
pub get_tokens_from_microsoft-again :
    (lib : Library) (web web' : Web) (config : Config) (code token : Bytes) (codes : Codes)
    (visits : List (Web × Bytes)) {codes' : Codes}
    → get_tokens_from_microsoft lib web config code codes ≡ (codes', ok (got token))
    → All (Between web.steady_now (web.steady_now + lifetime)) visits
    → (get_tokens_from_microsoft lib web' config code (exchanges lib config visits codes')).1
      ≡ ok (got token)
unfolding get_tokens_from_microsoft
get_tokens_from_microsoft-again lib web web' config code token codes visits {codes'} e within =
    let (entry, held, text, late) =
      exchanges-Held lib config web.steady_now code token visits codes' within
        (get_tokens_from_microsoft-Held lib web config code token codes e) in
    rw (held, get_tokens_from_microsoft) (ap (λ t. ok (got t)) text)
