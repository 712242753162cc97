-- ===== src/Login/Tokens/Cached.antt =====
-- What is left of the tokens that are kept for the codes when another one is asked for.
use fcgijwtauth.Base.{
  ℕ, ◌≡◌, ◌<◌, false, none, [], ◌∷◌, leb, Bytes, arith, Bool-cases, Option-cases, inl, inr, All,
  All-append,
}
use fcgijwtauth.Library.{Library}
use fcgijwtauth.Web.{Web, Config}
use fcgijwtauth.Jwks.Store.{find_key, try_emplace}
use fcgijwtauth.Login.{TimedEntry, Codes}
use fcgijwtauth.Login.Tokens.{remove_expired, timed, get_tokens_from_microsoft}
use fcgijwtauth.Login.Tokens.Again.{requested-keeps}

-- The entry of a code is not expired.
abbrev pub IsLive : ℕ → Bytes × TimedEntry → Type 0
IsLive now (code, entry) = now < entry.expires_at

live_entry :
    (now : ℕ) (entry : TimedEntry) → leb entry.expires_at now ≡ false → now < entry.expires_at
live_entry now entry live = ground arith

remove_expired-IsLive : (now : ℕ) (codes : Codes) → All (IsLive now) (remove_expired now codes)
unfolding remove_expired
remove_expired-IsLive now [] = tt
remove_expired-IsLive now ((k, entry) ∷ codes) = elim (Bool-cases (leb entry.expires_at now)) [
  | inl expired ↦ rw (expired, remove_expired) (remove_expired-IsLive now codes)
  | inr live ↦
      rw (live, remove_expired) (live_entry now entry live, remove_expired-IsLive now codes)
]

module _ (lib : Library) (web : Web) (config : Config) where
  try_emplace-IsLive :
      (code token : Bytes) (codes : Codes)
      → All (IsLive web.steady_now) codes
      → All (IsLive web.steady_now) (try_emplace code (timed lib web config token) codes).0
  unfolding try_emplace
  try_emplace-IsLive code token codes h = elim (Option-cases (find_key code codes)) [
    | inl m ↦
        rw (m, try_emplace)
          (All-append (IsLive web.steady_now) codes ((code, timed lib web config token) ∷ []) h
            (omega arith, tt))
    | inr (entry, m) ↦ rw (m, try_emplace) h
  ]

  -- When a code is exchanged that is not among the codes, no entry that has expired by then is left,
  -- whether or not a token is received.
  pub get_tokens_from_microsoft-IsLive :
      (code : Bytes) (codes : Codes)
      → find_key code codes ≡ none
      → All (IsLive web.steady_now) (get_tokens_from_microsoft lib web config code codes).0
  unfolding get_tokens_from_microsoft
  get_tokens_from_microsoft-IsLive code codes m =
      let live = remove_expired-IsLive web.steady_now codes in
      rw (m, get_tokens_from_microsoft)
        (requested-keeps lib web config (λ l. All (IsLive web.steady_now) l) code
          (remove_expired web.steady_now codes) live
          λ text. try_emplace-IsLive code text (remove_expired web.steady_now codes) live)
