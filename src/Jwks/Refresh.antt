-- ===== src/Jwks/Refresh.antt =====
-- Look-ups: when the key set is fetched, and what a look-up leaves of its store.
use fcgijwtauth.Base.{
  ℕ, ◌-◌, ◌/◌, ◌≡◌, refl, ◌∙◌, ◌⊎◌, Bool, true, false, Option, none, some, leb, Bytes, Bool-cases,
  Option-cases, inl, inr,
}
use fcgijwtauth.Outcome.{Outcome, ok, throws, undefined, Outcome-cases}
use fcgijwtauth.Library.{Library}
use fcgijwtauth.Jwks.Store.{
  find_key, hour, Verifier, Store, add_jwks_verifiers_from_string, fetch_jwks_json, refreshed,
  unchanged, find_verifier,
}
use fcgijwtauth.Jwks.Laws.{add_jwks-keeps}

module _ (lib : Library) where
  -- Whether a look-up gave a verifier.
  abbrev has_verifier : Outcome (Option (Verifier lib)) → Bool
  has_verifier (ok (some v)) = true
  has_verifier _ = false

  -- The three ways of a look-up: the key is there; or the store stays as it is, without a verifier;
  -- or what was fetched is added.
  pub find_verifier-cases :
      (kid : Bytes) (store : Store lib)
      → ((v : Verifier lib) × (find_key kid store.verifiers ≡ some v)
          × (find_verifier lib kid store ≡ unchanged lib store (ok (some v))))
        ⊎ (((r : Outcome (Option (Verifier lib))) × (has_verifier r ≡ false)
              × (find_verifier lib kid store ≡ unchanged lib store r))
            ⊎ ((got : Bytes × Option ℕ) × (fetch_jwks_json lib store.src_url ≡ ok got)
                × (find_verifier lib kid store ≡ refreshed lib store kid got)))
  unfolding find_verifier
  find_verifier-cases kid store = elim (Option-cases (find_key kid store.verifiers)) [
    | inr (v, m) ↦ inl (v, m, rw (m, find_verifier) refl)
    | inl m ↦ elim (Bool-cases (leb 24 ((lib.now - store.last_fetch_time) / hour))) [
      | inr soon ↦ inr (inl (ok none, refl, rw (m, soon, find_verifier) (rw m refl)))
      | inl late ↦ elim (Outcome-cases (fetch_jwks_json lib store.src_url)) [
        | inl (got, f) ↦ inr (inr (got, f, rw (m, late, f, find_verifier) refl))
        | inr (inl (e, f)) ↦ inr (inl (throws e, refl, rw (m, late, f, find_verifier) refl))
        | inr (inr f) ↦ inr (inl (undefined, refl, rw (m, late, f, find_verifier) refl))
      ]
    ]
  ]

  module _ (kid : Bytes) (store : Store lib) (got : Bytes × Option ℕ) where
    refreshed-verifiers :
        (refreshed lib store kid got).store.verifiers
        ≡ (add_jwks_verifiers_from_string lib got.0 store).0.verifiers
    unfolding refreshed
    refreshed-verifiers = elim (Outcome-cases (add_jwks_verifiers_from_string lib got.0 store).1) [
      | inl (a, e) ↦ rw (e, refreshed) refl
      | inr (inl (x, e)) ↦ rw (e, refreshed) refl
      | inr (inr e) ↦ rw (e, refreshed) refl
    ]

    refreshed_sound :
        {v : Verifier lib}
        → (refreshed lib store kid got).result ≡ ok (some v)
        → find_key kid (refreshed lib store kid got).store.verifiers ≡ some v
    unfolding refreshed
    refreshed_sound h = elim (Outcome-cases (add_jwks_verifiers_from_string lib got.0 store).1) [
      | inl (a, e) ↦ rw (e, refreshed) (cc (rw (e, refreshed) at h))
      | inr (inl (x, e)) ↦ cc (rw (e, refreshed) at h)
      | inr (inr e) ↦ cc (rw (e, refreshed) at h)
    ]

  -- No look-up removes or replaces a verifier that the store holds, whichever key is looked up and
  -- whatever the key set that is fetched for it says.
  pub find_verifier-keeps :
      (kid other : Bytes) (store : Store lib) {v : Verifier lib}
      → find_key other store.verifiers ≡ some v
      → find_key other (find_verifier lib kid store).store.verifiers ≡ some v
  find_verifier-keeps kid other store e = elim (find_verifier-cases kid store) [
    | inl (v, m, q) ↦ rw q e
    | inr (inl (r, n, q)) ↦ rw q e
    | inr (inr (got, f, q)) ↦
        rw q (rw (refreshed-verifiers kid store got) (add_jwks-keeps lib other got.0 store e))
  ]

  -- A verifier that a look-up gives is the one that its store holds under the key that was asked for.
  pub find_verifier_sound :
      (kid : Bytes) (store : Store lib) {v : Verifier lib}
      → (find_verifier lib kid store).result ≡ ok (some v)
      → find_key kid (find_verifier lib kid store).store.verifiers ≡ some v
  find_verifier_sound kid store h = elim (find_verifier-cases kid store) [
    | inl (v, m, q) ↦ rw q (m ∙ cc (rw q at h))
    | inr (inl (r, n, q)) ↦ absurd (cc (n, rw q at h))
    | inr (inr (got, f, q)) ↦ rw q (refreshed_sound kid store got (rw q at h))
  ]
