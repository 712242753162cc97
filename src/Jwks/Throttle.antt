-- ===== src/Jwks/Throttle.antt =====
-- When a look-up fetches the key set, where that comes from a URL.
use native.Mathlib.Numerals.{unary_clauses}
use fcgijwtauth.Base.{
  ℕ, ◌-◌, ◌/◌, ◌≡◌, refl, ◌∙◌, true, false, Option, none, some, List, [], ◌∷◌, leb, Bytes, lit,
  arith, Option-cases, inl, inr,
}
use fcgijwtauth.Outcome.{Outcome, ok, throws, undefined, Outcome-cases}
use fcgijwtauth.Library.{Library, Download}
use fcgijwtauth.Jwks.Store.{
  find_key, hour, Store, add_keys, add_key_from_json_object, emplace_key,
  add_jwks_verifiers_from_string, is_file, fetch_jwks_json, refreshed, find_verifier, url_json,
  find_string, key_algorithm,
}
use fcgijwtauth.Jwks.Refresh.{find_verifier-cases}

-- A store behind look-ups of these keys, one after the other.
unfoldable pub look_ups : (lib : Library) → List Bytes → Store lib → Store lib
look_ups lib [] store = store
look_ups lib (kid ∷ kids) store = look_ups lib kids (find_verifier lib kid store).store

module _ (lib : Library) where
  emplace_key-source :
      (new : Bytes) (alg : Outcome (Option lib.Algorithm)) (store : Store lib)
      → ((emplace_key lib new alg store).0.src_url ≡ store.src_url)
        × ((emplace_key lib new alg store).0.last_fetch_time ≡ store.last_fetch_time)
  unfolding emplace_key
  emplace_key-source new (ok (some alg)) store = (refl, refl)
  emplace_key-source new (ok none) store = (refl, refl)
  emplace_key-source new (throws x) store = (refl, refl)
  emplace_key-source new undefined store = (refl, refl)

  add_key-source :
      (key : List (Bytes × lib.Value)) (store : Store lib)
      → ((add_key_from_json_object lib key store).0.src_url ≡ store.src_url)
        × ((add_key_from_json_object lib key store).0.last_fetch_time ≡ store.last_fetch_time)
  unfolding add_key_from_json_object
  add_key-source key store = elim (Option-cases (find_string lib (lit "kid") key)) [
    | inl m ↦ rw (m, add_key_from_json_object) (refl, refl)
    | inr (new, m) ↦ elim (Option-cases (find_string lib (lit "kty") key)) [
      | inl n ↦ rw (m, n, add_key_from_json_object) (refl, refl)
      | inr (kty, n) ↦
          rw (m, n, add_key_from_json_object)
            (emplace_key-source new (key_algorithm lib kty key) store)
    ]
  ]

  add_keys-source :
      (entries : List lib.Value) (store : Store lib)
      → ((add_keys lib entries store).0.src_url ≡ store.src_url)
        × ((add_keys lib entries store).0.last_fetch_time ≡ store.last_fetch_time)
  unfolding add_keys
  add_keys-source [] store = (refl, refl)
  add_keys-source (entry ∷ entries) store = elim (Option-cases (lib.as_object entry)) [
    | inl m ↦ rw (m, add_keys) (refl, refl)
    | inr (key, m) ↦
        let (url, time) = add_keys-source entries (add_key_from_json_object lib key store).0 in
        let (url', time') = add_key-source key store in rw (m, add_keys) (url ∙ url', time ∙ time')
  ]

  add_jwks-source :
      (text : Bytes) (store : Store lib)
      → ((add_jwks_verifiers_from_string lib text store).0.src_url ≡ store.src_url)
        × ((add_jwks_verifiers_from_string lib text store).0.last_fetch_time
            ≡ store.last_fetch_time)
  unfolding add_jwks_verifiers_from_string
  add_jwks-source text store = elim (Option-cases (lib.as_object (lib.parse text))) [
    | inl m ↦ rw (m, add_jwks_verifiers_from_string) (refl, refl)
    | inr (members, m) ↦ elim (Option-cases (find_key (lit "keys") members)) [
      | inl n ↦ rw (m, n, add_jwks_verifiers_from_string) (refl, refl)
      | inr (keys, n) ↦ elim (Option-cases (lib.as_array keys)) [
        | inl a ↦ rw (m, n, a, add_jwks_verifiers_from_string) (refl, refl)
        | inr (entries, a) ↦
            rw (m, n, a, add_jwks_verifiers_from_string) (add_keys-source entries store)
      ]
    ]
  ]

  refreshed-source :
      (kid : Bytes) (store : Store lib) (text : Bytes)
      → store.last_fetch_time ≡ 0
      → ((refreshed lib store kid (text, none)).store.src_url ≡ store.src_url)
        × ((refreshed lib store kid (text, none)).store.last_fetch_time ≡ 0)
  unfolding refreshed
  refreshed-source kid store text t =
      let (url, time) = add_jwks-source text store in
      elim (Outcome-cases (add_jwks_verifiers_from_string lib text store).1) [
        | inl (a, e) ↦ rw (e, refreshed) (url, refl)
        | inr (inl (x, e)) ↦ rw (e, refreshed) (url, time ∙ t)
        | inr (inr e) ↦ rw (e, refreshed) (url, time ∙ t)
      ]

  fetch_jwks_json-url :
      (url : Bytes) {got : Bytes × Option ℕ}
      → is_file lib url ≡ false
      → fetch_jwks_json lib url ≡ ok got
      → got.1 ≡ none
  unfolding fetch_jwks_json
  fetch_jwks_json-url url remote f = go (lib.download url) (rw (remote, fetch_jwks_json) at f)
    where
      go : (d : Download) {got : Bytes × Option ℕ} → url_json lib d ≡ ok got → got.1 ≡ none
      go Download.curl_failed e = cc
      go (Download.received status body) e = ground (arith, e)

  look_up-source :
      (kid : Bytes) (store : Store lib)
      → is_file lib store.src_url ≡ false
      → store.last_fetch_time ≡ 0
      → ((find_verifier lib kid store).store.src_url ≡ store.src_url)
        × ((find_verifier lib kid store).store.last_fetch_time ≡ 0)
  look_up-source kid store remote t = elim (find_verifier-cases lib kid store) [
    | inl (v, m, q) ↦ rw q (refl, t)
    | inr (inl (r, n, q)) ↦ rw q (refl, t)
    | inr (inr ((text, time), f, q)) ↦
        rw (q, fetch_jwks_json-url store.src_url remote f) (refreshed-source kid store text t)
  ]

  look_ups-source :
      (kids : List Bytes) (store : Store lib)
      → is_file lib store.src_url ≡ false
      → store.last_fetch_time ≡ 0
      → ((look_ups lib kids store).src_url ≡ store.src_url)
        × ((look_ups lib kids store).last_fetch_time ≡ 0)
  unfolding look_ups
  look_ups-source [] store remote t = (refl, t)
  look_ups-source (kid ∷ kids) store remote t =
      let (url, time) = look_up-source kid store remote t in
      let (url', time') =
        look_ups-source kids (find_verifier lib kid store).store (rw url remote) time in
      (url' ∙ url, time')

  find_verifier_late :
      (kid : Bytes) (store : Store lib) {body : Bytes}
      → find_key kid store.verifiers ≡ none
      → is_file lib store.src_url ≡ false
      → leb 24 ((lib.now - store.last_fetch_time) / hour) ≡ true
      → lib.download store.src_url ≡ Download.received 200 body
      → find_verifier lib kid store ≡ refreshed lib store kid (body, none)
  unfolding find_verifier fetch_jwks_json
  find_verifier_late kid store m remote late answer =
      rw (m, late, remote, answer, find_verifier, fetch_jwks_json) refl

  -- For a store that fetches from a URL and starts with the time 0, no fetch is ever too soon: after
  -- any look-ups, at the same instant, a key that is still not there is fetched again, as long as
  -- the clock is a day past the epoch and the download answers 200.
  pub find_verifier-look_ups :
      (kids : List Bytes) (kid : Bytes) (store : Store lib) {body : Bytes}
      → is_file lib store.src_url ≡ false
      → store.last_fetch_time ≡ 0
      → leb 24 (lib.now / hour) ≡ true
      → lib.download store.src_url ≡ Download.received 200 body
      → find_key kid (look_ups lib kids store).verifiers ≡ none
      → find_verifier lib kid (look_ups lib kids store)
        ≡ refreshed lib (look_ups lib kids store) kid (body, none)
  find_verifier-look_ups kids kid store remote t late answer m =
      let (url, time) = look_ups-source kids store remote t in
      find_verifier_late kid (look_ups lib kids store) m (rw url remote)
        (rw time (simp unary_clauses late)) (rw url answer)
