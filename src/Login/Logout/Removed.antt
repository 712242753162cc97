-- ===== src/Login/Logout/Removed.antt =====
-- Which cookies a logout removes.
use fcgijwtauth.Base.{◌≡◌, refl, ap, ◌∙◌, some, List, [], ◌∷◌, ◌++◌, Bytes, map, concat, All}
use fcgijwtauth.Web.{Web}
use fcgijwtauth.Cookies.{Cookie, Jar, parse_cookies, string_at}
use fcgijwtauth.Cookies.Fields.{Field, IsField, printed}
use fcgijwtauth.Cookies.RoundTrip.{pairs, pairs-parse_cookies}
use fcgijwtauth.Login.Logout.{removal, removals_from, removals}

module _ (web : Web) where
  removals_from-pairs :
      (header : Bytes) (cookies : List Cookie)
      → removals_from web header cookies
        ≡ concat (
            map
              (λ (p : Bytes × Bytes). removal web p.0)
              (pairs (record { header = header; cookies = cookies })))
  unfolding removals_from
  removals_from-pairs header [] = refl
  removals_from-pairs header (c ∷ cookies) =
      ap (λ t. removal web (string_at header c.name) ++ t) (removals_from-pairs header cookies)

  map-name :
      (fs : List Field)
      → map (λ (p : Bytes × Bytes). removal web p.0) (map (λ (f : Field). (f.name, f.value)) fs)
        ≡ map (λ (f : Field). removal web f.name) fs
  map-name [] = refl
  map-name (f ∷ fs) = ap (λ t. removal web f.name ∷ t) (map-name fs)

  -- A logout with a well-formed cookie header writes one removal for each cookie of the header, in
  -- order, a cookie that stands there twice included.
  pub removals-parse_cookies :
      (fs : List Field) {jar : Jar}
      → All IsField fs
      → parse_cookies (some (printed b'=' b';' fs)) ≡ some jar
      → removals web (some jar) ≡ concat (map (λ (f : Field). removal web f.name) fs)
  unfolding removals
  removals-parse_cookies fs {jar = jar} v e =
      removals_from-pairs jar.header jar.cookies
      ∙ ap (λ ps. concat (map (λ (p : Bytes × Bytes). removal web p.0) ps))
          (pairs-parse_cookies fs v e)
      ∙ ap concat (map-name fs)
