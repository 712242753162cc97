-- ===== src/Cookies/RoundTrip.antt =====
-- Reading the cookies of a parsed header, and restoring the header.
use mathlib.Core.Path.{ap₂}
use fcgijwtauth.Base.{
  ℕ, ◌+◌, ◌-◌, ◌≡◌, refl, ap, ◌∙◌, sym, some, List, [], ◌∷◌, ◌++◌, Bytes, arith, length, drop, set,
  All, map, drop-append, drop-append_self, set-append, set-append_self, eq_of_some,
}
use fcgijwtauth.Cookies.{c_string, strlen, Jar, parse_cookies, string_at, restore_from}
use fcgijwtauth.Cookies.Memory.{strlen-Avoids_zero, c_string-Avoids, c_string-Avoids_zero}
use fcgijwtauth.Cookies.Fields.{Field, IsField, printed, value_at, cookies_at, set_name_end}
use fcgijwtauth.Cookies.Parse.{
  before_value, before_value-append, length-before_value, after_field, after_field-append,
  length-after_field, parse_cookies-printed,
}

-- The names and values that the callers see.
abbrev pub pairs : Jar → List (Bytes × Bytes)
pairs jar = map (λ c. (string_at jar.header c.name, string_at jar.header c.value)) jar.cookies

string_at_name :
    (pre : Bytes) (f : Field) (rest : Bytes)
    → IsField f
    → string_at (pre ++ (f.blank ++ (f.name ++ 0 ∷ rest))) (length pre + length f.blank) ≡ f.name
string_at_name pre f rest v =
    rw
      (
        drop-append pre (f.blank ++ (f.name ++ 0 ∷ rest)) (length f.blank),
        drop-append_self f.blank (f.name ++ 0 ∷ rest),
      )
      (c_string-Avoids_zero f.name rest v.name_nul)

string_at_value :
    (pre : Bytes) (f : Field) (rest : Bytes)
    → string_at (pre ++ (f.blank ++ (f.name ++ 0 ∷ rest))) (value_at (length pre) f) ≡ c_string rest
string_at_value pre f rest = rw (
  before_value-append 0 pre f rest,
  ← length-before_value 0 pre f,
  drop-append_self (before_value 0 pre f) rest,
)

pairs-cookies_at :
    (pre : Bytes) (fs : List Field)
    → All IsField fs
    → pairs (record { header = pre ++ printed 0 0 fs; cookies = cookies_at (length pre) fs })
      ≡ map (λ (f : Field). (f.name, f.value)) fs
unfolding printed cookies_at
pairs-cookies_at pre [] v = refl
pairs-cookies_at pre (f ∷ []) (v, _) = rw (
  string_at_name pre f f.value v,
  string_at_value pre f f.value,
  c_string-Avoids f.value v.value_nul,
)
pairs-cookies_at pre (f ∷ g ∷ fs) (v, vs) =
    let more = printed 0 0 (g ∷ fs) in
    ap₂ (λ (p : Bytes × Bytes) ps. p ∷ ps)
      (rw (
        string_at_name pre f (f.value ++ 0 ∷ more) v,
        string_at_value pre f (f.value ++ 0 ∷ more),
        c_string-Avoids_zero f.value more v.value_nul,
      ))
      (ap₂ (λ (t : Bytes) (at : ℕ). pairs (record { header = t; cookies = cookies_at at (g ∷ fs) }))
          (before_value-append 0 pre f (f.value ++ 0 ∷ more) ∙ after_field-append 0 0 pre f more)
          (sym (length-after_field 0 0 pre f))
        ∙ pairs-cookies_at (after_field 0 0 pre f) (g ∷ fs) vs)

-- Every cookie of a well-formed header is read, in order, with the blanks before its name left out.
pub pairs-parse_cookies :
    (fs : List Field) {jar : Jar}
    → All IsField fs
    → parse_cookies (some (printed b'=' b';' fs)) ≡ some jar
    → pairs jar ≡ map (λ (f : Field). (f.name, f.value)) fs
pairs-parse_cookies fs v e =
    ap pairs (eq_of_some (sym e ∙ parse_cookies-printed fs v)) ∙ pairs-cookies_at [] fs v

restore_equals :
    (pre : Bytes) (f : Field) (rest : Bytes)
    → set (pre ++ (f.blank ++ (f.name ++ 0 ∷ rest))) (value_at (length pre) f - 1) b'='
      ≡ pre ++ (f.blank ++ (f.name ++ b'=' ∷ rest))
restore_equals pre f rest =
    let end : value_at (length pre) f - 1 ≡ length pre + length f.blank + length f.name =
      omega arith in
    rw end (set_name_end pre f 0 b'=' rest)

restore_semicolon :
    (pre : Bytes) (f : Field) (more : Bytes)
    → IsField f
    → set
        (pre ++ (f.blank ++ (f.name ++ b'=' ∷ (f.value ++ 0 ∷ more))))
        (value_at (length pre) f
          + strlen (
              drop
                (value_at (length pre) f)
                (pre ++ (f.blank ++ (f.name ++ b'=' ∷ (f.value ++ 0 ∷ more))))))
        b';'
      ≡ after_field b'=' b';' pre f ++ more
restore_semicolon pre f more v =
    let before = before_value b'=' pre f in
    rw
      (
        before_value-append b'=' pre f (f.value ++ 0 ∷ more),
        ← length-before_value b'=' pre f,
        drop-append_self before (f.value ++ 0 ∷ more),
        strlen-Avoids_zero f.value more v.value_nul,
      )
      (set-append before (f.value ++ 0 ∷ more) (length f.value) b';'
        ∙ ap (λ t. before ++ t) (set-append_self f.value 0 more b';')
        ∙ after_field-append b'=' b';' pre f more)

restore_from-cookies_at :
    (pre : Bytes) (fs : List Field)
    → All IsField fs
    → restore_from (pre ++ printed 0 0 fs) (cookies_at (length pre) fs)
      ≡ pre ++ printed b'=' b';' fs
unfolding printed cookies_at restore_from
restore_from-cookies_at pre [] v = refl
restore_from-cookies_at pre (f ∷ []) v = restore_equals pre f f.value
restore_from-cookies_at pre (f ∷ g ∷ fs) (v, vs) =
    let more = printed 0 0 (g ∷ fs) in
    rw (restore_equals pre f (f.value ++ 0 ∷ more), restore_semicolon pre f more v)
      (ap (λ at. restore_from (after_field b'=' b';' pre f ++ more) (cookies_at at (g ∷ fs)))
          (sym (length-after_field b'=' b';' pre f))
        ∙ restore_from-cookies_at (after_field b'=' b';' pre f) (g ∷ fs) vs
        ∙ sym (
            before_value-append b'=' pre f (f.value ++ b';' ∷ printed b'=' b';' (g ∷ fs))
            ∙ after_field-append b'=' b';' pre f (printed b'=' b';' (g ∷ fs))))

-- Restoring what was parsed gives back every well-formed header, byte for byte.
pub restore_from-parse_cookies :
    (fs : List Field) {jar : Jar}
    → All IsField fs
    → parse_cookies (some (printed b'=' b';' fs)) ≡ some jar
    → restore_from jar.header jar.cookies ≡ printed b'=' b';' fs
restore_from-parse_cookies fs v e =
    ap (λ (j : Jar). restore_from j.header j.cookies)
      (eq_of_some (sym e ∙ parse_cookies-printed fs v))
    ∙ restore_from-cookies_at [] fs v
