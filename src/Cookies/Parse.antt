-- ===== src/Cookies/Parse.antt =====
-- The parser on a well-formed header: what it leaves in memory, and where its pointers go.
use mathlib.Core.Path.{ap₂}
use native.Mathlib.Nat.{le_refl}
use fcgijwtauth.Base.{
  ℕ, zero, suc, ◌+◌, ◌≤◌, ◌<◌, ◌≡◌, refl, ap, ◌∙◌, sym, true, none, some, List, [], ◌∷◌, ◌++◌,
  Bytes, arith, length, get_or, All, Avoids, append_assoc, append-nil, length-append,
  drop-append_self, set-append, set-append_self,
}
use fcgijwtauth.Cookies.{
  strchr, strlen, with_cookie, end_value, parse_rounds, count_segments, parse_cookies, is_blank,
}
use fcgijwtauth.Cookies.Memory.{strchr-Avoids, strchr-none, strlen-Avoids}
use fcgijwtauth.Cookies.Fields.{
  Field, IsField, printed, value_at, cookie_at, cookies_at, parse_rounds_field,
}

end_value_last :
    (pre value : Bytes)
    → strchr b';' value ≡ none
    → strlen value ≡ length value
    → end_value (pre ++ value) (length pre) ≡ (pre ++ value, length pre + length value)
unfolding end_value
end_value_last pre value e f = simp (end_value, drop-append_self pre value, e, f)

end_value_more :
    (pre value more : Bytes)
    → strchr b';' (value ++ b';' ∷ more) ≡ some (length value)
    → end_value (pre ++ (value ++ b';' ∷ more)) (length pre)
      ≡ (pre ++ (value ++ 0 ∷ more), length pre + length value + 1)
unfolding end_value
end_value_more pre value more e = simp (
  end_value,
  drop-append_self pre (value ++ b';' ∷ more),
  e,
  set-append pre (value ++ b';' ∷ more) (length value) 0,
  set-append_self value b';' more 0,
)

-- What is in memory up to the value of a field that was read.
abbrev pub before_value : ℕ → Bytes → Field → Bytes
before_value equals pre f = pre ++ (f.blank ++ (f.name ++ equals ∷ []))

pub before_value-append :
    (equals : ℕ) (pre : Bytes) (f : Field) (rest : Bytes)
    → pre ++ (f.blank ++ (f.name ++ equals ∷ rest)) ≡ before_value equals pre f ++ rest
before_value-append equals pre f rest = simp append_assoc

pub length-before_value :
    (equals : ℕ) (pre : Bytes) (f : Field)
    → length (before_value equals pre f) ≡ value_at (length pre) f
length-before_value equals pre f = omega (
  arith,
  length-append pre (f.blank ++ (f.name ++ equals ∷ [])),
  length-append f.blank (f.name ++ equals ∷ []),
  length-append f.name (equals ∷ []),
)

-- What is in memory up to the next field.
abbrev pub after_field : ℕ → ℕ → Bytes → Field → Bytes
after_field equals sep pre f = before_value equals pre f ++ (f.value ++ sep ∷ [])

pub after_field-append :
    (equals sep : ℕ) (pre : Bytes) (f : Field) (rest : Bytes)
    → before_value equals pre f ++ (f.value ++ sep ∷ rest) ≡ after_field equals sep pre f ++ rest
after_field-append equals sep pre f rest = simp append_assoc

pub length-after_field :
    (equals sep : ℕ) (pre : Bytes) (f : Field)
    → length (after_field equals sep pre f) ≡ value_at (length pre) f + length f.value + 1
length-after_field equals sep pre f = omega (
  arith,
  length-before_value equals pre f,
  length-append (before_value equals pre f) (f.value ++ sep ∷ []),
  length-append f.value (sep ∷ []),
)

parse_rounds_end :
    (left : ℕ) (header : Bytes)
    → parse_rounds left header (length header) ≡ record { header = header; cookies = [] }
unfolding parse_rounds
parse_rounds_end zero header = refl
parse_rounds_end (suc left) header = rw (at_end header)
  where
    at_end : (text : Bytes) → get_or text (length text) 0 ≡ 0
    at_end [] = refl
    at_end (c ∷ text) = at_end text

-- The rounds behind the end of a name, in the shape that the lemmas on `end_value` have.
rounds_after_name :
    (left : ℕ) (pre : Bytes) (f : Field) (rest : Bytes)
    → parse_rounds left
        (end_value (pre ++ (f.blank ++ (f.name ++ 0 ∷ rest))) (value_at (length pre) f)).0
        (end_value (pre ++ (f.blank ++ (f.name ++ 0 ∷ rest))) (value_at (length pre) f)).1
      ≡ parse_rounds left
          (end_value (before_value 0 pre f ++ rest) (length (before_value 0 pre f))).0
          (end_value (before_value 0 pre f ++ rest) (length (before_value 0 pre f))).1
rounds_after_name left pre f rest =
    ap₂ (λ h v. parse_rounds left (end_value h v).0 (end_value h v).1)
      (before_value-append 0 pre f rest) (sym (length-before_value 0 pre f))

-- With a round for each field the parser notes all of them.
parse_rounds-printed :
    (left : ℕ) (pre : Bytes) (fs : List Field)
    → All IsField fs
    → length fs ≤ left
    → parse_rounds left (pre ++ printed b'=' b';' fs) (length pre)
      ≡ record { header = pre ++ printed 0 0 fs; cookies = cookies_at (length pre) fs }
unfolding printed cookies_at
parse_rounds-printed left pre [] v h = rw append-nil (parse_rounds_end left pre)
parse_rounds-printed zero pre (f ∷ fs) v h = absurd (omega arith)
parse_rounds-printed (suc left) pre (f ∷ []) (v, _) h =
    parse_rounds_field left pre f f.value v
    ∙ ap (with_cookie (cookie_at (length pre) f)) (
        rounds_after_name left pre f f.value
        ∙ rw
            (
              end_value_last (before_value 0 pre f) f.value
                  (strchr-none b';' f.value v.value_semicolon) (strlen-Avoids f.value v.value_nul),
              ← length-append (before_value 0 pre f) f.value,
            )
            (parse_rounds_end left (before_value 0 pre f ++ f.value)
              ∙ ap (λ (t : Bytes). record { header = t; cookies = [] })
                  (sym (before_value-append 0 pre f f.value))))
parse_rounds-printed (suc left) pre (f ∷ g ∷ fs) (v, vs) h =
    let more = printed b'=' b';' (g ∷ fs) in
    let next = after_field 0 0 pre f in
    let value_end : length (before_value 0 pre f) + length f.value + 1 ≡ length next =
      omega (arith, length-after_field 0 0 pre f, length-before_value 0 pre f) in
    parse_rounds_field left pre f (f.value ++ b';' ∷ more) v
    ∙ ap (with_cookie (cookie_at (length pre) f)) (
        rounds_after_name left pre f (f.value ++ b';' ∷ more)
        ∙ rw
            (
              end_value_more (before_value 0 pre f) f.value more
                  (strchr-Avoids b';' f.value more v.value_semicolon v.value_nul),
              value_end,
              after_field-append 0 0 pre f more,
            )
            (parse_rounds-printed left next (g ∷ fs) vs (omega arith)
              ∙ ap₂
                  (λ (t : Bytes) (at : ℕ). record { header = t; cookies = cookies_at at (g ∷ fs) })
                  (sym (after_field-append 0 0 pre f (printed 0 0 (g ∷ fs)))
                    ∙ sym (before_value-append 0 pre f (f.value ++ 0 ∷ printed 0 0 (g ∷ fs))))
                  (length-after_field 0 0 pre f)))

count_segments-append :
    (text rest : Bytes) → Avoids 0 text → count_segments rest ≤ count_segments (text ++ rest)
unfolding count_segments
count_segments-append [] rest h = le_refl _
count_segments-append (c ∷ text) rest (n, h) = ground (arith, count_segments-append text rest h)

count_segments_pos : (text : Bytes) → 0 < count_segments text
unfolding count_segments
count_segments_pos [] = omega arith
count_segments_pos (c ∷ text) = ground (arith, count_segments_pos text)

count_segments-printed :
    (fs : List Field) → All IsField fs → length fs ≤ count_segments (printed b'=' b';' fs)
unfolding printed
count_segments-printed [] v = omega arith
count_segments-printed (f ∷ []) v = count_segments_pos (f.blank ++ (f.name ++ b'=' ∷ f.value))
count_segments-printed (f ∷ g ∷ fs) (v, vs) =
    let more = printed b'=' b';' (g ∷ fs) in
    omega (
      arith,
      count_segments-append f.blank (f.name ++ b'=' ∷ (f.value ++ b';' ∷ more))
          (Avoids-blank f.blank v.blank_is),
      count_segments-append f.name (b'=' ∷ (f.value ++ b';' ∷ more)) v.name_nul,
      count_segments_equals (f.value ++ b';' ∷ more),
      count_segments-append f.value (b';' ∷ more) v.value_nul,
      count_segments_semicolon more,
      count_segments-printed (g ∷ fs) vs,
    )
  where
    Avoids-blank : (blank : Bytes) → All (λ c. is_blank c ≡ true) blank → Avoids 0 blank
    Avoids-blank [] h = tt
    Avoids-blank (c ∷ blank) (e, h) = (ground arith, Avoids-blank blank h)

    count_segments_equals : (text : Bytes) → count_segments (b'=' ∷ text) ≡ count_segments text
    count_segments_equals text = unfold count_segments in refl

    count_segments_semicolon :
        (text : Bytes) → count_segments (b';' ∷ text) ≡ count_segments text + 1
    count_segments_semicolon text = unfold count_segments in omega arith

-- The header of well-formed fields is read whole: a 0 stands in memory for each '=' behind a name and
-- for each ';', and there is a cookie with the place of its name and of its value for every field.
pub parse_cookies-printed :
    (fs : List Field)
    → All IsField fs
    → parse_cookies (some (printed b'=' b';' fs))
      ≡ some (record { header = printed 0 0 fs; cookies = cookies_at 0 fs })
unfolding parse_cookies
parse_cookies-printed fs v = ap some (
    parse_rounds-printed (count_segments (printed b'=' b';' fs)) [] fs v
      (count_segments-printed fs v))
