-- ===== src/Tests/Paths.antt =====
-- Paths, their segments and their numbers at concrete inputs.
use mathlib.Core.Option
use fcgijwtauth.Base.{
  ℕ, ◌≡◌, ◌≤◌, refl, Bool, ◌||◌, none, some, [], ◌∷◌, ◌==◌, Bytes, ℤ, pos, length, arith, All,
  IsByte, get_elem?, leb, if◌then◌else◌,
}
use fcgijwtauth.Path.Percent.{append_percent_decoded}
use fcgijwtauth.Path.Parse.{ParsedPath, parse_path, get_idx, size}
use fcgijwtauth.Path.Parse.Segments.{split_slash}
use fcgijwtauth.Path.Parse.Valid.{IsValid, segments}
use fcgijwtauth.Path.Parse.Result.{expected_segments, parse_path-segments, parse_path-IsValid}
use fcgijwtauth.Path.Parse.RoundTrip.{printed_path, IsSegment, parse_path-printed_path}
use fcgijwtauth.Path.Consume.{consume_read_ex}
use fcgijwtauth.Path.Consume.Laws.{int_text, outcome, consume_read_ex-int_text}
use fcgijwtauth.Number.{decimal_from, appauth_parse_first_number}
use fcgijwtauth.Number.Component.{component_number, appauth_parse_first_number-split_slash}

abbrev reserved : ℕ → Bool
reserved c = c == b'%' || c == b'/'

-- "a/b%"
abbrev text : Bytes
text = b'a' ∷ b'/' ∷ b'b' ∷ b'%' ∷ []

text-IsByte : All IsByte text
text-IsByte = (omega arith, (omega arith, (omega arith, (omega arith, tt))))

-- "/a/42/"
abbrev path : Bytes
path = b'/' ∷ b'a' ∷ b'/' ∷ b'4' ∷ b'2' ∷ b'/' ∷ []

abbrev parsed : ParsedPath
parsed = record {
  storage = b'a' ∷ b'4' ∷ b'2' ∷ [];
  ranges = record { offset = 0; count = 1 } ∷ record { offset = 1; count = 2 } ∷ [];
}

path-parsed : parse_path path ≡ some parsed
unfolding parse_path append_percent_decoded
path-parsed = refl

parse_path-segments_example : Option.map segments (parse_path path) ≡ expected_segments path
parse_path-segments_example = parse_path-segments path

parse_path-IsValid_example : IsValid parsed × (length parsed.storage ≤ length path)
parse_path-IsValid_example = parse_path-IsValid path parsed path-parsed

parsed-IsValid : IsValid parsed
parsed-IsValid = (refl, omega arith, (refl, omega arith, refl))

text-IsSegment : All IsSegment (text ∷ text ∷ [])
text-IsSegment = ((λ e. cc, text-IsByte), ((λ e. cc, text-IsByte), tt))

parse_path-printed_path_example :
    Option.map segments (parse_path (printed_path reserved (text ∷ text ∷ [])))
    ≡ some (text ∷ text ∷ [])
parse_path-printed_path_example =
    parse_path-printed_path reserved text (text ∷ []) refl refl text-IsSegment

consume_read_ex-int_text_example :
    consume_read_ex parsed 1 (ℤ.pos 7)
    ≡ outcome 1 (ℤ.pos 7) (if leb (size parsed) 1 then none else int_text (get_idx parsed 1))
consume_read_ex-int_text_example = consume_read_ex-int_text parsed 1 (ℤ.pos 7)

-- "a/42/x"
abbrev numbered : Bytes
numbered = b'a' ∷ b'/' ∷ b'4' ∷ b'2' ∷ b'/' ∷ b'x' ∷ []

appauth_parse_first_number-split_slash_example :
    appauth_parse_first_number (pos 2) (some (b'/' ∷ numbered))
    ≡ component_number (get_elem? (split_slash numbered) 1)
appauth_parse_first_number-split_slash_example = appauth_parse_first_number-split_slash 1 numbered

numbered_read : appauth_parse_first_number (pos 2) (some (b'/' ∷ numbered)) ≡ 42
unfolding appauth_parse_first_number decimal_from
numbered_read = refl
