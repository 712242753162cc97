-- ===== src/Tests/Quotes.antt =====
-- The parsers of quoted strings at concrete inputs.
use fcgijwtauth.Base.{◌≡◌, refl, true, List, [], ◌∷◌, arith, ◌==◌, map, take}
use fcgijwtauth.Quoted.{callbacker, Split, split, inplace, inplace_commandline}
use fcgijwtauth.Quoted.Commandline.{line, zeroed, starts}
use fcgijwtauth.Quoted.Line.{read_at, contents, inplace_commandline-line}
use fcgijwtauth.Quoted.Suffixes.{IsPlain, numbers_from, inplace_suffixes}
use fcgijwtauth.Quoted.Callback.{Field, plain, quoted, printed, heard, callbacker-printed}

-- a,"b,",c
abbrev fields : List Field
fields = plain (b'a' ∷ []) ∷ quoted (b'b' ∷ b',' ∷ []) ∷ []

callbacker-printed_example :
    callbacker (λ count field. count == 1) (printed fields (plain (b'c' ∷ []))) ≡ record {
      fields = heard (λ count field. count == 1) 0 fields (plain (b'c' ∷ []));
      is_done = true;
    }
callbacker-printed_example =
    callbacker-printed (λ count field. count == 1) fields (plain (b'c' ∷ []))
      (
        ((omega arith, omega arith), (omega arith, tt), (omega arith, tt)),
        (((omega arith, (omega arith, tt)), (omega arith, (omega arith, tt)), omega arith), tt),
      )
      ((omega arith, omega arith), (omega arith, tt), (omega arith, tt)) tt

-- The callback is not called for the third field.
two_heard :
    heard (λ count field. count == 1) 0 fields (plain (b'c' ∷ []))
    ≡ (0, b'a' ∷ []) ∷ (1, b'b' ∷ b',' ∷ []) ∷ []
unfolding heard
two_heard = refl

-- ls "a b" c, with room for two fields.
abbrev words : List Field
words = plain (b'l' ∷ b's' ∷ []) ∷ quoted (b'a' ∷ b' ' ∷ b'b' ∷ []) ∷ []

inplace_commandline-line_example :
    (inplace_commandline (line words (plain (b'c' ∷ []))) 2
      ≡ split (zeroed 2 words (plain (b'c' ∷ []))) (starts 2 0 words (plain (b'c' ∷ []))))
    × (map (read_at (zeroed 2 words (plain (b'c' ∷ [])))) (starts 2 0 words (plain (b'c' ∷ [])))
        ≡ take 2 (contents words (plain (b'c' ∷ []))))
inplace_commandline-line_example =
    inplace_commandline-line words (plain (b'c' ∷ [])) 2 (omega arith) (omega arith) (omega arith)

-- The last field stands behind the second one as it was.
words_split :
    inplace_commandline (line words (plain (b'c' ∷ []))) 2
    ≡ split (b'l' ∷ b's' ∷ 0 ∷ 0 ∷ b'a' ∷ b' ' ∷ b'b' ∷ 0 ∷ b' ' ∷ b'c' ∷ 0 ∷ []) (0 ∷ 4 ∷ [])
unfolding inplace_commandline line
words_split = refl

-- a "b
two_stored :
    inplace_commandline (b'a' ∷ b' ' ∷ b'"' ∷ b'b' ∷ 0 ∷ []) 2
    ≡ split (b'a' ∷ 0 ∷ 0 ∷ b'b' ∷ 0 ∷ []) (0 ∷ 3 ∷ [])
unfolding inplace_commandline
two_stored = refl

ab-IsPlain : IsPlain (b'a' ∷ b'b' ∷ [])
ab-IsPlain = record {
  no_quote = (omega arith, (omega arith, tt));
  no_comma = (omega arith, (omega arith, tt));
  no_blank = (omega arith, (omega arith, tt));
  no_zero = (omega arith, (omega arith, tt));
}

inplace_suffixes_example :
    inplace (b'a' ∷ b'b' ∷ 0 ∷ []) 4
    ≡ split (b'a' ∷ b'b' ∷ 0 ∷ []) (numbers_from 0 (b'a' ∷ b'b' ∷ []))
inplace_suffixes_example = inplace_suffixes b'a' (b'b' ∷ []) 4 ab-IsPlain (omega arith)

-- An empty text is read behind its end.
empty_text : inplace (0 ∷ []) 4 ≡ Split.past_the_end
unfolding inplace
empty_text = refl
