-- ===== src/Quoted.antt =====
-- The parsers of quotedstringparser.c that call back, or split a text in place. A block of memory holds
-- a C string; a pointer into it is an index.
pub mod Moves
pub mod Bounds
pub mod Suffixes
pub mod Callback
pub mod Commandline
pub mod Followed
pub mod Line
use mathlib.Core.Option
use fcgijwtauth.Base.{
  ℕ, zero, suc, ◌+◌, Bool, true, false, ◌&&◌, not, Option, none, some, List, [], ◌∷◌, ◌==◌, ltb,
  if◌then◌else◌, Bytes, length, take, drop, set,
}
use fcgijwtauth.Cookies.{strchr}

-- The loops that look for the closing quote: the first one without a backslash before it. `before` is
-- the byte in front of the text.
unfoldable pub closing : ℕ → Bytes → Option ℕ
closing before [] = none
closing before (c ∷ text) =
    let later = Option.map suc (closing c text) in
    if c == b'"' && not (before == b'\\') then some 0 else if c == 0 then none else later

-- Where the search for the closing quote has left `rover` when there is none.
unfoldable pub behind_last_quote : Bytes → Bytes
behind_last_quote [] = []
behind_last_quote (c ∷ text) =
    let later = behind_last_quote text in
    elim (strchr b'"' (c ∷ text)) [ none ↦ c ∷ text | some _ ↦ later ]

-- A comma that is immediately behind a closing quote.
abbrev pub skip_comma : Bytes → Bytes
skip_comma [] = []
skip_comma (c ∷ text) = if c == b',' then text else c ∷ text

-- What the callback was called with, and whether the parser came to its end.
pub record Called : Type 0 where
  pub fields : List (ℕ × Bytes)
  pub is_done : Bool

abbrev pub last_call : ℕ → Bytes → Called
last_call count field = record { fields = (count, field) ∷ []; is_done = true }

abbrev pub called : ℕ → Bytes → Called → Called
called count field later = record later { fields = (count, field) ∷ later.fields }

-- The condition of the loop of `qsp_callbacker`.
abbrev pub on_with : (ℕ → Bytes → Called) → ℕ → Bytes → Called
on_with later count [] = record { fields = []; is_done = true }
on_with later count (c ∷ rover) = later count (c ∷ rover)

-- The callback returned: not 0 ends the loop.
abbrev pub returned : (ℕ → Bytes → Bool) → (ℕ → Bytes → Called) → ℕ → Bytes → Bytes → Called
returned cb later count field rover =
    if cb count field
    then last_call count field
    else called count field (on_with later (count + 1) rover)

unfoldable pub quoted_round : (ℕ → Bytes → Bool) → (ℕ → Bytes → Called) → ℕ → Bytes → Called
unfolding closing behind_last_quote
quoted_round cb later count text = elim (closing b'"' text) [
  | none ↦ last_call count (behind_last_quote text)
  | some n ↦ returned cb later count (take n text) (skip_comma (drop (n + 1) text))
]

unfoldable pub plain_round : (ℕ → Bytes → Bool) → (ℕ → Bytes → Called) → ℕ → Bytes → Called
unfolding strchr
plain_round cb later count text = elim (strchr b',' text) [
  | none ↦ last_call count text
  | some n ↦ returned cb later count (take n text) (drop (n + 1) text)
]

-- One round, on the text from `rover` on, which holds no 0.
unfoldable pub callback_round : (ℕ → Bytes → Bool) → (ℕ → Bytes → Called) → ℕ → Bytes → Called
unfolding quoted_round plain_round
callback_round cb later count [] = last_call count []
callback_round cb later count (c ∷ text) =
    if c == b'"'
    then quoted_round cb later count text
    else if c == b' '
    then on_with later count text
    else plain_round cb later count (c ∷ text)

unfoldable pub callback_rounds : ℕ → (ℕ → Bytes → Bool) → ℕ → Bytes → Called
unfolding callback_round
callback_rounds zero cb count text = record { fields = []; is_done = false }
callback_rounds (suc fuel) cb count text = callback_round cb (callback_rounds fuel cb) count text

-- `qsp_callbacker`, whose callback is given by what it returns; it returns how often it called. Each
-- round but the last moves `rover` on, so the length is enough fuel.
unfoldable pub callbacker : (ℕ → Bytes → Bool) → Bytes → Called
unfolding callback_rounds
callbacker cb input = callback_rounds (suc (length input)) cb 0 input

-- The block behind a split, with the pointers that were stored; or `rover` was read through behind the
-- terminator.
pub data Split : Type 0 where
  split : Bytes → List ℕ → Split
  past_the_end out_of_fuel : Split

abbrev pub pointer : ℕ → Split → Split
pointer p (split block ps) = split block (p ∷ ps)
pointer p past_the_end = past_the_end
pointer p out_of_fuel = out_of_fuel

-- What a round does from a block, `rover` and `count`.
abbrev pub Round : Type 0
Round = Bytes → ℕ → ℕ → Split

-- The condition of both loops.
unfoldable pub goes_on : ℕ → Round → Round
goes_on max later block rover count = elim (drop rover block) [
  | [] ↦ past_the_end
  | c ∷ _ ↦
      if c == 0
      then split block []
      else if ltb count max
      then later block rover count
      else split block []
]

-- `qsp_inplace_commandline`: a quoted field, then one that ends with a blank.
unfoldable pub commandline_quoted : ℕ → Round → Round
unfolding closing goes_on
commandline_quoted max later block rover count =
    let opened = set block rover 0 in
    elim (closing 0 (drop (rover + 1) opened)) [
      | none ↦ split opened ((rover + 1) ∷ [])
      | some n ↦
          pointer (rover + 1)
            (goes_on max later (set opened (rover + 1 + n) 0) (rover + 1 + n + 1) (count + 1))
    ]

unfoldable pub to_space : ℕ → Round → Round
unfolding strchr goes_on
to_space max later block rover count = elim (strchr b' ' (drop rover block)) [
  | none ↦ split block (rover ∷ [])
  | some n ↦ pointer rover (goes_on max later (set block (rover + n) 0) (rover + n + 1) (count + 1))
]

unfoldable pub commandline_plain : ℕ → Round → Round
unfolding strchr goes_on to_space
commandline_plain max later block rover count = elim (strchr b'"' (drop rover block)) [
  | none ↦ to_space max later block rover count
  | some quote ↦
      let up_to_quote = pointer rover (goes_on max later block (rover + quote) (count + 1)) in
      elim (strchr b' ' (drop rover block)) [
        | none ↦ up_to_quote
        | some space ↦ if ltb space quote then to_space max later block rover count else up_to_quote
      ]
]

unfoldable pub commandline_round : ℕ → Round → Round
unfolding commandline_quoted commandline_plain goes_on
commandline_round max later block rover count = elim (drop rover block) [
  | [] ↦ past_the_end
  | c ∷ _ ↦
      if c == b'"'
      then commandline_quoted max later block rover count
      else if c == b' '
      then goes_on max later block (rover + 1) count
      else commandline_plain max later block rover count
]

unfoldable pub commandline_rounds : ℕ → ℕ → Round
unfolding commandline_round
commandline_rounds zero max block rover count = out_of_fuel
commandline_rounds (suc fuel) max block rover count =
    commandline_round max (commandline_rounds fuel max) block rover count

-- Each round but the last moves `rover` on, so the length of the block is enough fuel.
unfoldable pub inplace_commandline : Bytes → ℕ → Split
unfolding commandline_rounds
inplace_commandline block max = commandline_rounds (length block) max block 0 0

-- `qsp_inplace`: a quoted field, then one that ends with a comma.
unfoldable pub inplace_quoted : ℕ → Round → Round
unfolding closing goes_on
inplace_quoted max later block rover count =
    let opened = set block rover 0 in
    pointer (rover + 1) (elim (closing 0 (drop (rover + 1) opened)) [
      | none ↦ goes_on max later opened (rover + 1 + 1) (count + 1)
      | some n ↦ goes_on max later (set opened (rover + 1 + n) 0) (rover + 1 + n + 1) (count + 1)
    ])

unfoldable pub to_comma : ℕ → Round → Round
unfolding strchr goes_on
to_comma max later block rover count = elim (strchr b',' (drop rover block)) [
  | none ↦ goes_on max later block (rover + 1) (count + 1)
  | some n ↦ goes_on max later (set block (rover + n) 0) (rover + n + 1) (count + 1)
]

unfoldable pub inplace_plain : ℕ → Round → Round
unfolding strchr goes_on to_comma
inplace_plain max later block rover count = pointer rover (elim (strchr b'"' (drop rover block)) [
  | none ↦ to_comma max later block rover count
  | some quote ↦
      let up_to_quote = goes_on max later block (rover + quote) (count + 1) in
      elim (strchr b',' (drop rover block)) [
        | none ↦ up_to_quote
        | some comma ↦ if ltb comma quote then to_comma max later block rover count else up_to_quote
      ]
])

unfoldable pub inplace_round : ℕ → Round → Round
unfolding inplace_quoted inplace_plain goes_on
inplace_round max later block rover count = elim (drop rover block) [
  | [] ↦ past_the_end
  | c ∷ _ ↦
      if c == b'"'
      then inplace_quoted max later block rover count
      else if c == b' '
      then goes_on max later block (rover + 1) count
      else if c == b','
      then goes_on max later block (rover + 1) count
      else inplace_plain max later block rover count
]

unfoldable pub inplace_rounds : ℕ → ℕ → Round
unfolding inplace_round
inplace_rounds zero max block rover count = out_of_fuel
inplace_rounds (suc fuel) max block rover count =
    inplace_round max (inplace_rounds fuel max) block rover count

unfoldable pub inplace : Bytes → ℕ → Split
unfolding inplace_rounds
inplace block max = inplace_rounds (length block) max block 0 0
