-- ===== src/Path/Parse.antt =====
-- `ParsedPath` (HTTPUtils.hpp) and `parse_path` (HTTPUtils.cpp). A `std::string_view` is the bytes
-- that it shows, and a position is an index into them.
pub mod Segments
pub mod Valid
pub mod Result
pub mod RoundTrip
use mathlib.Core.Option
use fcgijwtauth.Base.{
  ℕ, zero, suc, ◌+◌, ◌-◌, Bool, true, false, Option, none, some, List, [], ◌∷◌, ◌++◌, leb, ◌==◌,
  if◌then◌else◌, ◌>>=◌, Bytes, length, get_elem?, take, drop,
}
use fcgijwtauth.Path.Percent.{append_percent_decoded}

-- The field `length` of the source is `count` here.
pub record Range : Type 0 where
  pub offset : ℕ
  pub count : ℕ

pub record ParsedPath : Type 0 where
  pub storage : Bytes
  pub ranges : List Range

abbrev pub slice : Bytes → Range → Bytes
slice storage range = take range.count (drop range.offset storage)

unfoldable pub get_idx : ParsedPath → ℕ → Bytes
get_idx p idx = elim (get_elem? p.ranges idx) [ none ↦ [] | some range ↦ slice p.storage range ]

abbrev pub size : ParsedPath → ℕ
size p = length p.ranges

-- The first index of a byte in a text.
unfoldable pub find : ℕ → Bytes → Option ℕ
find c [] = none
find c (x ∷ text) = let later = Option.map suc (find c text) in if x == c then some 0 else later

-- `raw.find(c, start)`
unfoldable pub find_from : ℕ → Bytes → ℕ → Option ℕ
unfolding find
find_from c raw start = Option.map (λ n. start + n) (find c (drop start raw))

-- `if (raw.back() == '/') raw.remove_suffix(1);` of a text that is not empty.
unfoldable pub remove_trailing_slash : Bytes → Bytes
remove_trailing_slash [] = []
remove_trailing_slash (c ∷ []) = if c == b'/' then [] else c ∷ []
remove_trailing_slash (c ∷ d ∷ raw) = c ∷ remove_trailing_slash (d ∷ raw)

-- The body of `if (!seg.empty())`; `none` is `return std::nullopt`.
unfoldable pub push_segment : Bytes → ParsedPath → Option ParsedPath
push_segment [] out = some out
push_segment (c ∷ seg) out =
    let (decoded, storage) = append_percent_decoded (c ∷ seg) out.storage in
    if decoded
    then some (record {
      storage = storage;
      ranges =
          out.ranges
          ++ record { offset = length out.storage; count = length storage - length out.storage }
            ∷ [];
    })
    else none

-- The loop from `start`. It runs out of fuel only where `fuel` is at most `raw.size() - start`.
unfoldable pub parse_from : ℕ → Bytes → ℕ → ParsedPath → Option ParsedPath
unfolding find_from push_segment
parse_from zero raw start out = none
parse_from (suc fuel) raw start out =
    let last = push_segment (drop start raw) out in
    let body : Option ParsedPath = elim (find_from b'/' raw start) [
      | none ↦ last
      | some slash ↦
          push_segment (take (slash - start) (drop start raw)) out
          >>= parse_from fuel raw (slash + 1)
    ] in
    if leb start (length raw) then body else some out

abbrev pub empty_path : ParsedPath
empty_path = record { storage = []; ranges = [] }

unfoldable pub parse_path : Bytes → Option ParsedPath
unfolding parse_from remove_trailing_slash
parse_path [] = none
parse_path (c ∷ raw) =
    let text = remove_trailing_slash (c ∷ raw) in parse_from (length text + 1) text 0 empty_path

-- `parse_path(const char *)`: no path where the pointer is null.
unfoldable pub parse_c_path : Option Bytes → Option ParsedPath
unfolding parse_path
parse_c_path none = none
parse_c_path (some raw) = parse_path raw
