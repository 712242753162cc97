-- ===== src/Quoted/Line.antt =====
-- `qsp_inplace_commandline` on a whole line of fields, and what its pointers point to.
use fcgijwtauth.Base.{
  ℕ, zero, suc, ◌+◌, ◌<◌, ◌≡◌, refl, ap, sym, ◌∙◌, List, [], ◌∷◌, ◌++◌, map, Avoids, Bytes, length,
  take, drop, arith, All, drop-append, drop-append_self,
}
use mathlib.Core.Path.{ap₂}
use fcgijwtauth.Cookies.{c_string}
use fcgijwtauth.Cookies.Memory.{c_string-Avoids_zero}
use fcgijwtauth.Quoted.{split, commandline_rounds, inplace_commandline}
use fcgijwtauth.Quoted.Callback.{Field, plain, quoted, content}
use fcgijwtauth.Quoted.Commandline.{IsWord, line, zeroed, starts, line_head, goes_on_room}
use fcgijwtauth.Quoted.Followed.{
  regroup, regroup_quoted, length_field, length_quoted, take_nil, line_followed,
}

-- What the pointers point to.
unfoldable pub read_at : Bytes → ℕ → Bytes
unfolding c_string
read_at block p = c_string (drop p block)

read_at_field :
    (front text rest : Bytes) (n : ℕ)
    → length front ≡ n
    → Avoids 0 text
    → read_at (front ++ (text ++ 0 ∷ rest)) n ≡ text
unfolding read_at
read_at_field front text rest n here z =
    let found : drop n (front ++ (text ++ 0 ∷ rest)) ≡ text ++ 0 ∷ rest =
      rw (← here) (drop-append_self front (text ++ 0 ∷ rest)) in
    ap c_string found ∙ c_string-Avoids_zero text rest z

-- Behind the opening quote.
read_at_quoted :
    (front text rest : Bytes) (n : ℕ)
    → length front ≡ n
    → Avoids 0 text
    → read_at (front ++ 0 ∷ (text ++ 0 ∷ rest)) (n + 1) ≡ text
unfolding read_at
read_at_quoted front text rest n here z =
    let found : drop (n + 1) (front ++ 0 ∷ (text ++ 0 ∷ rest)) ≡ text ++ 0 ∷ rest =
      rw (← here) (drop-append front (0 ∷ (text ++ 0 ∷ rest)) 1) in
    ap c_string found ∙ c_string-Avoids_zero text rest z

abbrev pub contents : List Field → Field → List Bytes
contents [] last = content last ∷ []
contents (f ∷ fs) last = content f ∷ contents fs last

word_zero : (text : Bytes) → IsWord (plain text) → Avoids 0 text
word_zero [] w = absurd w
word_zero (c ∷ text) (q, s, z) = z

starts-read :
    (fs : List Field) (last : Field) (room : ℕ) (front : Bytes) (n : ℕ)
    → All IsWord fs
    → IsWord last
    → length front ≡ n
    → map (read_at (front ++ zeroed room fs last)) (starts room n fs last)
      ≡ take room (contents fs last)
unfolding zeroed starts
starts-read fs last zero front n ws w here = refl
starts-read [] (plain text) (suc room) front n ws w here =
    ap₂ ◌∷◌ (read_at_field front text [] n here (word_zero text w)) (take_nil room)
starts-read [] (quoted text) (suc room) front n ws (q, z, d) here =
    ap₂ ◌∷◌ (read_at_quoted front text (0 ∷ []) n here z) (take_nil room)
starts-read (plain text ∷ fs) last (suc room) front n (w, ws) l here =
    ap₂ ◌∷◌ (read_at_field front text (zeroed room fs last) n here (word_zero text w)) (
      ap (λ (b : Bytes). map (read_at b) (starts room (n + length text + 1) fs last))
        (sym (regroup front text (zeroed room fs last) 0))
      ∙ starts-read fs last room (front ++ (text ++ 0 ∷ [])) (n + length text + 1) ws l
          (length_field front text 0 n here))
starts-read (quoted text ∷ fs) last (suc room) front n ((q, z, d), ws) l here =
    ap₂ ◌∷◌ (read_at_quoted front text (b' ' ∷ zeroed room fs last) n here z) (
      ap (λ (b : Bytes). map (read_at b) (starts room (n + length text + 3) fs last))
        (sym (regroup_quoted front text (zeroed room fs last)))
      ∙ starts-read fs last room (front ++ 0 ∷ (text ++ 0 ∷ b' ' ∷ [])) (n + length text + 3) ws l
          (length_quoted front text n here))

-- A line of fields with a blank between each two is split at the blanks, up to as many fields as there
-- is room for, where that is not 0: in the block, the blank behind a plain one of these fields and both
-- quotes of a quoted one are 0, and the rest is as it was; and what the pointers point to are the
-- contents of the first fields in order, all of them if there is room. A plain field is not empty and
-- holds no quote, blank or 0; a quoted one holds no quote and no 0 and does not end with a backslash.
pub inplace_commandline-line :
    (fs : List Field) (last : Field) (max : ℕ)
    → All IsWord fs
    → IsWord last
    → 0 < max
    → (inplace_commandline (line fs last) max ≡ split (zeroed max fs last) (starts max 0 fs last))
      × (map (read_at (zeroed max fs last)) (starts max 0 fs last) ≡ take max (contents fs last))
unfolding inplace_commandline
inplace_commandline-line fs last max ws w room =
    let (c, text, e, visible) = line_head fs last ws w in
    let fuel = length (line fs last) in
    (
      sym (
            goes_on_room max [] 0 refl (commandline_rounds fuel max) 0 (line fs last) c text e
              visible room)
          ∙ line_followed max fs last fuel max [] 0 0 ws w refl (omega arith) (omega arith),
      starts-read fs last max [] 0 ws w refl,
    )
