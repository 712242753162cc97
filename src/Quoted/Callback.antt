-- ===== src/Quoted/Callback.antt =====
-- `qsp_callbacker` on fields that are separated by commas.
use fcgijwtauth.Base.{
  ℕ, zero, suc, ◌+◌, ◌<◌, ◌≡◌, ◌≢◌, refl, ap, ◌∙◌, Bool, true, false, some, List, [], ◌∷◌, ◌++◌,
  append_assoc, ◌==◌, if◌then◌else◌, Bytes, length, arith, All, Avoids, Bool-cases, inl, inr,
  length-append, take-append_self, drop-append,
}
use fcgijwtauth.Cookies.Memory.{strchr-Avoids, strchr-none}
use fcgijwtauth.Quoted.{
  closing, skip_comma, Called, last_call, called, on_with, returned, quoted_round, plain_round,
  callback_round, callback_rounds, callbacker,
}

-- A field as it is written: as it is, or between quotes.
pub data Field : Type 0 where
  plain : Bytes → Field
  quoted : Bytes → Field

abbrev pub content : Field → Bytes
content (plain text) = text
content (quoted text) = text

abbrev pub written : Field → Bytes
written (plain text) = text
written (quoted text) = b'"' ∷ (text ++ b'"' ∷ [])

-- The last byte, or the one before the text.
abbrev pub last_from : ℕ → Bytes → ℕ
last_from before [] = before
last_from before (c ∷ text) = last_from c text

abbrev pub StartsPlainly : Bytes → Type 0
StartsPlainly [] = Unit
StartsPlainly (c ∷ text) = (c ≢ b'"') × (c ≢ b' ')

-- A plain field holds no comma and begins with neither a quote nor a blank; a quoted one holds no quote
-- and does not end with a backslash.
abbrev pub IsField : Field → Type 0
IsField (plain text) = StartsPlainly text × Avoids b',' text × Avoids 0 text
IsField (quoted text) = Avoids b'"' text × Avoids 0 text × (last_from b'"' text ≢ b'\\')

-- The last field shows.
abbrev pub IsLast : Field → Type 0
IsLast (plain []) = ⊥
IsLast _ = Unit

unfoldable pub printed : List Field → Field → Bytes
printed [] last = written last
printed (f ∷ fs) last = written f ++ b',' ∷ printed fs last

-- The calls up to the one that does not return 0.
unfoldable pub heard : (ℕ → Bytes → Bool) → ℕ → List Field → Field → List (ℕ × Bytes)
heard cb count [] last = (count, content last) ∷ []
heard cb count (f ∷ fs) last =
    let later = heard cb (count + 1) fs last in
    if cb count (content f) then (count, content f) ∷ [] else (count, content f) ∷ later

pub closing-Avoids :
    (before : ℕ) (text rest : Bytes)
    → Avoids b'"' text
    → Avoids 0 text
    → last_from before text ≢ b'\\'
    → closing before (text ++ b'"' ∷ rest) ≡ some (length text)
unfolding closing
closing-Avoids before [] rest h z d = ground arith
closing-Avoids before (c ∷ text) rest (n, h) (m, z) d =
    ground (arith, closing-Avoids c text rest h z d)

module _ (cb : ℕ → Bytes → Bool) (later : ℕ → Bytes → Called) (count : ℕ) where
  plain_round-append :
      (text rest : Bytes)
      → Avoids b',' text
      → Avoids 0 text
      → plain_round cb later count (text ++ b',' ∷ rest) ≡ returned cb later count text rest
  unfolding plain_round
  plain_round-append text rest h z =
      rw (strchr-Avoids b',' text rest h z, plain_round)
        (rw (take-append_self text (b',' ∷ rest), drop-append text (b',' ∷ rest) 1) refl)

  quoted_round-append :
      (text rest : Bytes)
      → IsField (quoted text)
      → quoted_round cb later count (text ++ b'"' ∷ rest)
        ≡ returned cb later count text (skip_comma rest)
  unfolding quoted_round
  quoted_round-append text rest (h, z, d) =
      rw (closing-Avoids b'"' text rest h z d, quoted_round)
        (rw (take-append_self text (b'"' ∷ rest), drop-append text (b'"' ∷ rest) 1) refl)

  plain_round_last :
      (text : Bytes) → Avoids b',' text → plain_round cb later count text ≡ last_call count text
  unfolding plain_round
  plain_round_last text h = rw (strchr-none b',' text h, plain_round) refl

  -- A field and the comma behind it are read whole.
  callback_round-written :
      (f : Field) (rest : Bytes)
      → IsField f
      → callback_round cb later count (written f ++ b',' ∷ rest)
        ≡ returned cb later count (content f) rest
  unfolding callback_round
  callback_round-written (plain []) rest (s, h, z) = plain_round-append [] rest h z
  callback_round-written (plain (c ∷ text)) rest ((n, m), h, z) =
      let is_quote : (c == b'"') ≡ false = ground arith in
      let is_blank : (c == b' ') ≡ false = ground arith in
      rw is_quote (rw is_blank (plain_round-append (c ∷ text) rest h z))
  callback_round-written (quoted text) rest i =
      ap (quoted_round cb later count) (append_assoc text (b'"' ∷ []) (b',' ∷ rest))
      ∙ quoted_round-append text (b',' ∷ rest) i

  callback_round-last :
      (f : Field)
      → IsField f
      → IsLast f
      → callback_round cb later count (written f) ≡ last_call count (content f)
  unfolding callback_round
  callback_round-last (plain []) i l = absurd l
  callback_round-last (plain (c ∷ text)) ((n, m), h, z) l =
      let is_quote : (c == b'"') ≡ false = ground arith in
      let is_blank : (c == b' ') ≡ false = ground arith in
      rw is_quote (rw is_blank (plain_round_last (c ∷ text) h))
  callback_round-last (quoted text) i l = quoted_round-append text [] i ∙ done (cb count text) text
    where
      done :
          (b : Bool) (text : Bytes)
          → (if b then last_call count text else called count text (on_with later (count + 1) []))
            ≡ last_call count text
      done true text = refl
      done false text = refl

printed_nonempty :
    (later : ℕ → Bytes → Called) (count : ℕ) (fs : List Field) (last : Field)
    → IsLast last
    → on_with later count (printed fs last) ≡ later count (printed fs last)
unfolding printed
printed_nonempty later count [] (plain []) l = absurd l
printed_nonempty later count [] (plain (c ∷ text)) l = refl
printed_nonempty later count [] (quoted text) l = refl
printed_nonempty later count (plain [] ∷ fs) last l = refl
printed_nonempty later count (plain (c ∷ text) ∷ fs) last l = refl
printed_nonempty later count (quoted text ∷ fs) last l = refl

callback_rounds-printed :
    (cb : ℕ → Bytes → Bool) (fs : List Field) (last : Field) (fuel count : ℕ)
    → All IsField fs
    → IsField last
    → IsLast last
    → length (printed fs last) < fuel
    → callback_rounds fuel cb count (printed fs last)
      ≡ record { fields = heard cb count fs last; is_done = true }
unfolding callback_rounds printed heard
callback_rounds-printed cb fs last zero count v i l le = absurd (omega arith)
callback_rounds-printed cb [] last (suc fuel) count v i l le =
    callback_round-last cb (callback_rounds fuel cb) count last i l
callback_rounds-printed cb (f ∷ fs) last (suc fuel) count (v, vs) i l le =
    let shorter : length (printed fs last) < fuel =
      omega (arith, length-append (written f) (b',' ∷ printed fs last)) in
    let rest =
      printed_nonempty (callback_rounds fuel cb) (count + 1) fs last l
      ∙ callback_rounds-printed cb fs last fuel (count + 1) vs i l shorter in
    callback_round-written cb (callback_rounds fuel cb) count f (printed fs last) v
    ∙ elim (Bool-cases (cb count (content f))) [
      | inl stops ↦ rw stops refl
      | inr goes ↦ rw goes (ap (called count (content f)) rest)
    ]

-- Fields that are printed with commas between them come back in order, with their numbers and without
-- their quotes, up to the first at which the callback does not return 0. A field holds no 0; it holds
-- no comma and begins with no quote or blank, or it is quoted, holds no quote and does not end with a
-- backslash; the last is not empty unless it is quoted.
pub callbacker-printed :
    (cb : ℕ → Bytes → Bool) (fs : List Field) (last : Field)
    → All IsField fs
    → IsField last
    → IsLast last
    → callbacker cb (printed fs last) ≡ record { fields = heard cb 0 fs last; is_done = true }
unfolding callbacker
callbacker-printed cb fs last v i l =
    callback_rounds-printed cb fs last (suc (length (printed fs last))) 0 v i l (omega arith)
