-- ===== src/Template/View.antt =====
-- The engine as its clients see it: a text, and a function from names to values.
pub mod Lookup
use mathlib.Core.Path.{fun_ext, ap₂}
use fcgijwtauth.Base.{
  ℕ, zero, suc, ◌+◌, ◌≡◌, refl, ap, ◌∙◌, sym, Bool, Option, none, some, List, [], ◌∷◌, ◌++◌,
  if◌then◌else◌, Bytes, length, take, drop, Option-cases, inl, inr, All,
}
use fcgijwtauth.Jwks.Store.{find_key}
use fcgijwtauth.Jwks.Keys.{Distinct}
use fcgijwtauth.Template.{
  Engine, set_template, set_variable, set_variables, remove_variable, clear_variables, trim,
  is_valid_variable_name, find_pair, replacement, render_from, render,
}
use fcgijwtauth.Template.View.Lookup.{
  put, without, find_key-assign_lem, find_key-erase, assign-Distinct, erase-Distinct,
}

pub data Change : Type 0 where
  template : Bytes → Change
  variable : Bytes → Bytes → Change
  variables : List (Bytes × Bytes) → Change
  erasure : Bytes → Change
  clearing : Change

-- A map that is passed in has each key once.
abbrev pub IsChange : Change → Type 0
IsChange (variables m) = Distinct m
IsChange _ = Unit

abbrev change : Change → Engine → Engine
change (template text) e = set_template text e
change (variable name value) e = set_variable name value e
change (variables m) e = set_variables m e
change (erasure name) e = remove_variable name e
change clearing e = clear_variables e

-- The calls one after the other.
unfoldable pub run : List Change → Engine → Engine
unfolding set_template set_variable set_variables remove_variable clear_variables
run [] e = e
run (c ∷ cs) e = run cs (change c e)

pub record View : Type 0 where
  pub text : Bytes
  pub value : Bytes → Option Bytes

abbrev pub view : Engine → View
view e = record { text = e.template; value = λ name. find_key name e.variables }

abbrev viewed : Change → View → View
viewed (template text) v = record v { text = text }
viewed (variable name value) v = record v { value = put name value v.value }
viewed (variables m) v = record v { value = λ name. find_key name m }
viewed (erasure name) v = record v { value = without name v.value }
viewed clearing v = record v { value = λ name. none }

-- The same calls on the view.
unfoldable pub replay : List Change → View → View
replay [] v = v
replay (c ∷ cs) v = replay cs (viewed c v)

change-view :
    (c : Change) (e : Engine)
    → IsChange c
    → Distinct e.variables
    → Distinct (change c e).variables × (view (change c e) ≡ viewed c (view e))
unfolding set_template set_variable set_variables remove_variable clear_variables find_key
change-view (template text) e i h = (h, refl)
change-view (variable name value) e i h = (
  assign-Distinct name value e.variables h,
  ap (λ f. record { text = e.template; value = f })
      (fun_ext λ other. find_key-assign_lem name value other e.variables),
)
change-view (variables m) e i h = (i, refl)
change-view (erasure name) e i h = (
  erase-Distinct name e.variables h,
  ap (λ f. record { text = e.template; value = f })
      (fun_ext λ other. find_key-erase name other e.variables h),
)
change-view clearing e i h = (tt, refl)

run-view :
    (cs : List Change) (e : Engine)
    → All IsChange cs
    → Distinct e.variables
    → Distinct (run cs e).variables × (view (run cs e) ≡ replay cs (view e))
unfolding run replay
run-view [] e i h = (h, refl)
run-view (c ∷ cs) e (i, is) h =
    let (distinct, seen) = change-view c e i h in
    let (distinct', seen') = run-view cs (change c e) is distinct in
    (distinct', seen' ∙ ap (replay cs) seen)

module _ (leave_unknown : Bool) (m m' : List (Bytes × Bytes)) where
  replacement-find_key :
      (inner original : Bytes)
      → find_key (trim inner) m ≡ find_key (trim inner) m'
      → replacement leave_unknown m inner original ≡ replacement leave_unknown m' inner original
  unfolding replacement
  replacement-find_key inner original h =
      ap
        (λ (known : Option Bytes).
          let unknown = if leave_unknown then original else [] in
          let value : Bytes = elim known [ none ↦ unknown | some value ↦ value ] in
          if is_valid_variable_name (trim inner) then value else original)
        h

  render_from-find_key :
      (fuel : ℕ) (text : Bytes)
      → ((name : Bytes) → find_key name m ≡ find_key name m')
      → render_from fuel leave_unknown m text ≡ render_from fuel leave_unknown m' text
  unfolding render_from
  render_from-find_key fuel [] h = refl
  render_from-find_key zero (c ∷ text) h = refl
  render_from-find_key (suc fuel) (c ∷ text) h =
      elim (Option-cases (find_pair b'<' b'%' (c ∷ text))) [
        | inl none_open ↦ rw (none_open, render_from) refl
        | inr (start, open_at) ↦
            elim (Option-cases (find_pair b'%' b'>' (drop (start + 2) (c ∷ text)))) [
              | inl none_closed ↦ rw (open_at, none_closed, render_from) refl
              | inr (count, closed_at) ↦
                  rw (open_at, closed_at, render_from)
                    (ap₂ (λ (t u : Bytes). take start (c ∷ text) ++ (t ++ u))
                      (replacement-find_key (take count (drop (start + 2) (c ∷ text)))
                        (take (count + 4) (drop start (c ∷ text))) (h _))
                      (render_from-find_key fuel (drop (count + 2) (drop (start + 2) (c ∷ text)))
                        h))
            ]
      ]

-- However an engine was changed, it renders as any engine that the view of the changes fits: a text,
-- and a function from names to values that each call updates at its name. How the map keeps its pairs
-- and in which order they came does not show. The map that the engine starts with has each name once,
-- and so have those that are passed in.
pub render-run :
    (leave_unknown : Bool) (cs : List Change) (e e' : Engine)
    → All IsChange cs
    → Distinct e.variables
    → view e' ≡ replay cs (view e)
    → render leave_unknown (run cs e) ≡ render leave_unknown e'
unfolding render
render-run leave_unknown cs e e' i h seen =
    let same : view (run cs e) ≡ view e' = (run-view cs e i h).1 ∙ sym seen in
    let text : (run cs e).template ≡ e'.template = ap (λ (v : View). v.text) same in
    ap (λ t. render_from (length t) leave_unknown (run cs e).variables t) text
    ∙ render_from-find_key leave_unknown (run cs e).variables e'.variables (length e'.template)
        e'.template (λ name. ap (λ (v : View). v.value name) same)
