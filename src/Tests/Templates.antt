-- ===== src/Tests/Templates.antt =====
-- Templates and answers of a server at concrete inputs.
use fcgijwtauth.Base.{
  ap, Bool-cases, inl, inr, bytes_eq, ℕ, ◌≡◌, refl, true, none, some, List, [], ◌∷◌, Bytes, arith,
}
use fcgijwtauth.Web.{Web, Performed}
use fcgijwtauth.HttpClient.{http_post}
use fcgijwtauth.HttpClient.Laws.{http_post_lem}
use fcgijwtauth.Template.{
  Engine, find_pair, is_valid_variable_name, set_variable, render, render_from,
}
use fcgijwtauth.Template.Pieces.{Piece, IsPiece, template_of, output_of}
use fcgijwtauth.Template.Render.{render-template_of}
use fcgijwtauth.Template.Fuel.{render_from-length}
use fcgijwtauth.Template.Variable.{render-set_variable}
use fcgijwtauth.Jwks.Store.{find_key}
use mathlib.Core.Path.{fun_ext}
use fcgijwtauth.Template.View.{Change, run, view, replay, render-run}

-- "a<% n %>b<%m%>"
abbrev piece : Piece
piece = record { before = b'a' ∷ []; inner = b' ' ∷ b'n' ∷ b' ' ∷ [] }

abbrev next_piece : Piece
next_piece = record { before = b'b' ∷ []; inner = b'm' ∷ [] }

abbrev engine : Engine
engine = record {
  template =
      b'a' ∷ b'<' ∷ b'%' ∷ b' ' ∷ b'n' ∷ b' ' ∷ b'%' ∷ b'>' ∷ b'b' ∷ b'<' ∷ b'%' ∷ b'm' ∷ b'%'
      ∷ b'>' ∷ [];
  variables = (b'n' ∷ [], b'v' ∷ []) ∷ [];
}

piece-IsPiece : IsPiece piece
piece-IsPiece = record { closed = unfold find_pair in refl; open_inside = unfold find_pair in refl }

next_piece-IsPiece : IsPiece next_piece
next_piece-IsPiece = record {
  closed = unfold find_pair in refl;
  open_inside = unfold find_pair in refl;
}

no_delimiter : (c : ℕ) → find_pair b'<' b'%' (c ∷ []) ≡ none
unfolding find_pair
no_delimiter c = refl

engine_pieces : engine.template ≡ template_of (piece ∷ next_piece ∷ []) []
unfolding template_of
engine_pieces = refl

end_plain : find_pair b'<' b'%' [] ≡ none
unfolding find_pair
end_plain = refl

render-template_of_example :
    render true engine ≡ output_of true engine.variables (piece ∷ next_piece ∷ []) []
render-template_of_example =
    render-template_of true engine (piece ∷ next_piece ∷ []) []
      (piece-IsPiece, (next_piece-IsPiece, tt)) end_plain engine_pieces

render_from-length_example :
    render_from 14 true engine.variables engine.template
    ≡ render_from 20 true engine.variables engine.template
render_from-length_example =
    render_from-length true engine.variables 14 20 engine.template (omega arith) (omega arith)

abbrev blank_engine : Engine
blank_engine = record engine {
  template = b'a' ∷ b'<' ∷ b'%' ∷ b' ' ∷ b'n' ∷ b'%' ∷ b'>' ∷ b'b' ∷ [];
}

name_valid : is_valid_variable_name (b'n' ∷ []) ≡ true
unfolding is_valid_variable_name
name_valid = refl

-- The value holds an expression itself, which is left alone.
render-set_variable_example :
    render true (set_variable (b'n' ∷ []) (b'<' ∷ b'%' ∷ b'n' ∷ b'%' ∷ b'>' ∷ []) blank_engine)
    ≡ b'a' ∷ b'<' ∷ b'%' ∷ b'n' ∷ b'%' ∷ b'>' ∷ b'b' ∷ []
render-set_variable_example =
    render-set_variable true blank_engine (b'a' ∷ []) (b' ' ∷ []) (b'n' ∷ []) [] (b'b' ∷ [])
      (b'<' ∷ b'%' ∷ b'n' ∷ b'%' ∷ b'>' ∷ []) (no_delimiter b'a') (refl, tt) name_valid tt
      (no_delimiter b'b') refl

abbrev performed : Performed
performed = record {
  is_ok = true;
  content_type = some (b't' ∷ []);
  status = 200;
  pieces = (b'a' ∷ []) ∷ (b'b' ∷ b'c' ∷ []) ∷ [];
}

-- Every request is answered with "abc"; a query is its pairs, of which any text decodes to none.
abbrev pub web : Web
web = record {
  Query = List (Bytes × Bytes);
  decode_query = λ text. some [];
  get_by_key = λ query key. elim query [ none ↦ none | some pairs ↦ find_key key pairs ];
  url_encode = λ text. text;
  html_encode = λ text. text;
  count_char = λ text c. 0;
  current_time = b'2' ∷ b'0' ∷ b'2' ∷ b'6' ∷ [];
  steady_now = 1000;
  steady_passed = 5;
  perform_post = λ url content_type post_data. performed;
}

http_post_lem_example :
    http_post web (some []) [] []
    ≡ some (record { content_type = some (b't' ∷ []); body = b'a' ∷ b'b' ∷ b'c' ∷ [] })
http_post_lem_example = http_post_lem web [] [] [] performed refl

-- "n" is set, "m" is set and removed, and "n" is set again.
abbrev changes : List Change
changes =
    Change.variable (b'n' ∷ []) (b'1' ∷ [])
    ∷ Change.variable (b'm' ∷ []) (b'2' ∷ [])
    ∷ Change.erasure (b'm' ∷ [])
    ∷ Change.variable (b'n' ∷ []) (b'3' ∷ [])
    ∷ []

abbrev changed_engine : Engine
changed_engine = record engine { variables = (b'n' ∷ [], b'3' ∷ []) ∷ [] }

nothing : find_key {V = Bytes} (b'n' ∷ []) [] ≡ none
unfolding find_key
nothing = refl

changed_view : view changed_engine ≡ replay changes (view engine)
unfolding replay find_key
changed_view =
    ap (λ f. record { text = engine.template; value = f })
      (fun_ext λ name. elim (Bool-cases (bytes_eq (b'n' ∷ []) name)) [
        | inl same ↦ rw same refl
        | inr other ↦ elim (Bool-cases (bytes_eq (b'm' ∷ []) name)) [
          | inl removed ↦ rw (other, removed) refl
          | inr absent ↦ rw (other, absent) refl
        ]
      ])

render-run_example : render true (run changes engine) ≡ render true changed_engine
render-run_example =
    render-run true changes engine changed_engine (tt, (tt, (tt, (tt, tt)))) (nothing, tt)
      changed_view
