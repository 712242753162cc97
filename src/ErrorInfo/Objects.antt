-- ===== src/ErrorInfo/Objects.antt =====
-- What becomes of the objects that are added to an error.
use fcgijwtauth.Base.{
  ℕ, zero, suc, ◌+◌, ◌≡◌, refl, ap, sym, ◌∙◌, Bool, true, false, some, List, [], ◌∷◌, ◌++◌,
  append-nil, append_assoc, ltb, arith, take,
}
use fcgijwtauth.ErrorInfo.{
  InfoObject, Context, ErrorInfo, Memory, create, freed, dispose, add_info_object,
}

-- One object after the other, with the result of each call.
unfoldable pub add_all : List InfoObject → Context → Context × List Bool
unfolding add_info_object
add_all [] ei_ctx = (ei_ctx, [])
add_all (object ∷ objects) ei_ctx =
    let (ei_ctx', taken) = add_info_object object ei_ctx in
    let (ei_ctx'', results) = add_all objects ei_ctx' in (ei_ctx'', taken ∷ results)

-- So many times true, and false for the rest.
abbrev pub first_true : ℕ → List InfoObject → List Bool
first_true n [] = []
first_true zero (object ∷ objects) = false ∷ first_true zero objects
first_true (suc n) (object ∷ objects) = true ∷ first_true n objects

add_all_full :
    (objects : List InfoObject) (ei_ctx : Context)
    → ei_ctx.infolist_count ≡ ei_ctx.infolist_capacity
    → add_all objects ei_ctx ≡ (ei_ctx, first_true 0 objects)
unfolding add_all add_info_object
add_all_full [] ei_ctx full = refl
add_all_full (object ∷ objects) ei_ctx full =
    let no_room : ltb ei_ctx.infolist_count ei_ctx.infolist_capacity ≡ false = ground arith in
    rw (no_room, add_info_object) (rw (add_all_full objects ei_ctx full) refl)

add_all_room :
    (objects : List InfoObject) (room : ℕ) (ei_ctx : Context)
    → ei_ctx.infolist_count + room ≡ ei_ctx.infolist_capacity
    → ((add_all objects ei_ctx).0.infolist ≡ ei_ctx.infolist ++ take room objects)
      × ((add_all objects ei_ctx).1 ≡ first_true room objects)
unfolding add_all add_info_object
add_all_room [] zero ei_ctx e = (sym (append-nil ei_ctx.infolist), refl)
add_all_room [] (suc room) ei_ctx e = (sym (append-nil ei_ctx.infolist), refl)
add_all_room (object ∷ objects) zero ei_ctx e =
    let full = add_all_full (object ∷ objects) ei_ctx (omega arith) in
    (
      ap (λ (r : Context × List Bool). r.0.infolist) full ∙ sym (append-nil ei_ctx.infolist),
      ap (λ (r : Context × List Bool). r.1) full,
    )
add_all_room (object ∷ objects) (suc room) ei_ctx e =
    let has_room : ltb ei_ctx.infolist_count ei_ctx.infolist_capacity ≡ true = ground arith in
    let taken : Context = record ei_ctx {
      infolist_count = ei_ctx.infolist_count + 1;
      infolist = ei_ctx.infolist ++ object ∷ [];
    } in
    let (kept, results) = add_all_room objects room taken (omega arith) in
    rw (has_room, add_info_object)
      (
        kept ∙ append_assoc ei_ctx.infolist (object ∷ []) (take room objects),
        ap (λ bs. true ∷ bs) results,
      )

new_context :
    (memory : Memory) (ei_ctx : Context)
    → create memory ≡ some ei_ctx
    → (ei_ctx.infolist_count + 10 ≡ ei_ctx.infolist_capacity) × (ei_ctx.infolist ≡ [])
unfolding create
new_context memory ei_ctx e = ground (arith, e)

-- Of the objects that are added to a new error, the first ten are taken and the others are refused; when
-- it is disposed of, its causes are first, and then the taken ones are freed once each, in their order,
-- as far as they have a function for it.
pub dispose-add_all :
    (memory : Memory) (ei_ctx : Context) (objects : List InfoObject) (cause : ErrorInfo)
    → create memory ≡ some ei_ctx
    → ((add_all objects ei_ctx).1 ≡ first_true 10 objects)
      × (dispose ((add_all objects ei_ctx).0 ∷ cause) ≡ dispose cause ++ freed (take 10 objects))
unfolding dispose
dispose-add_all memory ei_ctx objects cause e =
    let (room, fresh) = new_context memory ei_ctx e in
    let (kept, results) = add_all_room objects 10 ei_ctx room in
    (results, ap (λ os. dispose cause ++ freed os) (kept ∙ ap (λ os. os ++ take 10 objects) fresh))
