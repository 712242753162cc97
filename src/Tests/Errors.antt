-- ===== src/Tests/Errors.antt =====
-- Errors with objects at concrete inputs.
use fcgijwtauth.Base.{◌≡◌, refl, true, some, none, List, [], ◌∷◌, ◌++◌, take}
use fcgijwtauth.ErrorInfo.{InfoObject, Context, Memory, create, freed, dispose}
use fcgijwtauth.ErrorInfo.Objects.{add_all, first_true, dispose-add_all}

abbrev memory : Memory
memory = record { allocates = true; initialises = true }

abbrev new_error : Context
new_error = record { message = []; infolist_capacity = 10; infolist_count = 0; infolist = [] }

abbrev objects : List InfoObject
objects =
    record { type = 1; payload = 5; free_cb = some 7 }
    ∷ record { type = 1; payload = 6; free_cb = none }
    ∷ []

created : create memory ≡ some new_error
unfolding create
created = refl

dispose-add_all_example :
    ((add_all objects new_error).1 ≡ first_true 10 objects)
    × (dispose ((add_all objects new_error).0 ∷ []) ≡ dispose [] ++ freed (take 10 objects))
dispose-add_all_example = dispose-add_all memory new_error objects [] created
