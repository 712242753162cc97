-- ===== src/ErrorInfo.antt =====
-- errorinfo.c: a message with objects that belong to it, and the error that caused it. An error is the
-- list of the contexts that are linked by `cause`, itself first; the null pointer is the empty list.
-- Whether there is memory for a new one, and what the formatting gives, are parameters; what appends to a
-- message is taken to succeed.
pub mod Objects
use fcgijwtauth.Base.{
  ℕ, ◌+◌, Bool, true, false, Option, none, some, List, [], ◌∷◌, ◌++◌, ltb, if◌then◌else◌, Bytes,
  lit,
}

-- `errorinfoobject_context`; `free_cb` is the number of a function, and may be null.
pub record InfoObject : Type 0 where
  pub type : ℕ
  pub payload : ℕ
  pub free_cb : Option ℕ

-- `errorinfo_context` without `cause`; the array is as long as `infolist_count`.
pub record Context : Type 0 where
  pub message : Bytes
  pub infolist_capacity : ℕ
  pub infolist_count : ℕ
  pub infolist : List InfoObject

abbrev pub ErrorInfo : Type 0
ErrorInfo = List Context

-- `malloc`, and `dynstring_initialise`.
pub record Memory : Type 0 where
  pub allocates : Bool
  pub initialises : Bool

unfoldable pub create : Memory → Option Context
create memory =
    let new_context =
      some (record { message = []; infolist_capacity = 10; infolist_count = 0; infolist = [] }) in
    if memory.allocates then (if memory.initialises then new_context else none) else none

-- The calls of `free_cb` that a list of objects leads to.
unfoldable pub freed : List InfoObject → List (ℕ × ℕ)
freed [] = []
freed (object ∷ objects) =
    let later = freed objects in
    elim object.free_cb [ none ↦ later | some free_cb ↦ (free_cb, object.payload) ∷ later ]

-- The cause is disposed of first.
unfoldable pub dispose : ErrorInfo → List (ℕ × ℕ)
unfolding freed
dispose [] = []
dispose (ei_ctx ∷ cause) = dispose cause ++ freed ei_ctx.infolist

unfoldable pub append_message : Bytes → Context → Context
append_message message ei_ctx = record ei_ctx {
  message = ei_ctx.message ++ (message ++ b'\n' ∷ []);
}

-- The result is 0 if the object was taken, and -1 if it was not.
unfoldable pub add_info_object : InfoObject → Context → Context × Bool
add_info_object object ei_ctx =
    if ltb ei_ctx.infolist_count ei_ctx.infolist_capacity
    then (
      record ei_ctx {
        infolist_count = ei_ctx.infolist_count + 1;
        infolist = ei_ctx.infolist ++ object ∷ [];
      },
      true,
    )
    else (ei_ctx, false)

-- `errorinfo_wrap_va`, and `errorinfo_wrap`: `formatted` is what `dynstring_sprintf_va` appends,
-- and `none` where it returns 0. The context that is disposed of has no cause and no objects.
unfoldable pub wrap : Memory → ErrorInfo → Option Bytes → ErrorInfo
unfolding create
wrap memory cause formatted = elim (create memory) [
  | none ↦ []
  | some ei_ctx ↦ elim formatted [
    | none ↦ []
    | some text ↦ record ei_ctx { message = ei_ctx.message ++ text } ∷ cause
  ]
]

-- What the pointer shows behind the call, where it is not the null pointer, and whether 0 is returned.
unfoldable pub create_basic : Memory → Option ErrorInfo → Option Bytes → Option ErrorInfo × Bool
unfolding wrap
create_basic memory none formatted = (none, false)
create_basic memory (some (ei_ctx ∷ cause)) formatted = (some (ei_ctx ∷ cause), false)
create_basic memory (some []) formatted = elim (wrap memory [] formatted) [
  | [] ↦ (some [], false)
  | ei_ctx ∷ cause ↦ (some (ei_ctx ∷ cause), true)
]

unfoldable pub cstr : ErrorInfo → Bytes
unfolding lit
cstr [] = lit "errorinfo_context was null"
cstr (ei_ctx ∷ cause) = ei_ctx.message
