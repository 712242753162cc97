-- ===== src/Sha256/Laws.antt =====
-- The shape of a hash text, hashing in pieces, and the block buffer.
use fcgijwtauth.Base.{
  ℕ, ◌+◌, ◌*◌, ◌≤◌, ◌<◌, ◌≡◌, refl, [], ◌∷◌, ◌++◌, Bytes, arith, length, length-append, All, ◌==◌,
  IsByte, Bool-cases, inl, inr,
}
use fcgijwtauth.Sha256.{Context, State, update_byte, update, digest, hash_to_string, sha256_buf}

-- Feeding a text in two pieces is feeding it at once.
pub update-append :
    (ctx : Context) (text more : Bytes) → update ctx (text ++ more) ≡ update (update ctx text) more
unfolding update
update-append ctx [] more = refl
update-append ctx (x ∷ text) more = update-append (update_byte ctx x) text more

-- A lower case hex digit.
abbrev pub IsHex : ℕ → Type 0
IsHex c = (c < 103) × (48 ≤ c)

length-hash_to_string : (hash : Bytes) → length (hash_to_string hash) ≡ 2 * length hash
unfolding hash_to_string
length-hash_to_string [] = omega arith
length-hash_to_string (x ∷ hash) = omega (arith, length-hash_to_string hash)

hash_to_string-IsHex : (hash : Bytes) → All IsByte hash → All IsHex (hash_to_string hash)
unfolding hash_to_string
hash_to_string-IsHex [] h = tt
hash_to_string-IsHex (x ∷ hash) (b, h) =
    ((ground arith, ground arith), ((ground arith, ground arith), hash_to_string-IsHex hash h))

length-digest : (s : State) → length (digest s) ≡ 32
unfolding digest
length-digest s = omega arith

digest-IsByte : (s : State) → All IsByte (digest s)
unfolding digest
digest-IsByte s = omega arith

update_byte-block :
    (ctx : Context) (x : ℕ) → length ctx.block < 64 → length (update_byte ctx x).block < 64
unfolding update_byte
update_byte-block ctx x h = elim (Bool-cases (length (ctx.block ++ x ∷ []) == 64)) [
  | inl e ↦ rw e (omega arith)
  | inr e ↦
      let grown : length (ctx.block ++ x ∷ []) ≡ length ctx.block + 1 =
        length-append ctx.block (x ∷ []) in
      rw e (ground arith)
]

-- The block buffer never holds a whole block: `ctx->data[ctx->datalen++]` stays inside its 64 bytes.
update-block :
    (ctx : Context) (text : Bytes) → length ctx.block < 64 → length (update ctx text).block < 64
unfolding update
update-block ctx [] h = h
update-block ctx (x ∷ text) h = update-block (update_byte ctx x) text (update_byte-block ctx x h)

-- Of every text the hash is 64 bytes between '0' and 'f'.
pub sha256_buf-IsHex :
    (text : Bytes) → (length (sha256_buf text) ≡ 64) × All IsHex (sha256_buf text)
unfolding sha256_buf
sha256_buf-IsHex text = (
  omega (arith, length-hash_to_string (digest _), length-digest _),
  hash_to_string-IsHex (digest _) (digest-IsByte _),
)
