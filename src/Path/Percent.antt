-- ===== src/Path/Percent.antt =====
-- `detail::hex_val` and `detail::append_percent_decoded` (HTTPUtils.hpp). A `char` is its byte: the
-- comparisons of `hex_val` fail for the bytes from 128 on, whether `char` is signed or not.
pub mod Laws
use Prim.Native.Nat.{bit_or}
use fcgijwtauth.Base.{
  ℕ, ◌+◌, ◌-◌, ◌*◌, Bool, true, false, ◌&&◌, Option, none, some, [], ◌∷◌, ◌++◌, leb, ◌==◌,
  if◌then◌else◌, Bytes,
}

-- `none` is the -1 of the source.
unfoldable pub hex_val : ℕ → Option ℕ
hex_val c =
    if leb b'0' c && leb c b'9'
    then some (c - b'0')
    else if leb b'a' c && leb c b'f'
    then some (c - b'a' + 10)
    else if leb b'A' c && leb c b'F'
    then some (c - b'A' + 10)
    else none

-- The byte of two hex digits, `(hi << 4) | lo`; `none` when `hi < 0 || lo < 0`.
unfoldable pub hex_pair : Option ℕ → Option ℕ → Option ℕ
hex_pair none lo = none
hex_pair (some hi) none = none
hex_pair (some hi) (some lo) = some (bit_or (hi * 16) lo)

-- The loop over `src`; `dst` is returned as it stands at the return, on a malformed escape too.
-- The first two clauses are those in which `i + 2 >= src.size()` holds of a '%'.
unfoldable pub append_percent_decoded : Bytes → Bytes → Bool × Bytes
append_percent_decoded [] dst = (true, dst)
append_percent_decoded (c ∷ []) dst = if c == b'%' then (false, dst) else (true, dst ++ c ∷ [])
append_percent_decoded (c ∷ d ∷ []) dst =
    let plain = append_percent_decoded (d ∷ []) (dst ++ c ∷ []) in
    if c == b'%' then (false, dst) else plain
append_percent_decoded (c ∷ h ∷ l ∷ src) dst =
    let plain = append_percent_decoded (h ∷ l ∷ src) (dst ++ c ∷ []) in
    let escaped : Bool × Bytes = elim (hex_pair (hex_val h) (hex_val l)) [
      | none ↦ (false, dst)
      | some b ↦ append_percent_decoded src (dst ++ b ∷ [])
    ] in
    if c == b'%' then escaped else plain
