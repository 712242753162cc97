-- ===== src/Sha256.antt =====
-- minisha256.c. A uint8_t, a uint32_t and a uint64_t are numbers below 2 ^ 8, 2 ^ 32 and 2 ^ 64, with
-- the wrap-around of sums and left shifts written out. `data` holds the first `datalen` bytes of the
-- block; what the source leaves behind them is overwritten before it is read.
pub mod Laws
use Prim.Native.Nat.{bit_and, bit_or, bit_xor}
use fcgijwtauth.Base.{
  ℕ, zero, suc, ◌+◌, ◌-◌, ◌*◌, ◌/◌, ◌%◌, ◌^◌, List, [], ◌∷◌, ◌++◌, Bytes, ltb, ◌==◌, if◌then◌else◌,
  length, get_or,
}
use mathlib.Core.List.{reverse}

-- The working variables, and the state between blocks.
pub record State : Type 0 where
  pub a : ℕ
  pub b : ℕ
  pub c : ℕ
  pub d : ℕ
  pub e : ℕ
  pub f : ℕ
  pub g : ℕ
  pub h : ℕ

pub record Context : Type 0 where
  pub block : Bytes
  pub state : State
  pub bitlen : ℕ

unfoldable pub round_constants : List ℕ
round_constants =
    0x428a2f98 ∷ 0x71374491 ∷ 0xb5c0fbcf ∷ 0xe9b5dba5 ∷ 0x3956c25b ∷ 0x59f111f1 ∷ 0x923f82a4
    ∷ 0xab1c5ed5 ∷ 0xd807aa98 ∷ 0x12835b01 ∷ 0x243185be ∷ 0x550c7dc3 ∷ 0x72be5d74 ∷ 0x80deb1fe
    ∷ 0x9bdc06a7 ∷ 0xc19bf174 ∷ 0xe49b69c1 ∷ 0xefbe4786 ∷ 0x0fc19dc6 ∷ 0x240ca1cc ∷ 0x2de92c6f
    ∷ 0x4a7484aa ∷ 0x5cb0a9dc ∷ 0x76f988da ∷ 0x983e5152 ∷ 0xa831c66d ∷ 0xb00327c8 ∷ 0xbf597fc7
    ∷ 0xc6e00bf3 ∷ 0xd5a79147 ∷ 0x06ca6351 ∷ 0x14292967 ∷ 0x27b70a85 ∷ 0x2e1b2138 ∷ 0x4d2c6dfc
    ∷ 0x53380d13 ∷ 0x650a7354 ∷ 0x766a0abb ∷ 0x81c2c92e ∷ 0x92722c85 ∷ 0xa2bfe8a1 ∷ 0xa81a664b
    ∷ 0xc24b8b70 ∷ 0xc76c51a3 ∷ 0xd192e819 ∷ 0xd6990624 ∷ 0xf40e3585 ∷ 0x106aa070 ∷ 0x19a4c116
    ∷ 0x1e376c08 ∷ 0x2748774c ∷ 0x34b0bcb5 ∷ 0x391c0cb3 ∷ 0x4ed8aa4a ∷ 0x5b9cca4f ∷ 0x682e6ff3
    ∷ 0x748f82ee ∷ 0x78a5636f ∷ 0x84c87814 ∷ 0x8cc70208 ∷ 0x90befffa ∷ 0xa4506ceb ∷ 0xbef9a3f7
    ∷ 0xc67178f2 ∷ []

abbrev u32 : ℕ → ℕ
u32 x = x % 2 ^ 32

unfoldable pub rotright : ℕ → ℕ → ℕ
rotright x n = bit_or (x / 2 ^ n) (u32 (x * 2 ^ (32 - n)))

unfoldable pub ch : ℕ → ℕ → ℕ → ℕ
ch x y z = bit_xor (bit_and x y) (bit_and (2 ^ 32 - 1 - x) z)

unfoldable pub maj : ℕ → ℕ → ℕ → ℕ
maj x y z = bit_xor (bit_xor (bit_and x y) (bit_and x z)) (bit_and y z)

unfoldable pub ep0 : ℕ → ℕ
unfolding rotright
ep0 x = bit_xor (bit_xor (rotright x 2) (rotright x 13)) (rotright x 22)

unfoldable pub ep1 : ℕ → ℕ
unfolding rotright
ep1 x = bit_xor (bit_xor (rotright x 6) (rotright x 11)) (rotright x 25)

unfoldable pub sig0 : ℕ → ℕ
unfolding rotright
sig0 x = bit_xor (bit_xor (rotright x 7) (rotright x 18)) (x / 2 ^ 3)

unfoldable pub sig1 : ℕ → ℕ
unfolding rotright
sig1 x = bit_xor (bit_xor (rotright x 17) (rotright x 19)) (x / 2 ^ 10)

-- The words of a block, from four bytes each.
unfoldable pub block_words : Bytes → List ℕ
block_words (p ∷ q ∷ r ∷ s ∷ rest) =
    bit_or (bit_or (bit_or (p * 2 ^ 24) (q * 2 ^ 16)) (r * 2 ^ 8)) s ∷ block_words rest
block_words _ = []

-- The second loop of the schedule, on the words so far with the newest first: m[i - k] stands at
-- the index k - 1.
unfoldable pub schedule : ℕ → List ℕ → List ℕ
unfolding sig0 sig1
schedule zero m = m
schedule (suc rounds) m =
    schedule rounds
      (u32 (sig1 (get_or m 1 0) + get_or m 6 0 + sig0 (get_or m 14 0) + get_or m 15 0) ∷ m)

unfoldable pub round : ℕ → ℕ → State → State
unfolding ch maj ep0 ep1
round k m s =
    let t1 = u32 (s.h + ep1 s.e + ch s.e s.f s.g + k + m) in
    let t2 = u32 (ep0 s.a + maj s.a s.b s.c) in
    record {
      a = u32 (t1 + t2);
      b = s.a;
      c = s.b;
      d = s.c;
      e = u32 (s.d + t1);
      f = s.e;
      g = s.f;
      h = s.g;
    }

unfoldable pub rounds_from : List ℕ → List ℕ → State → State
unfolding round
rounds_from (k ∷ ks) (m ∷ ms) s = rounds_from ks ms (round k m s)
rounds_from _ _ s = s

unfoldable pub transform : State → Bytes → State
unfolding round_constants block_words schedule rounds_from
transform s text =
    let t = rounds_from round_constants (reverse (schedule 48 (reverse (block_words text)))) s in
    record {
      a = u32 (s.a + t.a);
      b = u32 (s.b + t.b);
      c = u32 (s.c + t.c);
      d = u32 (s.d + t.d);
      e = u32 (s.e + t.e);
      f = u32 (s.f + t.f);
      g = u32 (s.g + t.g);
      h = u32 (s.h + t.h);
    }

abbrev pub initial : Context
initial = record {
  block = [];
  state = record {
    a = 0x6a09e667;
    b = 0xbb67ae85;
    c = 0x3c6ef372;
    d = 0xa54ff53a;
    e = 0x510e527f;
    f = 0x9b05688c;
    g = 0x1f83d9ab;
    h = 0x5be0cd19;
  };
  bitlen = 0;
}

-- A round of `SHA256_Update`.
unfoldable pub update_byte : Context → ℕ → Context
unfolding transform
update_byte ctx byte =
    let block = ctx.block ++ byte ∷ [] in
    if length block == 64
    then record {
      block = [];
      state = transform ctx.state block;
      bitlen = (ctx.bitlen + 512) % 2 ^ 64;
    }
    else record ctx { block = block }

unfoldable pub update : Context → Bytes → Context
unfolding update_byte
update ctx [] = ctx
update ctx (byte ∷ text) = update (update_byte ctx byte) text

unfoldable pub zeros : ℕ → Bytes
zeros zero = []
zeros (suc n) = 0 ∷ zeros n

abbrev byte_at : ℕ → ℕ → ℕ
byte_at x n = x / 2 ^ n % 256

abbrev word_bytes : ℕ → Bytes
word_bytes w = byte_at w 24 ∷ byte_at w 16 ∷ byte_at w 8 ∷ byte_at w 0 ∷ []

-- The padding, the length and the last block or two.
unfoldable pub final_state : Context → State
unfolding transform zeros
final_state ctx =
    let bits = (ctx.bitlen + length ctx.block * 8) % 2 ^ 64 in
    let size =
      byte_at bits 56
      ∷ byte_at bits 48
      ∷ byte_at bits 40
      ∷ byte_at bits 32
      ∷ byte_at bits 24
      ∷ byte_at bits 16
      ∷ byte_at bits 8
      ∷ byte_at bits 0
      ∷ [] in
    let marked = ctx.block ++ 0x80 ∷ [] in
    let short = transform ctx.state ((marked ++ zeros (56 - length marked)) ++ size) in
    let full = transform ctx.state (marked ++ zeros (64 - length marked)) in
    let long = transform full (zeros 56 ++ size) in
    if ltb (length ctx.block) 56 then short else long

unfoldable pub digest : State → Bytes
digest s =
    word_bytes s.a
    ++ (word_bytes s.b
        ++ (word_bytes s.c
            ++ (word_bytes s.d
                ++ (word_bytes s.e ++ (word_bytes s.f ++ (word_bytes s.g ++ word_bytes s.h))))))

abbrev pub lower_hex : ℕ → ℕ
lower_hex n = if ltb n 10 then n + b'0' else n - 10 + b'a'

-- `sha256_hashtostring`: "%02x" of each byte.
unfoldable pub hash_to_string : Bytes → Bytes
hash_to_string [] = []
hash_to_string (x ∷ hash) = lower_hex (x / 16) ∷ lower_hex (x % 16) ∷ hash_to_string hash

unfoldable pub sha256_buf : Bytes → Bytes
unfolding update final_state digest hash_to_string
sha256_buf text = hash_to_string (digest (final_state (update initial text)))
