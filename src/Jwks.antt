-- ===== src/Jwks.antt =====
-- JWKSVerifierStore.hpp and JWKSVerifierStore.cpp: the verifiers of each issuer by key id. The code of
-- the source inside comments is left out, and so is what it writes to stderr. An `unordered_map` is a
-- list of pairs with distinct keys.
pub mod Keys
pub mod Store
pub mod Laws
pub mod Refresh
pub mod Throttle
pub mod Verify
pub mod Manager
