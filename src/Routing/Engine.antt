-- ===== src/Routing/Engine.antt =====
-- The base64 engine of the `base64` crate, which the program calls: a parameter, with what its
-- documentation says of `URL_SAFE_NO_PAD`.
use github_oras_packages.Base.{ℕ, ◌+◌, ◌*◌, ◌≤◌, ◌<◌, ◌≡◌, Bytes, Option, some, All, length}

pub record Base64 : Type 0 where
  pub encode : Bytes → Bytes
  pub decode : Bytes → Option Bytes

-- Decoding inverts encoding, and an unpadded encoding of n bytes has the least number of
-- characters, each of six bits, that hold them; `alphabet` tells those characters.
pub record IsUrlSafe (alphabet : ℕ → Type 0) (engine : Base64) : Type 0 where
  pub decode-encode : (s : Bytes) → All (λ c. c < 256) s → engine.decode (engine.encode s) ≡ some s
  pub characters : (s : Bytes) → All (λ c. c < 256) s → All alphabet (engine.encode s)
  pub shortest : (s : Bytes) → length (engine.encode s) * 3 ≤ length s * 4 + 2
  pub longest : (s : Bytes) → length s * 4 ≤ length (engine.encode s) * 3
