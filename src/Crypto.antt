-- ===== src/Crypto.antt =====
-- apps/server/src/lib/crypto.ts over the primitives of node:crypto and Buffer.
pub mod Hex
use syrotp.Prelude.{
  ℕ, ◌/◌, ◌%◌, ◌<◌, ◌≡◌, Text, chars, same, length, map, get_elem?, or_else, All, Bool, false, List,
  Option, [], ◌∷◌, ◌++◌, ◌==◌, if◌then◌else◌,
}

pub record Primitives : Type 0 where
  -- `Buffer.from(s, "utf8")`; ASCII is its own encoding
  pub utf8 : Text → List ℕ
  pub utf8-ascii : (s : Text) → All (λ c. c < 128) s → utf8 s ≡ s
  -- `Buffer.from(s, "hex")`
  pub hex_bytes : Text → List ℕ
  -- `createHash("sha256")…digest("hex")` and `createHmac("sha256", key)…digest("hex")`
  pub sha256_digest : List ℕ → Text
  pub hmac_digest : List ℕ → List ℕ → Text
  -- `unwrap` of lib/aead.ts under a master key, with its additional data; `none` where it throws
  pub unwrap : Text → Text → Text → Option Text
  -- `config.MASTER_ENCRYPTION_KEY`
  pub master_key : Text

unfoldable pub safe_equal : Primitives → Text → Text → Bool
safe_equal p a b =
    if length (p.utf8 a) == length (p.utf8 b) then same (p.utf8 a) (p.utf8 b) else false

abbrev pub sha256_hex : Primitives → List ℕ → Text
sha256_hex p input = p.sha256_digest input

-- The key and the message are texts here.
abbrev pub hmac_sha256_hex : Primitives → Text → Text → Text
hmac_sha256_hex p key message = p.hmac_digest (p.utf8 key) (p.utf8 message)

abbrev pub hash_secret : Primitives → Text → Text → Text → Text
hash_secret p domain master_key_hex value =
    p.hmac_digest (p.hex_bytes master_key_hex) (p.utf8 (domain ++ (chars ":" ++ value)))

unfoldable pub verify_hmac_hex : Primitives → Text → Text → Text → Bool
unfolding safe_equal
verify_hmac_hex p key payload signature_hex =
    safe_equal p (hmac_sha256_hex p key payload) signature_hex

abbrev pub api_key_alphabet : Text
api_key_alphabet = chars "abcdefghijklmnopqrstuvwxyz0123456789"

-- One character for each of the 32 random bytes
unfoldable pub generate_api_key : Text → List ℕ → Text
generate_api_key prefix bytes =
    prefix ++ (chars "_" ++ map (λ b. or_else (get_elem? api_key_alphabet (b % 36)) 0) bytes)

-- `randomBytes(n).toString("hex")`, given the bytes
abbrev pub hex_digit : ℕ → ℕ
hex_digit d = or_else (get_elem? (chars "0123456789abcdef") d) 0

unfoldable pub hex_text : List ℕ → Text
hex_text [] = []
hex_text (b ∷ bytes) = hex_digit (b / 16) ∷ hex_digit (b % 16) ∷ hex_text bytes
