-- ===== src/Aead.antt =====
-- apps/server/src/lib/aead.ts: the wrapping of secrets, over AES-256-GCM and base64.
pub mod Roundtrip
use syrotp.Prelude.{
  ℕ, ◌-◌, ◌%◌, ◌+◌, ◌<◌, ◌≤◌, ◌≡◌, Text, chars, same, length, map, replicate, All, Bool, not, ◌&&◌,
  ◌||◌, List, [], ◌∷◌, ◌++◌, Option, none, some, ◌==◌, if◌then◌else◌, is_digit, is_upper, is_lower,
  true,
}

abbrev pub is_base64 : ℕ → Bool
is_base64 c = is_digit c || is_upper c || is_lower c || c == b'+' || c == b'/'

-- `toString("base64")`: characters of the alphabet, then up to two `=`, to a multiple of four
pub record IsBase64 (s : Text) : Type 0 where
  pub body : Text
  pub missing : ℕ
  pub spelled : s ≡ body ++ replicate missing b'='
  pub alphabet : All (λ c. is_base64 c ≡ true) body
  pub short : missing ≤ 2
  pub quads : (length body + missing) % 4 ≡ 0

-- What `wrap` and `unwrap` use of node:crypto and Buffer
pub record Gcm : Type 0 where
  -- `Buffer.from(s, "hex")`
  pub hex_bytes : Text → List ℕ
  -- `Buffer.from(s, "utf8")` and `toString("utf8")`
  pub utf8 : Text → List ℕ
  pub text_of : List ℕ → Text
  pub text_of-utf8 : (s : Text) → All (λ c. c < 128) s → text_of (utf8 s) ≡ s
  -- `toString("base64")` and `Buffer.from(s, "base64")`
  pub base64 : List ℕ → Text
  pub of_base64 : Text → List ℕ
  pub base64-IsBase64 : (bytes : List ℕ) → IsBase64 (base64 bytes)
  pub of_base64-base64 : (bytes : List ℕ) → of_base64 (base64 bytes) ≡ bytes
  -- aes-256-gcm under a key and an IV: the tag and the ciphertext, and the plaintext where the tag
  -- is theirs
  pub seal : (key iv : List ℕ) → Option (List ℕ) → List ℕ → List ℕ × List ℕ
  pub open_sealed :
      (key iv : List ℕ) → Option (List ℕ) → (tag ciphertext : List ℕ) → Option (List ℕ)
  pub open-seal :
      (key iv : List ℕ) (aad : Option (List ℕ)) (plain : List ℕ)
      → open_sealed key iv aad (seal key iv aad plain).0 (seal key iv aad plain).1 ≡ some plain

abbrev pub version : Text
version = chars "v1"

abbrev pub to_url : ℕ → ℕ
to_url c = if c == b'+' then b'-' else if c == b'/' then b'_' else c

abbrev pub of_url : ℕ → ℕ
of_url c = if c == b'-' then b'+' else if c == b'_' then b'/' else c

-- `replace(/=+$/, "")`
unfoldable pub strip_padding : Text → Text
strip_padding [] = []
strip_padding (c ∷ s) =
    let rest = strip_padding s in if c == b'=' && length rest == 0 then [] else c ∷ rest

unfoldable pub b64u : Gcm → List ℕ → Text
unfolding strip_padding
b64u g bytes = strip_padding (map to_url (g.base64 bytes))

-- What a text of `n` characters lacks to a multiple of four
abbrev pub padding : ℕ → Text
padding n = if n % 4 == 0 then [] else replicate (4 - n % 4) b'='

unfoldable pub b64u_decode : Gcm → Text → List ℕ
b64u_decode g s = g.of_base64 (map of_url s ++ padding (length s))

-- `if (aad)`
abbrev pub aad_bytes : Gcm → Option Text → Option (List ℕ)
aad_bytes g none = none
aad_bytes g (some []) = none
aad_bytes g (some (c ∷ s)) = some (g.utf8 (c ∷ s))

-- `iv` is what `randomBytes(12)` gives; `none` is a throw.
unfoldable pub wrap : Gcm → Text → Text → Option Text → (iv : List ℕ) → Option Text
unfolding b64u
wrap g master_key_hex plaintext aad iv =
    let key = g.hex_bytes master_key_hex in
    let (tag, ct) = g.seal key iv (aad_bytes g aad) (g.utf8 plaintext) in
    if not (length key == 32)
    then none
    else some (
        version
        ++ (chars "." ++ (b64u g iv ++ (chars "." ++ (b64u g tag ++ (chars "." ++ b64u g ct))))))

-- `s.split(".")`: the first part, and the others
unfoldable pub split_dots : Text → Text × List Text
split_dots [] = ([], [])
split_dots (c ∷ s) =
    let (part, parts) = split_dots s in if c == b'.' then ([], part ∷ parts) else (c ∷ part, parts)

abbrev pub unwrap_parts : Gcm → Text → Option Text → Text × List Text → Option Text
unwrap_parts g master_key_hex aad (v, iv ∷ tag ∷ ct ∷ []) =
    let key = g.hex_bytes master_key_hex in
    if not (same v version) || not (length key == 32)
    then none
    else elim (g.open_sealed key (b64u_decode g iv) (aad_bytes g aad) (b64u_decode g tag)
        (b64u_decode g ct)) [ none ↦ none | some plain ↦ some (g.text_of plain) ]
unwrap_parts g master_key_hex aad (v, _) = none

unfoldable pub unwrap : Gcm → Text → Text → Option Text → Option Text
unfolding split_dots b64u_decode
unwrap g master_key_hex wrapped aad = unwrap_parts g master_key_hex aad (split_dots wrapped)
