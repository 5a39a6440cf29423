-- ===== src/Extract.antt =====
-- `extractCode` of apps/server/src/services/matching.ts and `extractBindNonce` of phoneBindings.ts:
-- what an SMS body asks for.
pub mod Noise
pub mod Roundtrip
use syrotp.Prelude.{
  ℕ, Text, chars, length, drop, all, trim, strip_spaces, starts_with, is_upper, is_digit, Bool, not,
  ◌||◌, Option, none, some, ltb, if◌then◌else◌,
}
use syrotp.Runtime.{Runtime}

-- `/^[A-Z0-9]+$/`, on a text that is known not to be empty
abbrev pub is_code_char : ℕ → Bool
is_code_char c = is_upper c || is_digit c

-- What `extractCode` and `extractBindNonce` share: the prefix, then `shortest` to `longest` letters
-- and digits, with any white space.
unfoldable pub extract : Runtime → Text → ℕ → ℕ → Text → Option Text
extract rt prefix shortest longest body =
    let upper = rt.to_upper_case (trim body) in
    if not (starts_with upper prefix)
    then none
    else let tail = strip_spaces (drop (length prefix) upper) in
      if ltb (length tail) shortest || ltb longest (length tail)
      then none
      else if all is_code_char tail
      then some tail
      else none

unfoldable pub extract_bind_nonce : Runtime → Text → Option Text
unfolding extract
extract_bind_nonce rt body = extract rt (chars "BIND") 8 64 body

-- `extractCode` with its default prefix
unfoldable pub extract_code : Runtime → Text → Option Text
unfolding extract
extract_code rt body = extract rt (rt.to_upper_case (chars "VERIFY")) 4 32 body
