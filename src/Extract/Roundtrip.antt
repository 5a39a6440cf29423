-- ===== src/Extract/Roundtrip.antt =====
-- What `extractCode` and `extractBindNonce` accept, and that no message is both.
use mathlib.Core.List.{map-append}
use syrotp.Prelude.{
  ℕ, ◌≤◌, ◌<◌, ◌≡◌, refl, sym, ap, ◌∙◌, ◌≢◌, ◌⊎◌, Text, chars, length, map, all, All, starts_with,
  trim, is_space, ascii_upper, true, false, [], ◌∷◌, ◌++◌, ◌==◌, none, some, arith, Bool-cases, inl,
  inr,
}
use syrotp.Runtime.{Runtime}
use syrotp.Extract.{is_code_char, extract, extract_code, extract_bind_nonce}
use syrotp.Extract.Noise.{
  Spaces, NoSpaces, trim_around, strip_gap, map-ascii_upper-Spaces, NoSpaces-of_upper,
  starts_with-append, drop-append,
}

abbrev pub IsAscii : Text → Type 0
IsAscii = All (λ c. c < 128)

is_space_of_code_char : (c : ℕ) → is_code_char c ≡ true → is_space c ≡ false
unfolding is_space
is_space_of_code_char c h = ground arith

pub NoSpaces-of_code : (code : Text) → all is_code_char code ≡ true → NoSpaces code
NoSpaces-of_code [] h = tt
NoSpaces-of_code (c ∷ code) h =
    (is_space_of_code_char c (ground arith), NoSpaces-of_code code (ground arith))

map-ne-nil : (a b : Text) → map ascii_upper a ≡ b → b ≢ [] → a ≢ []
map-ne-nil a b e n z = n (sym e ∙ ap (map ascii_upper) z)

-- What remains of a message once it is trimmed and in upper case
module _ (rt : Runtime) (prefix gap c code : Text) (lo hi : ℕ) (spaced : Spaces gap)
    (cased : map ascii_upper c ≡ code) (plain : all is_code_char code ≡ true)
    (at_least : lo ≤ length code) (at_most : length code ≤ hi) where
  extract_upper :
      (body : Text)
      → rt.to_upper_case (trim body) ≡ prefix ++ (map ascii_upper gap ++ code)
      → extract rt prefix lo hi body ≡ some code
  unfolding extract
  extract_upper body e =
      rw
        (
          e,
          starts_with-append prefix (map ascii_upper gap ++ code),
          drop-append prefix (map ascii_upper gap ++ code),
          strip_gap (map ascii_upper gap) code (map-ascii_upper-Spaces gap spaced)
              (NoSpaces-of_code code plain),
          plain,
        )
        (ground arith)

  extract_of_noise :
      (lead w trail : Text)
      → Spaces lead
      → Spaces trail
      → map ascii_upper w ≡ prefix
      → NoSpaces prefix
      → prefix ≢ []
      → code ≢ []
      → IsAscii (w ++ (gap ++ c))
      → extract rt prefix lo hi (lead ++ (w ++ (gap ++ (c ++ trail)))) ≡ some code
  extract_of_noise lead w trail hl ht hw np ne nc ascii =
      extract_upper (lead ++ (w ++ (gap ++ (c ++ trail)))) (
        rw (
          trim_around lead w gap c trail hl ht (NoSpaces-of_upper w prefix hw np)
              (NoSpaces-of_upper c code cased (NoSpaces-of_code code plain))
              (map-ne-nil w prefix hw ne) (map-ne-nil c code cased nc),
          rt.to_upper_case-ascii (w ++ (gap ++ c)) ascii,
          map-append,
          map-append,
          hw,
          cased,
        ))

ne-nil_of_length : (a : Text) → 0 < length a → a ≢ []
ne-nil_of_length [] h e = elim h [ ]
ne-nil_of_length (c ∷ a) h e = cc

extract_code_lem :
    (rt : Runtime) (body : Text) → extract_code rt body ≡ extract rt (chars "VERIFY") 4 32 body
unfolding extract_code
extract_code_lem rt body =
    ap (λ p. extract rt p 4 32 body) (rt.to_upper_case-ascii (chars "VERIFY") (omega arith))

-- White space around the message and between its words, none between them, and letters of either
-- case make no difference: the code of 4 to 32 letters and digits is found.
pub extract_code_of_noise :
    (rt : Runtime) (lead w gap c trail code : Text)
    → Spaces lead
    → Spaces gap
    → Spaces trail
    → map ascii_upper w ≡ chars "VERIFY"
    → map ascii_upper c ≡ code
    → all is_code_char code ≡ true
    → 4 ≤ length code
    → length code ≤ 32
    → IsAscii (w ++ (gap ++ c))
    → extract_code rt (lead ++ (w ++ (gap ++ (c ++ trail)))) ≡ some code
extract_code_of_noise rt lead w gap c trail code hl hg ht hw hc plain lo hi ascii =
    rw (extract_code_lem rt (lead ++ (w ++ (gap ++ (c ++ trail))))) (
      extract_of_noise rt (chars "VERIFY") gap c code 4 32 hg hc plain lo hi lead w trail hl ht hw
        (NoSpaces-of_code (chars "VERIFY") refl) (λ e. cc) (ne-nil_of_length code (omega arith))
        ascii)

-- The same of a binding message, whose nonce has 8 to 64 letters and digits.
pub extract_bind_nonce_of_noise :
    (rt : Runtime) (lead w gap c trail nonce : Text)
    → Spaces lead
    → Spaces gap
    → Spaces trail
    → map ascii_upper w ≡ chars "BIND"
    → map ascii_upper c ≡ nonce
    → all is_code_char nonce ≡ true
    → 8 ≤ length nonce
    → length nonce ≤ 64
    → IsAscii (w ++ (gap ++ c))
    → extract_bind_nonce rt (lead ++ (w ++ (gap ++ (c ++ trail)))) ≡ some nonce
unfolding extract_bind_nonce
extract_bind_nonce_of_noise rt lead w gap c trail nonce hl hg ht hw hc plain lo hi ascii =
    extract_of_noise rt (chars "BIND") gap c nonce 8 64 hg hc plain lo hi lead w trail hl ht hw
      (NoSpaces-of_code (chars "BIND") refl) (λ e. cc) (ne-nil_of_length nonce (omega arith)) ascii

-- A result has its length within the bounds and holds letters and digits alone.
extract_sound :
    (rt : Runtime) (prefix : Text) (lo hi : ℕ) (body code : Text)
    → extract rt prefix lo hi body ≡ some code
    → (all is_code_char code ≡ true)
      × (lo ≤ length code)
      × (length code ≤ hi)
      × (starts_with (rt.to_upper_case (trim body)) prefix ≡ true)
unfolding extract
extract_sound rt prefix lo hi body code h = ground arith

extract_miss :
    (rt : Runtime) (prefix : Text) (lo hi : ℕ) (body : Text)
    → starts_with (rt.to_upper_case (trim body)) prefix ≡ false
    → extract rt prefix lo hi body ≡ none
unfolding extract
extract_miss rt prefix lo hi body h = rw h

two_prefixes :
    (s : Text) → (starts_with s (chars "BIND") ≡ false) ⊎ (starts_with s (chars "VERIFY") ≡ false)
two_prefixes [] = inl refl
two_prefixes (c ∷ s) = elim (Bool-cases (c == b'B')) [
  | inl b ↦ inr (ground arith)
  | inr other ↦ inl (rw other)
]

-- A message from which a binding nonce is taken gives no verification code, and the nonce is 8 to
-- 64 upper-case letters and digits.
pub extract_bind_nonce_sound :
    (rt : Runtime) (body nonce : Text)
    → extract_bind_nonce rt body ≡ some nonce
    → (extract_code rt body ≡ none)
      × (all is_code_char nonce ≡ true)
      × (8 ≤ length nonce)
      × (length nonce ≤ 64)
unfolding extract_bind_nonce
extract_bind_nonce_sound rt body nonce e =
    let (plain, least, most, _) = extract_sound rt (chars "BIND") 8 64 body nonce e in
    elim (two_prefixes (rt.to_upper_case (trim body))) [
      | inl b ↦ cc (extract_miss rt (chars "BIND") 8 64 body b)
      | inr v ↦ (
        extract_code_lem rt body ∙ extract_miss rt (chars "VERIFY") 4 32 body v,
        plain,
        least,
        most,
      )
    ]

-- A message from which a verification code is taken gives no binding nonce, and the code is 4 to 32
-- upper-case letters and digits.
pub extract_code_sound :
    (rt : Runtime) (body code : Text)
    → extract_code rt body ≡ some code
    → (extract_bind_nonce rt body ≡ none)
      × (all is_code_char code ≡ true)
      × (4 ≤ length code)
      × (length code ≤ 32)
unfolding extract_bind_nonce
extract_code_sound rt body code e =
    let e' = sym (extract_code_lem rt body) ∙ e in
    let (plain, least, most, _) = extract_sound rt (chars "VERIFY") 4 32 body code e' in
    elim (two_prefixes (rt.to_upper_case (trim body))) [
      | inl b ↦ (extract_miss rt (chars "BIND") 8 64 body b, plain, least, most)
      | inr v ↦ cc (extract_miss rt (chars "VERIFY") 4 32 body v)
    ]
