-- ===== src/Aead/Roundtrip.antt =====
-- What was wrapped is unwrapped.
use syrotp.Prelude.{
  ℕ, zero, suc, ◌-◌, ◌%◌, ◌+◌, ◌<◌, ◌≤◌, ◌≡◌, refl, ap, sym, ◌∙◌, Text, chars, same_refl, length,
  length-map, map, replicate, All, List, [], ◌∷◌, ◌++◌, Option, some, ◌==◌, true, false, arith,
  Bool-cases, inl, inr,
}
use syrotp.Aead.{
  Gcm, is_base64, to_url, of_url, strip_padding, b64u, b64u_decode, aad_bytes, wrap, unwrap,
  unwrap_parts, split_dots, version, padding,
}

strip_padding-replicate : (n : ℕ) → strip_padding (map to_url (replicate n b'=')) ≡ []
unfolding strip_padding
strip_padding-replicate zero = refl
strip_padding-replicate (suc n) = rw (strip_padding-replicate n) refl

url_char :
    (c : ℕ)
    → is_base64 c ≡ true
    → (of_url (to_url c) ≡ c) × ((to_url c == b'=') ≡ false) × ((to_url c == b'.') ≡ false)
url_char c h = ground arith

strip_padding-body :
    (s : Text) (n : ℕ)
    → All (λ c. is_base64 c ≡ true) s
    → strip_padding (map to_url (s ++ replicate n b'=')) ≡ map to_url s
unfolding strip_padding
strip_padding-body [] n h = strip_padding-replicate n
strip_padding-body (c ∷ s) n (a, h) =
    let (back, kept, plain) = url_char c a in rw (kept, strip_padding-body s n h) refl

of_url-to_url : (s : Text) → All (λ c. is_base64 c ≡ true) s → map of_url (map to_url s) ≡ s
of_url-to_url [] h = refl
of_url-to_url (c ∷ s) (a, h) =
    let (back, kept, plain) = url_char c a in rw (back, of_url-to_url s h) refl

padding_of : (n k : ℕ) → k ≤ 2 → (n + k) % 4 ≡ 0 → padding n ≡ replicate k b'='
padding_of n k h q = elim (Bool-cases (n % 4 == 0)) [
  | inl y ↦ let whole : k ≡ 0 = ground arith in rw (y, whole) refl
  | inr m ↦ let rest : 4 - n % 4 ≡ k = ground arith in rw (m, rest) refl
]

b64u-body : (g : Gcm) (bytes : List ℕ) → b64u g bytes ≡ map to_url (g.base64-IsBase64 bytes).body
unfolding b64u
b64u-body g bytes =
    let b = g.base64-IsBase64 bytes in
    ap (λ s. strip_padding (map to_url s)) b.spelled
    ∙ strip_padding-body b.body b.missing b.alphabet

b64u_decode-b64u : (g : Gcm) (bytes : List ℕ) → b64u_decode g (b64u g bytes) ≡ bytes
unfolding b64u_decode
b64u_decode-b64u g bytes =
    let b = g.base64-IsBase64 bytes in
    let padded : map of_url (map to_url b.body) ++ padding (length (map to_url b.body))
        ≡ g.base64 bytes =
      rw
        (
          of_url-to_url b.body b.alphabet,
          length-map b.body to_url,
          padding_of (length b.body) b.missing b.short b.quads,
        )
        (sym b.spelled) in
    ap (b64u_decode g) (b64u-body g bytes) ∙ ap g.of_base64 padded ∙ g.of_base64-base64 bytes

abbrev NoDot : Text → Type 0
NoDot s = All (λ c. (c == b'.') ≡ false) s

map-NoDot : (s : Text) → All (λ c. is_base64 c ≡ true) s → NoDot (map to_url s)
map-NoDot [] h = tt
map-NoDot (c ∷ s) (a, h) = let (back, kept, plain) = url_char c a in (plain, map-NoDot s h)

b64u-NoDot : (g : Gcm) (bytes : List ℕ) → NoDot (b64u g bytes)
b64u-NoDot g bytes =
    let b = g.base64-IsBase64 bytes in rw (b64u-body g bytes) (map-NoDot b.body b.alphabet)

split_last : (s : Text) → NoDot s → split_dots s ≡ (s, [])
unfolding split_dots
split_last [] h = refl
split_last (c ∷ s) (n, h) = rw (n, split_last s h) refl

split_part :
    (s t : Text) → NoDot s → split_dots (s ++ (b'.' ∷ t)) ≡ (s, (split_dots t).0 ∷ (split_dots t).1)
unfolding split_dots
split_part [] t h = refl
split_part (c ∷ s) t (n, h) = rw (n, split_part s t h) refl

-- The four parts of a wrapped value
split_wrapped :
    (a b c : Text)
    → NoDot a
    → NoDot b
    → NoDot c
    → split_dots (version ++ (chars "." ++ (a ++ (chars "." ++ (b ++ (chars "." ++ c))))))
      ≡ (version, a ∷ b ∷ c ∷ [])
split_wrapped a b c na nb nc =
    split_part version (a ++ (chars "." ++ (b ++ (chars "." ++ c)))) (refl, (refl, tt))
    ∙ rw (split_part a (b ++ (chars "." ++ c)) na, split_part b c nb, split_last c nc) refl

-- A wrapped secret is unwrapped under the same master key and context to what it was, whatever IV
-- was drawn; so `wrap` throws only where the key has not 32 bytes. The secret is ASCII.
pub unwrap-wrap :
    (g : Gcm) (master_key_hex plaintext : Text) (aad : Option Text) (iv : List ℕ)
    → All (λ c. c < 128) plaintext
    → length (g.hex_bytes master_key_hex) ≡ 32
    → (wrapped : Text) × (wrap g master_key_hex plaintext aad iv ≡ some wrapped)
      × (unwrap g master_key_hex wrapped aad ≡ some plaintext)
unfolding wrap unwrap
unwrap-wrap g master_key_hex plaintext aad iv ascii size =
    let key = g.hex_bytes master_key_hex in
    let sealed = g.seal key iv (aad_bytes g aad) (g.utf8 plaintext) in
    (
      version
          ++ (chars "."
              ++ (b64u g iv ++ (chars "." ++ (b64u g sealed.0 ++ (chars "." ++ b64u g sealed.1))))),
      rw size refl,
      ap (unwrap_parts g master_key_hex aad) (
            split_wrapped (b64u g iv) (b64u g sealed.0) (b64u g sealed.1) (b64u-NoDot g iv)
              (b64u-NoDot g sealed.0) (b64u-NoDot g sealed.1))
          ∙ rw
              (
                size,
                same_refl version,
                b64u_decode-b64u g iv,
                b64u_decode-b64u g sealed.0,
                b64u_decode-b64u g sealed.1,
                g.open-seal key iv (aad_bytes g aad) (g.utf8 plaintext),
              )
              (ap some (g.text_of-utf8 plaintext ascii)),
    )

wrap-size :
    (g : Gcm) (key plain : Text) (aad : Option Text) (iv : List ℕ) (wrapped : Text)
    → wrap g key plain aad iv ≡ some wrapped
    → length (g.hex_bytes key) ≡ 32
unfolding wrap
wrap-size g key plain aad iv wrapped e = ground arith

-- So is what was stored.
pub unwrap_wrapped :
    (g : Gcm) (key plain : Text) (aad : Option Text) (iv : List ℕ) (wrapped : Text)
    → All (λ c. c < 128) plain
    → wrap g key plain aad iv ≡ some wrapped
    → unwrap g key wrapped aad ≡ some plain
unwrap_wrapped g key plain aad iv wrapped ascii e =
    let (wrapped', e', opens) =
      unwrap-wrap g key plain aad iv ascii (wrap-size g key plain aad iv wrapped e) in
    let one : wrapped' ≡ wrapped = ground (arith, e, e') in
    ap (λ w. unwrap g key w aad) (sym one) ∙ opens
