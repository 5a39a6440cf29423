-- ===== src/Tests/Secrets.antt =====
-- The wrapping of secrets over a cipher and an encoding that are simple enough to be run.
use syrotp.Prelude.{
  ℕ, zero, suc, ◌+◌, ◌*◌, ◌/◌, ◌%◌, ◌≡◌, refl, ap, ◌∙◌, Text, chars, length, All, true, List, [],
  ◌∷◌, ◌++◌, arith, some, ◌==◌, if◌then◌else◌, replicate,
}
use syrotp.Aead.{Gcm, IsBase64, is_base64, wrap, unwrap}
use syrotp.Aead.Roundtrip.{unwrap-wrap}

-- A byte is written as so many times `AAAA`, and `BCCC`.
abbrev quads : ℕ → Text → Text
quads zero rest = b'B' ∷ b'C' ∷ b'C' ∷ b'C' ∷ rest
quads (suc n) rest = b'A' ∷ b'A' ∷ b'A' ∷ b'A' ∷ quads n rest

abbrev encode : List ℕ → Text
encode [] = []
encode (b ∷ bytes) = quads b (encode bytes)

abbrev decode : ℕ → Text → List ℕ
decode n [] = []
decode n (c ∷ s) =
    let ended = (n / 4) ∷ decode 0 s in
    let more = decode (n + 1) s in
    let skipped = decode n s in if c == b'A' then more else if c == b'B' then ended else skipped

decode-quads : (n k : ℕ) (rest : Text) → decode (k * 4) (quads n rest) ≡ (k + n) ∷ decode 0 rest
decode-quads zero k rest = ap (λ (m : ℕ). m ∷ decode 0 rest) (omega arith)
decode-quads (suc n) k rest =
    ap (λ (m : ℕ). decode m (quads n rest)) (omega arith)
    ∙ decode-quads n (k + 1) rest
    ∙ ap (λ (m : ℕ). m ∷ decode 0 rest) (omega arith)

pub decode-encode : (bytes : List ℕ) → decode 0 (encode bytes) ≡ bytes
decode-encode [] = refl
decode-encode (b ∷ bytes) =
    decode-quads b 0 (encode bytes)
    ∙ ap (λ (m : ℕ). m ∷ decode 0 (encode bytes)) (omega arith)
    ∙ ap (λ s. b ∷ s) (decode-encode bytes)

quads-length : (n : ℕ) (s : Text) → length (quads n s) ≡ n * 4 + 4 + length s
quads-length zero s = omega arith
quads-length (suc n) s = omega (arith, quads-length n s)

encode-length : (bytes : List ℕ) → length (encode bytes) % 4 ≡ 0
encode-length [] = refl
encode-length (b ∷ bytes) = omega (arith, quads-length b (encode bytes), encode-length bytes)

quads-All :
    (n : ℕ) (s : Text) → All (λ c. is_base64 c ≡ true) s → All (λ c. is_base64 c ≡ true) (quads n s)
quads-All zero s h = (refl, (refl, (refl, (refl, h))))
quads-All (suc n) s h = (refl, (refl, (refl, (refl, quads-All n s h))))

encode-All : (bytes : List ℕ) → All (λ c. is_base64 c ≡ true) (encode bytes)
encode-All [] = tt
encode-All (b ∷ bytes) = quads-All b (encode bytes) (encode-All bytes)

encode-append : (s : Text) → s ≡ s ++ []
encode-append [] = refl
encode-append (c ∷ s) = ap (λ t. c ∷ t) (encode-append s)

pub encode-IsBase64 : (bytes : List ℕ) → IsBase64 (encode bytes)
encode-IsBase64 bytes = record {
  body = encode bytes;
  missing = 0;
  spelled = encode-append (encode bytes);
  alphabet = encode-All bytes;
  short = omega arith;
  quads = omega (arith, encode-length bytes);
}

abbrev pub sample_gcm : Gcm
sample_gcm = record {
  hex_bytes = λ s. s;
  utf8 = λ s. s;
  text_of = λ bytes. bytes;
  text_of-utf8 = λ s h. refl;
  base64 = encode;
  of_base64 = decode 0;
  base64-IsBase64 = encode-IsBase64;
  of_base64-base64 = decode-encode;
  seal = λ key iv aad plain. (1 ∷ [], plain);
  open_sealed = λ key iv aad tag ciphertext. some ciphertext;
  open-seal = λ key iv aad plain. refl;
}

unwrap-wrap_example :
    (wrapped : Text) × (wrap sample_gcm
        (replicate 32 b'0')
        (chars "secret")
        (some (chars "webhook:whk_1"))
        (2 ∷ [])
      ≡ some wrapped)
    × (unwrap sample_gcm (replicate 32 b'0') wrapped (some (chars "webhook:whk_1"))
        ≡ some (chars "secret"))
unwrap-wrap_example =
    unwrap-wrap sample_gcm (replicate 32 b'0') (chars "secret") (some (chars "webhook:whk_1"))
      (2 ∷ []) (omega arith) refl
