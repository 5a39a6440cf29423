-- ===== src/History/Message.antt =====
-- The message that `startVerification` asks the user to send verifies what it started.
use mathlib.Core.List.{append-nil}
use syrotp.Prelude.{
  ℕ, zero, suc, ◌≤◌, ◌<◌, ◌≡◌, refl, sym, ◌∙◌, ap, Text, chars, same, same_refl, length, map, all,
  true, false, List, [], ◌∷◌, ◌++◌, arith, All, All-append, any, find, get_elem?, or_else, is_space,
  Option, some, none, ascii_upper,
}
use syrotp.Errors.{ok}
use syrotp.Tables.{find-new}
use syrotp.Schema.{Db, Verification}
use syrotp.Runtime.{Runtime, new_id, inbound_prefix, verification_prefix}
use syrotp.Extract.{is_code_char, extract_bind_nonce, extract_code}
use syrotp.Extract.Roundtrip.{IsAscii, extract_code_of_noise, extract_code_sound}
use syrotp.Verification.Hosted.{has_id}
use syrotp.Verification.{PublicVerification, is_pending}
use syrotp.Verification.Start.{
  StartVerificationInput, start_verification, new_row, message_prefix, code_alphabet, generate_code,
  is_pending_triple,
}
use syrotp.Matching.{
  MatchInput, verification_matched, claim_tx, is_claimable, is_same_delivery, inbound_row,
  process_inbound, match_body, match_code, sender,
}
use syrotp.History.Handlers.{start_verification-eq-ok}
use syrotp.History.Insert.{start_tx-eq-ok}
use syrotp.History.Redelivery.{inserted}

-- The answer to a message, given the row that its claim picks
pub process_inbound-claims :
    (rt : Runtime) (ulids : ℕ → Text) (now : ℕ) (input : MatchInput) (db : Db) (code : Text)
    (v : Verification)
    → any (λ s. same s.id (new_id inbound_prefix (ulids 0))) db.inbound_sms ≡ false
    → any (is_same_delivery input.receiver_id input.idempotency_key) db.inbound_sms ≡ false
    → extract_bind_nonce rt input.body ≡ none
    → extract_code rt input.body ≡ some code
    → find (is_claimable now input.receiver_id (sender rt input.from) code) db.verifications
      ≡ some v
    → (process_inbound rt ulids now input db).1
      ≡ ok (verification_matched v.id (new_id inbound_prefix (ulids 0)))
unfolding process_inbound match_body match_code claim_tx
process_inbound-claims rt ulids now input db code v fresh new no_nonce with_code found = rw (
  inserted (inbound_row now (new_id inbound_prefix (ulids 0)) (sender rt input.from) input) db fresh
      new,
  no_nonce,
  match_body,
  with_code,
  match_code,
  claim_tx,
  found,
)

-- A code as `generateCode` makes them
pub record IsCode (code : Text) : Type 0 where
  pub plain : all is_code_char code ≡ true
  pub at_least : 4 ≤ length code
  pub at_most : length code ≤ 32

abbrev char_at : Text → ℕ → ℕ
char_at alphabet d = or_else (get_elem? alphabet d) 0

char_of_alphabet :
    (alphabet : Text) (d : ℕ)
    → all is_code_char alphabet ≡ true
    → d < length alphabet
    → is_code_char (char_at alphabet d) ≡ true
char_of_alphabet [] d h lt = elim lt [ ]
char_of_alphabet (c ∷ cs) zero h lt = ground arith
char_of_alphabet (c ∷ cs) (suc d) h lt = char_of_alphabet cs d (ground arith) (omega arith)

generate_code_plain :
    (draws : List ℕ) → All (λ d. d < 31) draws → all is_code_char (generate_code draws) ≡ true
unfolding generate_code
generate_code_plain [] h = refl
generate_code_plain (d ∷ draws) (lt, h) =
    rw (char_of_alphabet code_alphabet d refl lt) (generate_code_plain draws h)

length-generate_code : (draws : List ℕ) → length (generate_code draws) ≡ length draws
unfolding generate_code
length-generate_code [] = refl
length-generate_code (d ∷ draws) = ap suc (length-generate_code draws)

pub generate_code-IsCode :
    (draws : List ℕ)
    → All (λ d. d < 31) draws
    → 4 ≤ length draws
    → length draws ≤ 32
    → IsCode (generate_code draws)
generate_code-IsCode draws h lo hi = record {
  plain = generate_code_plain draws h;
  at_least = omega (arith, length-generate_code draws);
  at_most = omega (arith, length-generate_code draws);
}

upper_of_code : (code : Text) → all is_code_char code ≡ true → map ascii_upper code ≡ code
upper_of_code [] h = refl
upper_of_code (c ∷ code) h = ground (arith, upper_of_code code)

IsAscii-of_code : (code : Text) → all is_code_char code ≡ true → IsAscii code
IsAscii-of_code [] h = tt
IsAscii-of_code (c ∷ code) h = (ground arith, IsAscii-of_code code (ground arith))

-- The message of a code carries that code.
pub extract_code_of_message :
    (rt : Runtime) (code : Text)
    → IsCode code
    → extract_code rt (message_prefix ++ (chars " " ++ code)) ≡ some code
unfolding is_space
extract_code_of_message rt code c =
    ap (extract_code rt)
      (ap (λ (s : Text). message_prefix ++ (chars " " ++ s)) (sym (append-nil code)))
    ∙ extract_code_of_noise rt [] message_prefix (chars " ") code [] code tt (refl, tt) tt refl
        (upper_of_code code c.plain) c.plain c.at_least c.at_most
        (All-append _ message_prefix (chars " " ++ code) (omega arith)
          (omega arith, IsAscii-of_code code c.plain))

claimable_is_triple :
    (t : ℕ) (r p c : Text) (xs : List Verification)
    → any (is_pending_triple r p c) xs ≡ false
    → any (is_claimable t r p c) xs ≡ false
claimable_is_triple t r p c [] h = refl
claimable_is_triple t r p c (x ∷ xs) h = ground (arith, claimable_is_triple t r p c xs)

row_claimable :
    (later : ℕ) (row : Verification)
    → later < row.expires_at
    → is_pending row.status ≡ true
    → is_claimable later row.receiver_id row.phone_e164 row.code row ≡ true
row_claimable later row h p =
    ground (arith, same_refl row.receiver_id, same_refl row.phone_e164, same_refl row.code)

-- A started verification is verified by the message of the answer: `row` is what was stored under
-- the answer's id, and a message with the answer's text, from the phone, through the row's receiver,
-- stored under a new id and key, and processed before the expiry, is answered with that id; the
-- number that the answer names is the one that the row keeps. The codes are as `IsCode` says.
pub started_message_verifies :
    (rt : Runtime) (ulid : Text) (codes : ℕ → Text) (now : ℕ) (input : StartVerificationInput)
    (db db' : Db) (out : PublicVerification) (row : Verification) (ulids : ℕ → Text) (later : ℕ)
    (message : MatchInput)
    → ((i : ℕ) → IsCode (codes i))
    → start_verification rt ulid codes now input db ≡ ok (out, db')
    → find (has_id out.id) db'.verifications ≡ some row
    → message.receiver_id ≡ row.receiver_id
    → sender rt message.from ≡ input.phone_e164
    → out.message ≡ some message.body
    → later < out.expires_at
    → any (λ s. same s.id (new_id inbound_prefix (ulids 0))) db'.inbound_sms ≡ false
    → any (is_same_delivery message.receiver_id message.idempotency_key) db'.inbound_sms ≡ false
    → (out.send_to ≡ row.receiver_msisdn_snapshot)
      × ((process_inbound rt ulids later message db').1
          ≡ ok (verification_matched out.id (new_id inbound_prefix (ulids 0))))
started_message_verifies rt ulid codes now input db db' out row ulids later message coded e stored
      er ep em early fresh new =
    let (code, picked, i, chosen, _, done, named, expiry, sent, asked) =
      start_verification-eq-ok rt ulid codes now input db db' out e in
    let (_, _, unused, free, left) =
      start_tx-eq-ok rt.config (new_id verification_prefix ulid) now input db db' code picked
        done in
    let made = new_row rt.config (new_id verification_prefix ulid) now input picked.receiver code in
    let good : IsCode code = rw chosen (coded i) in
    let known : find (has_id out.id) db'.verifications ≡ some made =
      rw (left, named)
        (find-new (has_id (new_id verification_prefix ulid)) db.verifications made unused
          (same_refl (new_id verification_prefix ulid))) in
    let same_row : row ≡ made =
      ap (λ (o : Option Verification). or_else o made) (sym stored ∙ known) in
    let receiver : message.receiver_id ≡ picked.receiver.id =
      er ∙ ap (λ (v : Verification). v.receiver_id) same_row in
    let body : message_prefix ++ (chars " " ++ code) ≡ message.body =
      ap (λ (o : Option Text). or_else o []) (sym asked ∙ em) in
    let with_code : extract_code rt message.body ≡ some code =
      ap (extract_code rt) (sym body) ∙ extract_code_of_message rt code good in
    let in_time : later < made.expires_at = omega (arith, expiry, early) in
    let found : find (is_claimable later message.receiver_id (sender rt message.from) code)
          db'.verifications
        ≡ some made =
      rw (left, receiver, ep)
        (find-new (is_claimable later picked.receiver.id input.phone_e164 code) db.verifications
          made
          (claimable_is_triple later picked.receiver.id input.phone_e164 code db.verifications free)
          (row_claimable later made in_time refl)) in
    (
      sent ∙ sym (ap (λ (v : Verification). v.receiver_msisdn_snapshot) same_row),
      process_inbound-claims rt ulids later message db' code made fresh new
            (extract_code_sound rt message.body code with_code).0 with_code found
          ∙ ap (λ (n : Text). ok (verification_matched n (new_id inbound_prefix (ulids 0))))
              (sym named),
    )
