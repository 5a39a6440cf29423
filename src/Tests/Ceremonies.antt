-- ===== src/Tests/Ceremonies.antt =====
-- The binding ceremony of one phone, with its second completion and its second revocation.
use syrotp.Prelude.{◌≡◌, refl, chars, same, any, some, [], ◌∷◌, true}
use syrotp.Errors.{ok, err, unique_violation}
use mathlib.Core.List.{Mem}
use syrotp.Schema.{Db, PhoneBinding, PhoneBindingStatus}
use syrotp.Verification.Start.{is_bound}
use syrotp.Binding.{
  ConsumeBindNonceInput, matched, consume_bind_nonce, consumed, set_bound, set_revoked,
}
use syrotp.Binding.Ceremony.{Accepts, consume_bind_nonce_sound, consume_bind_nonce_throws}
use syrotp.Tests.{new_db, binding, second_binding, phone}

abbrev open_db : Db
open_db = record new_db { phone_bindings = second_binding ∷ [] }

abbrev bound_db : Db
bound_db = record new_db { phone_bindings = set_bound 5 second_binding ∷ [] }

abbrev nonce_input : ConsumeBindNonceInput
nonce_input = record { receiver_id = chars "rcv_1"; from_e164 = phone; nonce = chars "CCCCDDDD" }

consumed_open :
    consume_bind_nonce 5 nonce_input open_db
    ≡ ok (matched (chars "pbn_2") (chars "app_1"), bound_db)
unfolding consume_bind_nonce consumed same
consumed_open = refl

consume_bind_nonce_sound_example :
    (b : PhoneBinding) × Mem b open_db.phone_bindings
    × (b.id ≡ chars "pbn_2")
    × (b.app_id ≡ chars "app_1")
    × Accepts 5 nonce_input b
    × (any (is_bound (chars "app_1") phone) bound_db.phone_bindings ≡ true)
    × Mem
        (record b { status = PhoneBindingStatus.verified; bound_at = some 5 })
        bound_db.phone_bindings
consume_bind_nonce_sound_example =
    consume_bind_nonce_sound 5 nonce_input open_db bound_db (chars "pbn_2") (chars "app_1")
      consumed_open

consume_bind_nonce_throws_example :
    consume_bind_nonce 5 nonce_input new_db ≡ err (unique_violation "phone_bindings_active_uq")
unfolding same
consume_bind_nonce_throws_example =
    consume_bind_nonce_throws 5 nonce_input new_db second_binding refl refl

abbrev revoked_db : Db
revoked_db = record new_db { phone_bindings = set_revoked 7 binding ∷ second_binding ∷ [] }
