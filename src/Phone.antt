-- ===== src/Phone.antt =====
-- apps/server/src/lib/phone.ts: normalising what the user typed, and masking a number for display.
use syrotp.Prelude.{
  ◌-◌, min, Text, chars, length, take, drop, replicate, starts_with, trim, Bool, false, not, ◌||◌,
  String, Option, none, some, or_else, ltb, if◌then◌else◌, ◌++◌,
}
use syrotp.Errors.{Result, ok, phone_error, or_throw, require, ◌>>=◌, ◌>>◌}
use syrotp.Runtime.{Runtime}
use text.Mathlib.Text.{◌==◌ as str_eq}

pub record NormalizedPhone : Type 0 where
  pub e164 : Text
  pub national : Text
  pub country : Text

-- `getType()` answers with a kind of number that is never verified
abbrev pub is_disallowed : Option String → Bool
is_disallowed none = false
is_disallowed (some kind) = str_eq kind "PREMIUM_RATE" || str_eq kind "SHARED_COST"

unfoldable pub normalize_phone : Runtime → Text → Text → Result NormalizedPhone
normalize_phone rt raw default_region = do
  let trimmed = trim raw
  require (not (ltb (length trimmed) 5 || ltb 20 (length trimmed))) (phone_error "invalid_phone")
  parsed ← or_throw (rt.parse_phone_number trimmed default_region) (phone_error "invalid_phone")
  require (not (is_disallowed parsed.number_type)) (phone_error "phone_type_not_allowed")
  ok (record {
    e164 = parsed.number;
    national = parsed.national_number;
    country = or_else parsed.country default_region;
  })

-- "+963991234567" is shown as "+96399****567".
unfoldable pub mask_phone : Text → Text
mask_phone e164 =
    if not (starts_with e164 (chars "+")) || ltb (length e164) 7
    then chars "***"
    else let keep_front = min 6 (length e164 - 4) in
      let stars = replicate (length e164 - keep_front - 3) b'*' in
      take keep_front e164 ++ (stars ++ drop (length e164 - 3) e164)
