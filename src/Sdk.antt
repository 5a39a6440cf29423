-- ===== src/Sdk.antt =====
-- packages/sdk-js/src/index.ts: the client of the API, over what `fetch` and the clock do.
pub mod Wait
use syrotp.Prelude.{
  ℕ, zero, suc, ◌+◌, Text, chars, starts_with, decimal, is_digit, is_upper, is_lower, Bool, true,
  false, not, ◌&&◌, ◌||◌, List, [], ◌∷◌, ◌++◌, Option, none, some, or_else, length, drop, all, ltb,
  leb, ◌==◌, if◌then◌else◌,
}
use mathlib.Core.List.{reverse}
use mathlib.Core.Option as Options

-- What the client throws
pub data SdkError : Type 0 where
  type_error : Text → SdkError
  syrotp_error : (code message : Text) → (status : ℕ) → (request_id : Option Text) → SdkError
  -- the `DOMException` of an aborted signal
  abort_error : SdkError

pub data SdkResult {ℓ} (A : Type ℓ) : Type ℓ where
  throws : SdkError → SdkResult A
  returns : A → SdkResult A

-- The `error` of a body
pub record ErrorBody : Type 0 where
  pub code : Option Text
  pub message : Option Text
  pub request_id : Option Text

-- `JSON`, and what the client reads of a value. `error_of` and `is_pending` are `none` where the
-- value is null, so that reading a field of it throws.
pub record Json (Value : Type 0) : Type 0 where
  pub parse : Text → Option Value
  pub stringify : List (Text × Text) → Text
  pub error_of : Value → Option (Option ErrorBody)
  pub is_pending : Value → Option Bool
  -- `{}`
  pub empty : Value

pub data Method : Type 0 where
  get post : Method

pub record Request : Type 0 where
  pub method : Method
  pub url : Text
  pub headers : List (Text × Text)
  pub body : Option Text

-- How `fetch` and the reading of the body end: with the text, by the client's own timeout, or by an
-- error with a message
pub data Exchange : Type 0 where
  answered : (status : ℕ) → (text : Text) → Exchange
  timed_out : Exchange
  broke : Text → Exchange

pub record SyrotpClient : Type 0 where
  pub base_url : Text
  pub api_key : Text
  pub user_agent : Text

abbrev trim_slashes : Text → Text
trim_slashes [] = []
trim_slashes (c ∷ s) = if c == b'/' then trim_slashes s else c ∷ s

abbrev pub is_http_url : Text → Bool
is_http_url s = starts_with s (chars "http://") || starts_with s (chars "https://")

unfoldable pub new_client : (base_url api_key : Text) → Option Text → SdkResult SyrotpClient
new_client base_url api_key suffix =
    let tail = or_else suffix [] in
    if not (is_http_url base_url)
    then throws (type_error (chars "baseUrl must be an http(s) URL"))
    else if length api_key == 0
    then throws (type_error (chars "apiKey is required"))
    else returns (record {
      base_url = reverse (trim_slashes (reverse base_url));
      api_key = api_key;
      user_agent =
          chars "syrotp-sdk-js/0.1.0" ++ (if length tail == 0 then [] else chars " " ++ tail);
    })

abbrev pub strip_undefined : List (Text × Option Text) → List (Text × Text)
strip_undefined [] = []
strip_undefined ((k, none) ∷ fields) = strip_undefined fields
strip_undefined ((k, some v) ∷ fields) = (k, v) ∷ strip_undefined fields

abbrev pub is_alphanumeric : ℕ → Bool
is_alphanumeric c = is_digit c || is_upper c || is_lower c

-- `/^vrf_[A-Za-z0-9]+$/`
abbrev pub is_verification_id : Text → Bool
is_verification_id id =
    starts_with id (chars "vrf_") && ltb 4 (length id) && all is_alphanumeric (drop 4 id)

abbrev pub invalid_id : SdkError
invalid_id = type_error (chars "invalid verification id")

module _ {Value : Type 0} (json : Json Value) where
  abbrev pub build_request :
      SyrotpClient → Method → Text → Option (List (Text × Option Text)) → Request
  build_request c method path fields =
      let common =
        (chars "Authorization", chars "Bearer " ++ c.api_key)
        ∷ (chars "User-Agent", c.user_agent)
        ∷ (chars "Accept", chars "application/json")
        ∷ [] in
      record {
        method = method;
        url = c.base_url ++ path;
        headers = common ++ (elim fields [
          | none ↦ []
          | some given ↦ (chars "Content-Type", chars "application/json") ∷ []
        ]);
        body = Options.map (λ given. json.stringify (strip_undefined given)) fields;
      }

  abbrev pub failed_with : ℕ → Option ErrorBody → SdkError
  failed_with status none =
      syrotp_error (chars "http_" ++ decimal status)
        (chars "request failed with status " ++ decimal status) status none
  failed_with status (some e) =
      syrotp_error (or_else e.code (chars "http_" ++ decimal status))
        (or_else e.message (chars "request failed with status " ++ decimal status)) status
        e.request_id

  -- `null.error` throws a TypeError, whose message is left out.
  abbrev pub of_json : ℕ → Value → SdkResult Value
  of_json status value =
      if leb 200 status && ltb status 300 then returns value else elim (json.error_of value) [
        | none ↦ throws (syrotp_error (chars "network_error") [] 0 none)
        | some e ↦ throws (failed_with status e)
      ]

  -- `request` from the end of the exchange on
  unfoldable pub of_exchange : Exchange → SdkResult Value
  of_exchange timed_out =
      throws (syrotp_error (chars "timeout") (chars "request timed out") 408 none)
  of_exchange (broke message) = throws (syrotp_error (chars "network_error") message 0 none)
  of_exchange (answered status []) = of_json status json.empty
  of_exchange (answered status (c ∷ text)) = elim (json.parse (c ∷ text)) [
    | none ↦ throws (
        syrotp_error (chars "bad_response")
          (chars "non-JSON response (status " ++ (decimal status ++ chars ")")) status none)
    | some value ↦ of_json status value
  ]

  unfoldable pub start_verification :
      SyrotpClient
      → (phone purpose : Text) → (client_ref locale : Option Text) → (Request → Exchange)
      → SdkResult Value
  unfolding of_exchange
  start_verification c phone purpose client_ref locale fetch = of_exchange (
      fetch (
        build_request c post (chars "/v1/verifications") (
          some (
            (chars "phone", some phone)
            ∷ (chars "purpose", some purpose)
            ∷ (chars "client_ref", client_ref)
            ∷ (chars "locale", locale)
            ∷ []))))

  -- `encodeURIComponent` leaves an id of this form as it is.
  unfoldable pub get_verification : SyrotpClient → Text → (Request → Exchange) → SdkResult Value
  unfolding of_exchange
  get_verification c id fetch =
      if is_verification_id id
      then of_exchange (fetch (build_request c get (chars "/v1/verifications/" ++ id) none))
      else throws invalid_id

  unfoldable pub cancel_verification : SyrotpClient → Text → (Request → Exchange) → SdkResult Value
  unfolding of_exchange
  cancel_verification c id fetch =
      let path = chars "/v1/verifications/" ++ (id ++ chars "/cancel") in
      if is_verification_id id
      then of_exchange (fetch (build_request c post path none))
      else throws invalid_id

-- What happens in one round of the loop of `waitForVerification`: whether the signal was aborted
-- before it, what the exchange does and how long it takes, whether the signal is aborted in the
-- sleep, and how much longer than asked the sleep lasts
pub record Round : Type 0 where
  pub aborted : Bool
  pub fetch : Request → Exchange
  pub took : ℕ
  pub woken : Bool
  pub overslept : ℕ

abbrev pub wait_interval : Option ℕ → ℕ
wait_interval none = 2500
wait_interval (some ms) = if ltb ms 2000 then 2000 else ms

-- One more call, before the others
abbrev pub called_at {ℓ} : {A : Type ℓ} → ℕ → Option (A × List ℕ) → Option (A × List ℕ)
called_at now none = none
called_at now (some (answer, times)) = some (answer, now ∷ times)

module _ {Value : Type 0} (json : Json Value) (c : SyrotpClient) (id : Text) where
  -- The loop from a time on, with the number of calls of `getVerification` before: what it answers,
  -- and the times of its calls. `none` is out of fuel.
  unfoldable pub wait_from :
      ℕ
      → (interval deadline : ℕ) → (ℕ → Round)
      → (now requests : ℕ) → Option (SdkResult Value × List ℕ)
  wait_from zero interval deadline rounds now requests = none
  wait_from (suc fuel) interval deadline rounds now requests =
      let r = rounds requests in
      let rest = called_at now (
        wait_from fuel interval deadline rounds (now + r.took + interval + r.overslept)
          (requests + 1)) in
      if not (ltb now deadline)
      then some (
        throws (syrotp_error (chars "timeout") (chars "waitForVerification timed out") 408 none),
        [],
      )
      else if r.aborted
      then some (throws abort_error, [])
      else elim (get_verification json c id r.fetch) [
        | throws e ↦ some (throws e, now ∷ [])
        | returns v ↦ elim (json.is_pending v) [
          | none ↦ some (throws (type_error []), now ∷ [])
          | some false ↦ some (returns v, now ∷ [])
          | some true ↦ if r.woken then some (throws abort_error, now ∷ []) else rest
        ]
      ]

  -- The clock is read twice before the loop's first test; here it is once.
  unfoldable pub wait_for_verification :
      (fuel : ℕ)
      → (interval_ms timeout_ms : Option ℕ) → (ℕ → Round)
      → (now : ℕ) → Option (SdkResult Value × List ℕ)
  unfolding wait_from
  wait_for_verification fuel interval_ms timeout_ms rounds now =
      wait_from fuel (wait_interval interval_ms) (now + or_else timeout_ms 300000) rounds now 0
