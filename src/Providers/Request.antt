-- ===== src/Providers/Request.antt =====
-- adapters/imgw/warnings_provider.py: the request of the warnings, with its retries, and the errors of
-- domain/errors.py. What the HTTP client does is a parameter: an outcome for every attempt.
use Prim.Native.String.{◌++◌}
use weather_agent.Prelude.{
  ℕ, zero, suc, ◌*◌, Bool, true, false, Option, none, some, List, [], ◌∷◌, String, leb, ltb,
  if◌then◌else◌,
}
use weather_agent.Prelude.Decimal.{show_nat}
use weather_agent.Toolbox.{take_text}

-- `value is None`, `str(value)` and `bool(value)` of a value of JSON, and an object by its keys.
pub record Value : Type 0 where
  pub null : Bool
  pub shown : String
  pub truthy : Bool

abbrev pub Item : Type 0
Item = List (String × Value)

-- The subclasses of `WeatherProviderError`, with the provider and the message.
pub data ProviderError : Type 0 where
  unavailable timeout response_error : String → String → ProviderError

-- `response.json()`: it raises, returns no list, or a list of objects.
pub data Body : Type 0 where
  invalid no_list : Body
  array : List Item → Body

-- An exception of the client, or a response: its status, its text and its JSON.
pub data HttpOutcome : Type 0 where
  timeout_exception connect_error : HttpOutcome
  http_error : String → HttpOutcome
  response : ℕ → String → Body → HttpOutcome

-- A call returns a list or raises; `raise None` raises `TypeError`.
pub data Reply : Type 0 where
  received : List Item → Reply
  failed : ProviderError → Reply
  type_error : Reply

abbrev pub body_reply : String → Body → Reply
body_reply provider invalid = failed (response_error provider "Response is not valid JSON")
body_reply provider no_list = failed (response_error provider "Response is not a JSON array")
body_reply provider (array items) = received items

abbrev pub status_reply : String → ℕ → String → Reply → Reply
status_reply provider status text reply =
    if leb 500 status
    then failed (response_error provider ("Server error: " ++ show_nat status ""))
    else if leb 400 status
    then failed (
        response_error provider ("Client error: " ++ show_nat status (" — " ++ take_text 200 text)))
    else reply

unfoldable pub make_request : String → HttpOutcome → Reply
make_request provider timeout_exception = failed (timeout provider "Provider request timed out")
make_request provider connect_error = failed (unavailable provider "Provider is unavailable")
make_request provider (http_error exc) = failed (unavailable provider ("HTTP error: " ++ exc))
make_request provider (response status text body) =
    status_reply provider status text (body_reply provider body)

-- The errors after which the loop goes on.
unfoldable pub is_transient : Reply → Bool
is_transient (received items) = false
is_transient (failed (unavailable provider message)) = true
is_transient (failed (timeout provider message)) = true
is_transient (failed (response_error provider message)) = false
is_transient type_error = false

-- What the loop ends with, how often it asked, and how long it slept, in milliseconds.
pub record Requested : Type 0 where
  pub reply : Reply
  pub attempts : ℕ
  pub sleeps : List ℕ

abbrev pub max_retries : ℕ
max_retries = 3

abbrev pub two_to : ℕ → ℕ
two_to zero = 1
two_to (suc n) = 2 * two_to n

abbrev pub backoff : ℕ → ℕ
backoff attempt = 500 * two_to attempt

abbrev pub slept : ℕ → Requested → Requested
slept attempt rest =
    if ltb (suc attempt) max_retries
    then record rest { sleeps = backoff attempt ∷ rest.sleeps }
    else rest

abbrev pub last_error : Option Reply → Reply
last_error none = type_error
last_error (some reply) = reply

-- The rounds that are left, the number of the next one, and what the last one ended with.
abbrev pub request_from : String → (ℕ → HttpOutcome) → ℕ → ℕ → Option Reply → Requested
unfolding make_request is_transient
request_from provider outcomes zero attempt last = record {
  reply = last_error last;
  attempts = attempt;
  sleeps = [];
}
request_from provider outcomes (suc left) attempt last =
    let reply = make_request provider (outcomes attempt) in
    let rest = request_from provider outcomes left (suc attempt) (some reply) in
    if is_transient reply
    then slept attempt rest
    else record { reply = reply; attempts = suc attempt; sleeps = [] }

unfoldable pub request_with_retry : String → (ℕ → HttpOutcome) → Requested
unfolding make_request is_transient
request_with_retry provider outcomes = request_from provider outcomes max_retries 0 none
