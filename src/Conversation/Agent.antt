-- ===== src/Conversation/Agent.antt =====
-- application/agent_invocation.py. An attempt of the agent, which may call tools, is an action on the
-- database that ends with the text of its last message, at the timeout, or with an exception.
use weather_agent.Prelude.{
  Bool, true, false, ◌||◌, Result, ok, raise, failure, List, [], ◌∷◌, String, if◌then◌else◌,
  is_empty, any, starts_with,
}
use weather_agent.Database.{Database}

-- The messages of langchain: `HumanMessage` and `AIMessage`.
pub data Message : Type 0 where
  human ai : String → Message

-- An exception is the text of its type's name and itself.
pub data Attempt : Type 0 where
  finished : String → Attempt
  timed_out : Attempt
  raised : String → Attempt

abbrev pub Agent : Type 0
Agent = List Message → Database → Attempt × Database

-- What `create_fallback_chat_model()` does: it returns a model or None, or raises the error of settings
-- that do not fit.
pub data Fallback : Type 0 where
  no_model : Fallback
  model : Agent → Fallback
  fails : String → Fallback

-- `ModelFactory`, with `create_weather_agent` and `ainvoke` of what it makes, and `str.lower`. That
-- `create_chat_model()` raises is an attempt that raised.
pub record Models : Type 0 where
  pub chat : Agent
  pub fallback : Fallback
  pub lower : String → String

abbrev pub timeout_answer : String
timeout_answer = "Przepraszam, odpowiedź trwała zbyt długo. Spróbuj ponownie za chwilę."

abbrev pub generic_failure_answer : String
generic_failure_answer = "Przepraszam, wystąpił błąd. Spróbuj ponownie za chwilę."

abbrev pub empty_answer : String
empty_answer = "Przepraszam, nie udało się przetworzyć zapytania."

abbrev pub transient_error_markers : List String
transient_error_markers =
    "timeout" ∷ "timed out" ∷ "rate limit" ∷ "rate_limit" ∷ "temporar" ∷ "unavailable" ∷ "overload"
    ∷ "connection" ∷ "connect" ∷ "readtimeout" ∷ "503" ∷ "502" ∷ "504" ∷ []

-- `marker in text`
abbrev pub contains : String → String → Bool
contains marker String.[] = is_empty marker
contains marker (String.◌∷◌ c s) = starts_with (String.◌∷◌ c s) marker || contains marker s

-- `_extract_answer`: `answer or _EMPTY_ANSWER`
abbrev pub extract_answer : String → String
extract_answer answer = if is_empty answer then empty_answer else answer

module _ (models : Models) where
  unfoldable pub is_transient_model_error : String → Bool
  unfolding starts_with
  is_transient_model_error exc =
      any (λ marker. contains marker (models.lower exc)) transient_error_markers

  abbrev pub after_fallback : Attempt × Database → (String × Bool) × Database
  after_fallback (finished answer, db) = ((extract_answer answer, false), db)
  after_fallback (timed_out, db) = ((generic_failure_answer, true), db)
  after_fallback (raised exc, db) = ((generic_failure_answer, true), db)

  abbrev pub returned : (String × Bool) × Database → Result (String × Bool) × Database
  returned (answer, db) = (ok answer, db)

  -- `_invoke_fallback`; the flag of a result is that the turn failed. The model is made outside the
  -- `try`.
  abbrev pub invoke_fallback :
      Fallback → List Message → String → Database → Result (String × Bool) × Database
  invoke_fallback no_model messages no_fallback_answer db = (ok (no_fallback_answer, true), db)
  invoke_fallback (model agent) messages no_fallback_answer db =
      returned (after_fallback (agent messages db))
  invoke_fallback (fails exc) messages no_fallback_answer db = (raise (failure exc), db)

  abbrev pub after_chat : List Message → Attempt × Database → Result (String × Bool) × Database
  after_chat messages (finished answer, db) = (ok (extract_answer answer, false), db)
  after_chat messages (timed_out, db) = invoke_fallback models.fallback messages timeout_answer db
  after_chat messages (raised exc, db) =
      let again = invoke_fallback models.fallback messages generic_failure_answer db in
      if is_transient_model_error exc then again else (ok (generic_failure_answer, true), db)

  unfoldable pub invoke_agent_with_timeout :
      List Message → Database → Result (String × Bool) × Database
  unfolding is_transient_model_error
  invoke_agent_with_timeout messages db = after_chat messages (models.chat messages db)
