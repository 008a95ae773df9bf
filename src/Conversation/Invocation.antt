-- ===== src/Conversation/Invocation.antt =====
-- What a call of the agent comes to, with one fallback.
use weather_agent.Prelude.{
  Bool, true, false, not, Bool-cases, inl, inr, Result, ok, raise, failure, if◌then◌else◌, List,
  String, ◌≡◌, refl, is_empty,
}
use weather_agent.Database.{Database}
use weather_agent.Conversation.Agent.{
  Message, Attempt, finished, timed_out, raised, Fallback, no_model, model, fails, Models, returned,
  is_transient_model_error, invoke_agent_with_timeout, after_chat, after_fallback, invoke_fallback,
  extract_answer, generic_failure_answer, timeout_answer,
}

abbrev pub is_finished : Attempt × Database → Bool
is_finished (finished answer, db) = true
is_finished (timed_out, db) = false
is_finished (raised exc, db) = false

module _ (models : Models) (messages : List Message) where
  -- The failures after which the fallback is asked: a timeout, and an exception that is transient.
  abbrev pub may_retry : Attempt × Database → Bool
  unfolding is_transient_model_error
  may_retry (finished answer, db) = false
  may_retry (timed_out, db) = true
  may_retry (raised exc, db) = is_transient_model_error models exc

  -- Whether the fallback fails too, or the exception with which its model is not made.
  abbrev pub fallback_fails : Fallback → Database → Result Bool
  fallback_fails no_model db = ok true
  fallback_fails (model agent) db = ok (not (is_finished (agent messages db)))
  fallback_fails (fails exc) db = raise (failure exc)

  -- The flag of a result.
  abbrev pub failed_of : Result (String × Bool) → Result Bool
  failed_of (ok (answer, failed)) = ok failed
  failed_of (raise e) = raise e

  after_fallback-failed :
      (o : Attempt × Database)
      → failed_of (returned models (after_fallback models o)).0 ≡ ok (not (is_finished o))
  after_fallback-failed (finished answer, db) = refl
  after_fallback-failed (timed_out, db) = refl
  after_fallback-failed (raised exc, db) = refl

  invoke_fallback-failed :
      (fallback : Fallback) (text : String) (db : Database)
      → failed_of (invoke_fallback models fallback messages text db).0 ≡ fallback_fails fallback db
  invoke_fallback-failed no_model text db = refl
  invoke_fallback-failed (model agent) text db = after_fallback-failed (agent messages db)
  invoke_fallback-failed (fails exc) text db = refl

  -- The verdict on the turn, from the first attempt.
  abbrev pub verdict : Attempt × Database → Result Bool
  unfolding is_transient_model_error
  verdict first =
      if is_finished first
      then ok false
      else if may_retry first
      then fallback_fails models.fallback first.1
      else ok true

  after_chat-failed :
      (o : Attempt × Database) → failed_of (after_chat models messages o).0 ≡ verdict o
  unfolding is_transient_model_error
  after_chat-failed (finished answer, db) = refl
  after_chat-failed (timed_out, db) = invoke_fallback-failed models.fallback timeout_answer db
  after_chat-failed (raised exc, db) =
      let again = invoke_fallback-failed models.fallback generic_failure_answer db in
      elim (Bool-cases (is_transient_model_error models exc)) [
        | inl e ↦ rw e again
        | inr e ↦ rw e refl
      ]

  -- A turn has not failed if the model answered. After a timeout or a transient exception it has failed
  -- exactly if there is no fallback or the fallback does not answer, and it raises if the fallback's
  -- model cannot be made; after another exception it has failed.
  pub invoke_agent_with_timeout-failed :
      (db : Database)
      → failed_of (invoke_agent_with_timeout models messages db).0
        ≡ verdict (models.chat messages db)
  unfolding invoke_agent_with_timeout is_transient_model_error
  invoke_agent_with_timeout-failed db = after_chat-failed (models.chat messages db)

  extract_answer_nonempty : (answer : String) → is_empty (extract_answer answer) ≡ false
  extract_answer_nonempty String.[] = refl
  extract_answer_nonempty (String.◌∷◌ c answer) = refl

  -- An answer that is returned is not empty.
  abbrev pub HasAnswer : Result (String × Bool) → Type 0
  HasAnswer (ok (answer, failed)) = is_empty answer ≡ false
  HasAnswer (raise e) = Unit

  after_fallback-HasAnswer :
      (o : Attempt × Database) → HasAnswer (returned models (after_fallback models o)).0
  after_fallback-HasAnswer (finished answer, db) = extract_answer_nonempty answer
  after_fallback-HasAnswer (timed_out, db) = refl
  after_fallback-HasAnswer (raised exc, db) = refl

  invoke_fallback-HasAnswer :
      (fallback : Fallback) (text : String) (db : Database)
      → is_empty text ≡ false
      → HasAnswer (invoke_fallback models fallback messages text db).0
  invoke_fallback-HasAnswer no_model text db h = h
  invoke_fallback-HasAnswer (model agent) text db h = after_fallback-HasAnswer (agent messages db)
  invoke_fallback-HasAnswer (fails exc) text db h = tt

  after_chat-HasAnswer : (o : Attempt × Database) → HasAnswer (after_chat models messages o).0
  unfolding is_transient_model_error
  after_chat-HasAnswer (finished answer, db) = extract_answer_nonempty answer
  after_chat-HasAnswer (timed_out, db) =
      invoke_fallback-HasAnswer models.fallback timeout_answer db refl
  after_chat-HasAnswer (raised exc, db) =
      let again = invoke_fallback-HasAnswer models.fallback generic_failure_answer db refl in
      elim (Bool-cases (is_transient_model_error models exc)) [
        | inl e ↦ rw e again
        | inr e ↦ rw e refl
      ]

  -- Whatever the models do, an answer that the call returns is not empty.
  pub invoke_agent_with_timeout-HasAnswer :
      (db : Database) → HasAnswer (invoke_agent_with_timeout models messages db).0
  unfolding invoke_agent_with_timeout
  invoke_agent_with_timeout-HasAnswer db = after_chat-HasAnswer (models.chat messages db)
