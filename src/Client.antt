-- ===== src/Client.antt =====
-- The state that the client's handlers share: the stores of web/client/store, and the requests
-- that web/client/server_api has sent, oldest first.
use zmey.Base.{ℕ, Bool, String, List, [], ◌∷◌, ◌++◌}
use zmey.JsMap.{JsMap}
use zmey.Types.{Pipeline, TaskTemplate, PipelineTask, FormTask, Event}

-- The body is the object as it stands when the request is sent.
pub data Request : Type 0 where
  get_user : Request
  add_pipeline change_pipeline del_pipeline : Pipeline → Request
  add_task_template change_task_template del_task_template : TaskTemplate → Request
  add_event change_event del_event : Event → Request
  add_pipeline_task change_form_task : FormTask → Request
  change_pipeline_task del_pipeline_task : PipelineTask → Request
  get_all_pipelines get_all_task_templates get_all_pipeline_tasks get_all_events : Request
  start_task : ℕ → ℕ → ℕ → ℕ → String → Request
  continue_task pause_task stop_task : ℕ → Request
  get_task_state : ℕ → Bool → Request

pub record Client : Type 0 where
  pub pipelines : JsMap Pipeline
  pub task_templates : JsMap TaskTemplate
  pub pipeline_tasks : JsMap PipelineTask
  pub events : JsMap Event
  pub sent : List Request

abbrev pub send : Request → Client → Client
send r c = record c { sent = c.sent ++ r ∷ [] }

-- A handler returns, or leaves the state as it is when a TypeError is thrown.
pub data Outcome : Type 0 where
  returns : Client → Outcome
  throws : Client → Outcome

abbrev pub final : Outcome → Client
final (returns c) = c
final (throws c) = c

infixl 5 ◌>>=◌
abbrev pub ◌>>=◌ : Outcome → (Client → Outcome) → Outcome
returns c >>= f = f c
throws c >>= f = throws c

-- What holds after a handler and is kept by the next one holds after both.
pub final->>= {ℓ} :
    (P : Client → Type ℓ) (o : Outcome) (f : Client → Outcome)
    → P (final o)
    → ((c : Client) → P c → P (final (f c)))
    → P (final (o >>= f))
final->>= P (returns c) f h g = g c h
final->>= P (throws c) f h g = h
