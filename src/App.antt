-- ===== src/App.antt =====
-- web/client/app.tsx: filling the stores at the start, and polling the runs of the selected task.
pub mod Poll
pub mod Fill
pub mod Page
pub mod Receive
use zmey.Base.{
  ℕ, zero, suc, ◌==◌, not, ◌&&◌, ◌||◌, Bool, true, false, Option, none, some, List, [], ◌∷◌,
  if◌then◌else◌,
}
use zmey.JsMap
use zmey.JsMap.{JsMap}
use zmey.Types.{Pipeline, PipelineTask, TaskTemplate, Event, Task}
use zmey.Client.{Client}
use zmey.Store.Tasks
use zmey.Store.Tasks.{TaskStore}
use zmey.ServerApi.{Answer, Called, on_success, on_error, json_then}

-- The loops of `componentDidMount`: an object for each id, the last one that was sent. The
-- settings are parsed already; App/Receive has the parsing.
unfoldable pub fill {ℓ} : {A : Type ℓ} → (A → ℕ) → List A → JsMap A → JsMap A
fill id_of [] m = m
fill id_of (a ∷ rest) m = fill id_of rest (JsMap.set (id_of a) a m)

unfoldable pub pipelines_received : List Pipeline → Client → Client
unfolding fill
pipelines_received ps c = record c { pipelines = fill (λ p. p.id) ps [] }

unfoldable pub task_templates_received : List TaskTemplate → Client → Client
unfolding fill
task_templates_received ts c = record c { task_templates = fill (λ t. t.id) ts [] }

unfoldable pub pipeline_tasks_received : List PipelineTask → Client → Client
unfolding fill
pipeline_tasks_received ts c = record c { pipeline_tasks = fill (λ t. t.id) ts [] }

unfoldable pub events_received : List Event → Client → Client
unfolding fill
events_received es c = record c { events = fill (λ e. e.id) es [] }

-- The polling: `m_pplTaskId`, whether a timeout of one second is set, and the store of the runs.
pub record Poller : Type 0 where
  pub ppl_task_id : ℕ
  pub scheduled : Bool
  pub store : TaskStore

-- `getTaskState(pplTaskId, ifChange, …)`
pub record Query : Type 0 where
  pub ppl_task_id : ℕ
  pub if_change : Bool

-- The first task that is selected and is not being moved, or 0.
unfoldable pub polled_id : List PipelineTask → ℕ
polled_id [] = 0
polled_id (t ∷ ts) = if t.setts.is_selected && not t.setts.is_moved then t.id else polled_id ts

-- `updateTaskState` up to the request, if it makes one.
pub record Polled : Type 0 where
  pub poller : Poller
  pub query : Option Query

unfoldable pub update_task_state : JsMap PipelineTask → Poller → Polled
unfolding polled_id
update_task_state tasks p =
    let id = polled_id (JsMap.values tasks) in
    if id == 0 then record { poller = record p { scheduled = true }; query = none } else record {
      poller = record p { ppl_task_id = id; scheduled = false };
      query = some (record { ppl_task_id = id; if_change = id == p.ppl_task_id });
    }

abbrev pub is_empty : List Task → Bool
is_empty [] = true
is_empty (t ∷ ts) = false

-- The answer to a query. An empty answer to a query for changes leaves the store alone.
unfoldable pub answered : Query → Answer (List Task) → Poller → Poller
unfolding json_then
answered q answer p = elim (json_then answer) [
  | on_error ↦ record p { scheduled = true }
  | on_success states ↦
      if not (is_empty states) || not q.if_change
      then record p {
        scheduled = true;
        store = Tasks.set_all states (Tasks.set_ppl_task_id q.ppl_task_id p.store);
      }
      else record p { scheduled = true }
]
