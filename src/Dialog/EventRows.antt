-- ===== src/Dialog/EventRows.antt =====
-- What the event dialog in web/client/central_widget/event_dialog.tsx shows: the choice of tasks, and
-- the list of the tasks that the event starts.
use zmey.Base.{
  ℕ, ◌≡◌, ◌==◌, Bool, true, Option, none, some, List, [], ◌∷◌, String, if◌then◌else◌, arith, ap,
  inl, inr, Bool-cases,
}
use zmey.JsArray.{includes}
use zmey.JsMap
use zmey.JsMap.{JsMap}
use zmey.Types.{Pipeline, PipelineTask, Event}
use zmey.Store.Pipelines
use zmey.Store.PipelineTasks
use zmey.Store.Events
use zmey.Store.Laws.{get-task}
use zmey.Client.{Client, returns, send, change_event}
use zmey.Graph.Links.{Linked}
use zmey.Central.{del_pipeline_task_success}
use zmey.Central.Delete.{del_pipeline_task_success-Linked}

-- `hShow`: the event's list, unless it has none.
unfoldable pub h_show : Option (List ℕ) → List ℕ → List ℕ
h_show none tasks = tasks
h_show (some own) tasks = own

-- The pipeline whose tasks are offered: the first of the Map until one is chosen.
unfoldable pub offered_pipeline : ℕ → JsMap Pipeline → ℕ
offered_pipeline sel [] = sel
offered_pipeline sel ((k, p) ∷ m) = if sel == 0 then k else sel

-- The ids and names of the options.
abbrev pub options_of : List PipelineTask → List (ℕ × String)
options_of [] = []
options_of (t ∷ ts) = (t.id, t.name) ∷ options_of ts

unfoldable pub offered_tasks : ℕ → JsMap Pipeline → JsMap PipelineTask → List (ℕ × String)
unfolding offered_pipeline
offered_tasks sel ppls tasks =
    options_of (PipelineTasks.get_by_ppl_id (offered_pipeline sel ppls) tasks)

-- A row of the list: the names of the pipeline and the task, and the id that its button deletes.
pub record Row : Type 0 where
  pub pipeline_name : String
  pub task_name : String
  pub task_id : ℕ

-- `none` is the TypeError of a task that is not stored. A task of a pipeline that is not stored has
-- no row.
unfoldable pub event_rows : List ℕ → JsMap Pipeline → JsMap PipelineTask → Option (List Row)
event_rows [] ppls tasks = some []
event_rows (v ∷ vs) ppls tasks = elim (PipelineTasks.get v tasks) [
  | none ↦ none
  | some t ↦ elim (event_rows vs ppls tasks) [
    | none ↦ none
    | some rows ↦ elim (Pipelines.get t.ppl_id ppls) [
      | none ↦ some rows
      | some p ↦ some (record { pipeline_name = p.name; task_name = t.name; task_id = t.id } ∷ rows)
    ]
  ]
]

-- The switch writes into the selected event, stores it and sends it: the event and the client after.
unfoldable pub switch_event : Bool → Event → Client → Event × Client
switch_event on evt c =
    let evt' = record evt { is_enabled = on } in
    (evt', send (change_event evt') (record c { events = Events.upd evt' c.events }))

event_rows-none :
    (id : ℕ) (vs : List ℕ) (ppls : JsMap Pipeline) (tasks : JsMap PipelineTask)
    → includes id vs ≡ true
    → JsMap.get id tasks ≡ none
    → event_rows vs ppls tasks ≡ none
unfolding event_rows includes
event_rows-none id [] ppls tasks h e = cc
event_rows-none id (v ∷ vs) ppls tasks h e = elim (Bool-cases (id == v)) [
  | inl same ↦ ground (arith, get-task v tasks, e, ap (λ (j : ℕ). JsMap.get j tasks))
  | inr other ↦ ground (arith, event_rows-none id vs ppls tasks)
]

-- Once a stored task that an event lists has been deleted from a consistent store, drawing
-- the list of the tasks that the event starts throws.
pub event_rows-deleted :
    (evt : Event) (t : PipelineTask) (c : Client)
    → Linked c.pipeline_tasks
    → JsMap.has t.id c.pipeline_tasks ≡ true
    → includes t.id evt.tasks_for_start ≡ true
    → (c' : Client) × (del_pipeline_task_success t c ≡ returns c')
      × (event_rows evt.tasks_for_start c'.pipelines c'.pipeline_tasks ≡ none)
event_rows-deleted evt t c linked h listed =
    let (c', run, gone, linked', edges) = del_pipeline_task_success-Linked t c linked h in
    (c', run, event_rows-none t.id evt.tasks_for_start c'.pipelines c'.pipeline_tasks listed gone)
