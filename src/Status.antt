-- ===== src/Status.antt =====
-- web/client/task_status_widget/task_status_widget.tsx: the table of the runs of a pipeline task,
-- and task_status_context_menu.tsx beside it.
pub mod Rows
pub mod Menu
pub mod Cells
use zmey.Base.{
  ℕ, zero, suc, ◌==◌, not, ◌&&◌, ◌||◌, Bool, true, false, Option, none, some, List, [], ◌∷◌, String,
  if◌then◌else◌, length,
}
use zmey.JsMap.{JsMap}
use zmey.Store.PipelineTasks
use zmey.Store.Events
use zmey.Store.Tasks
use zmey.Store.Tasks.{TaskStore}
use zmey.Types.{Task, PipelineTask, Event, state_number, running, completed, pause, StateType}

-- The three check boxes.
pub record Filter : Type 0 where
  pub only_running : Bool
  pub only_completed : Bool
  pub only_error : Bool

-- A row: the run's id, the name of what started it, and the run, from which the other cells come.
pub record Row : Type 0 where
  pub id : ℕ
  pub starter_name : String
  pub task : Task

-- `m_tasks` and `m_tasksWidget`.
pub record Widget : Type 0 where
  pub tasks : List Task
  pub rows : List Row

-- The loop that looks for a difference between lists of one length.
unfoldable pub differs : List Task → List Task → Bool
differs [] olds = false
differs (n ∷ ns) [] = false
differs (n ∷ ns) (o ∷ os) = if not (Tasks.is_equal n o) then true else differs ns os

unfoldable pub has_new : List Task → List Task → Bool
unfolding differs
has_new news olds = if not (length news == length olds) then true else differs news olds

-- The `continue`s of the loop over the runs.
unfoldable pub is_shown : Filter → Task → Bool
is_shown f t =
    if f.only_running && not (t.state == state_number running)
    then false
    else if f.only_completed && not (t.state == state_number completed)
    then false
    else if f.only_error && not (t.state == state_number StateType.error)
    then false
    else true

-- The name of the starting task, or of the starting event; `none` is the TypeError of a run whose
-- starter is gone.
unfoldable pub starter_name : Task → JsMap PipelineTask → JsMap Event → Option String
starter_name t tasks events = elim (PipelineTasks.get t.starter_ppl_task_id tasks) [
  | some starter ↦ some starter.name
  | none ↦ elim (Events.get t.starter_event_id events) [ none ↦ none | some e ↦ some e.name ]
]

unfoldable pub rows_of : Filter → List Task → JsMap PipelineTask → JsMap Event → Option (List Row)
unfolding is_shown starter_name
rows_of f [] tasks events = some []
rows_of f (t ∷ ts) tasks events =
    let rest = rows_of f ts tasks events in
    if is_shown f t
    then elim (starter_name t tasks events) [
      | none ↦ none
      | some name ↦ elim rest [
        | none ↦ none
        | some rows ↦ some (record { id = t.id; starter_name = name; task = t } ∷ rows)
      ]
    ]
    else rest

-- One rendering of `TasksRet`; `filter_changed` is `m_hasFilterCheckbox`.
unfoldable pub render_rows :
    Filter → Bool → TaskStore → JsMap PipelineTask → JsMap Event → Widget → Option Widget
unfolding has_new rows_of
render_rows f filter_changed store tasks events w =
    let is_new = has_new store.tasks w.tasks in
    let kept = if is_new then store.tasks else w.tasks in
    if is_new || filter_changed
    then elim (rows_of f store.tasks tasks events) [
      | none ↦ none
      | some rows ↦ some (record { tasks = kept; rows = rows })
    ]
    else some (record { tasks = kept; rows = w.rows })

-- The menu of a run: its first button, if the menu is shown.
pub data MenuButton : Type 0 where
  pause_button continue_button : MenuButton

unfoldable pub menu_button : ℕ → TaskStore → Option MenuButton
menu_button id s = elim (Tasks.get id s) [
  | none ↦ none
  | some t ↦
      if t.state == state_number running || t.state == state_number pause
      then some (if not (t.state == state_number pause) then pause_button else continue_button)
      else none
]
