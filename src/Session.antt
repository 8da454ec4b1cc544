-- ===== src/Session.antt =====
-- What a user and the server's answers do to the tasks on the panel, one handler after the other:
-- the events of web/client/graph, the double click and the deletion in
-- web/client/central_widget/central_widget.tsx, and the dialog of pipeline_task_dialog.tsx there.
pub mod Moves
pub mod Selects
pub mod Edits
pub mod Answers
pub mod Run
pub mod Race
pub mod Tabs
pub mod Pipelines
pub mod TabStore
pub mod PipelineRun
use zmey.Base.{ℕ, ◌≡◌, ◌≢◌, Bool, true, false, List, []}
use zmey.JsArray.{includes}
use zmey.JsMap
use zmey.JsMap.{JsMap}
use zmey.Types.{Point, PipelineTask}
use zmey.Client.{Client, Outcome, returns}
use zmey.Central.{double_click_task, del_pipeline_task_success}
use zmey.Dialog.{Dialog}
use zmey.Dialog.TaskForm
use zmey.Dialog.TaskRows.{switch_task}
use zmey.Dialog.TaskForm.{Form}
use zmey.Graph.Panel.{SocketType}
use zmey.Graph.Handlers.{Panel, Step, h_mouse_up, h_mouse_down, h_mouse_move, menu_handler, h_hide}
use zmey.Graph.Socket.{Dom, component_did_mount, on_drag, on_stop, on_socket_down, on_body_down}
use zmey.Graph.Menu
use zmey.Graph.Links.{has_next, has_prev, next_of, prev_of}
use zmey.Graph.Drop.{hits}

pub record State : Type 0 where
  pub panel : Panel
  pub client : Client

-- The last five are the answer to a deletion, the dialog's button, the answers to it, and the dialog's
-- switch. The session begins when the stores have been filled.
pub data Action : Type 0 where
  mouse_up : Point → Action
  mouse_down : ℕ → Action
  mouse_move : ℕ → Point → Action
  socket_down : SocketType → ℕ → PipelineTask → Dom → Action
  body_down : ℕ → ℕ → Action
  mounted : ℕ → Dom → Action
  dragged : ℕ → Point → Dom → Action
  dropped : ℕ → Point → Action
  hidden : ℕ → Action
  run_task : ℕ → Action
  next_deleted : ℕ → ℕ → Action
  prev_deleted : ℕ → ℕ → Action
  off_map : ℕ → Action
  clicked_twice : ℕ → Action
  task_deleted : PipelineTask → Action
  submitted : PipelineTask → Form → Dialog → Action
  task_added : PipelineTask → Dialog → Action
  task_changed : PipelineTask → Dialog → Action
  switched : Bool → PipelineTask → Action

-- A handler outside the panel's own state.
abbrev pub beside : Panel → Outcome → Step
beside p o = record { panel = p; outcome = o }

unfoldable pub act : Action → Panel → Client → Step
act (mouse_up mpos) p c = h_mouse_up mpos p c
act (mouse_down which) p c = beside (h_mouse_down which p) (returns c)
act (mouse_move which movement) p c = h_mouse_move which movement p c
act (socket_down type id t dom) p c = on_socket_down type id t dom p c
act (body_down button id) p c = on_body_down button id p c
act (mounted id dom) p c = beside p (component_did_mount id dom c)
act (dragged id to dom) p c = beside p (on_drag id to dom p c)
act (dropped id to) p c = beside p (on_stop id to c)
act (hidden id) p c = beside p (h_hide id c)
act (run_task id) p c = menu_handler (Menu.start id c) p
act (next_deleted props_id id) p c = menu_handler (Menu.delete_next_connect props_id id c) p
act (prev_deleted props_id id) p c = menu_handler (Menu.delete_prev_connect props_id id c) p
act (off_map id) p c = menu_handler (Menu.delete_task_from_map id c) p
act (clicked_twice id) p c = beside p (double_click_task id c)
act (task_deleted sel) p c = beside p (del_pipeline_task_success sel c)
act (submitted sel f d) p c = beside p (TaskForm.h_submit sel f d c).outcome
act (task_added resp d) p c = beside p (TaskForm.add_success resp d c).outcome
act (task_changed resp d) p c = beside p (TaskForm.change_success resp d c).outcome
act (switched on sel) p c = beside p (returns ((switch_task on sel c).1))

-- When an event comes about: the page shows a handler only for a task and a connection that are
-- there, the task of a captured socket is still stored, and the socket is not dropped on its own task,
-- the edited task is stored, a created task has an id and no connections, and the task in an answer to
-- an edit, like the copy that the switch stores, has the connections that are stored. Session/Race is
-- about an answer that has others.
abbrev pub Enabled : Action → Panel → Client → Type 0
Enabled (mouse_up mpos) p c =
    p.captured_id ≢ 0
    → (JsMap.has p.captured_id c.pipeline_tasks ≡ true)
      × (includes p.captured_id (hits mpos p c) ≡ false)
Enabled (mouse_down which) p c = Unit {0}
Enabled (mouse_move which movement) p c = Unit {0}
Enabled (socket_down type id t dom) p c = Unit {0}
Enabled (body_down button id) p c = JsMap.has id c.pipeline_tasks ≡ true
Enabled (mounted id dom) p c = JsMap.has id c.pipeline_tasks ≡ true
Enabled (dragged id to dom) p c = Unit {0}
Enabled (dropped id to) p c = JsMap.has id c.pipeline_tasks ≡ true
Enabled (hidden id) p c = JsMap.has id c.pipeline_tasks ≡ true
Enabled (run_task id) p c = JsMap.has id c.pipeline_tasks ≡ true
Enabled (next_deleted props_id id) p c = has_next props_id id c.pipeline_tasks ≡ true
Enabled (prev_deleted props_id id) p c = has_prev props_id id c.pipeline_tasks ≡ true
Enabled (off_map id) p c = JsMap.has id c.pipeline_tasks ≡ true
Enabled (clicked_twice id) p c = JsMap.has id c.pipeline_tasks ≡ true
Enabled (task_deleted sel) p c = JsMap.has sel.id c.pipeline_tasks ≡ true
Enabled (submitted sel f d) p c = sel.id ≢ 0 → JsMap.has sel.id c.pipeline_tasks ≡ true
Enabled (task_added resp d) p c =
    (resp.id ≢ 0) × (resp.next_tasks_id ≡ []) × (resp.prev_tasks_id ≡ [])
Enabled (task_changed resp d) p c =
    (next_of resp.id c.pipeline_tasks ≡ resp.next_tasks_id)
    × (prev_of resp.id c.pipeline_tasks ≡ resp.prev_tasks_id)
Enabled (switched on sel) p c =
    (next_of sel.id c.pipeline_tasks ≡ sel.next_tasks_id)
    × (prev_of sel.id c.pipeline_tasks ≡ sel.prev_tasks_id)

-- The states that are reached from `s` by handlers that return.
pub data Reached (s : State) : State → Type 0 where
  begin : Reached s s
  after :
      {u : State} (a : Action) (p : Panel) (c : Client)
      → Reached s u
      → Enabled a u.panel u.client
      → act a u.panel u.client ≡ record { panel = p; outcome = returns c }
      → Reached s (record { panel = p; client = c })
