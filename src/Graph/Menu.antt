-- ===== src/Graph/Menu.antt =====
-- web/client/graph/graph_task_context_menu.tsx: the context menu of a task on the panel.
use zmey.Base.{ℕ, ◌==◌, false, Option, none, some, List, if◌then◌else◌}
use zmey.JsArray.{find_index, element}
use zmey.Store.PipelineTasks
use zmey.Store.Connections.{drop_next, drop_prev, del_all_connections}
use zmey.Types.{PipelineTask}
use zmey.Client.{Client, Outcome, returns, throws, send, change_pipeline_task, start_task, ◌>>=◌}
use zmey.Graph.Panel.{upd_and_send}

-- The task is started only if it is enabled. `starterEventId` is 0.
unfoldable pub start : ℕ → Client → Outcome
start props_id c = elim (PipelineTasks.get props_id c.pipeline_tasks) [
  | none ↦ throws c
  | some pplt ↦
      if pplt.is_enabled
      then returns (send (start_task props_id props_id 0 pplt.tt_id pplt.params) c)
      else returns c
]

-- `PipelineTasks.get(ids[inx])`, where the index may be -1.
abbrev pub get_at : Option ℕ → List ℕ → Client → Option PipelineTask
get_at inx ids c = elim (element inx ids) [
  | none ↦ none
  | some id ↦ PipelineTasks.get id c.pipeline_tasks
]

-- `ppt` is a local copy of the menu's task, `nextTask` one of the task at the other end, read
-- before the first change.
unfoldable pub delete_next_connect : ℕ → ℕ → Client → Outcome
delete_next_connect props_id id c = elim (PipelineTasks.get props_id c.pipeline_tasks) [
  | none ↦ throws c
  | some ppt ↦
      let next_task = get_at (find_index id ppt.next_tasks_id) ppt.next_tasks_id c in
      let ppt' = drop_next id ppt in
      let c' = upd_and_send ppt' c in
      elim next_task [
        | none ↦ throws c'
        | some t ↦ returns (
            if t.id == props_id
            then upd_and_send (drop_prev props_id ppt') c'
            else upd_and_send (drop_prev props_id t) c')
      ]
]

unfoldable pub delete_prev_connect : ℕ → ℕ → Client → Outcome
delete_prev_connect props_id id c = elim (PipelineTasks.get props_id c.pipeline_tasks) [
  | none ↦ throws c
  | some ppt ↦
      let prev_task = get_at (find_index id ppt.prev_tasks_id) ppt.prev_tasks_id c in
      let ppt' = drop_prev id ppt in
      let c' = upd_and_send ppt' c in
      elim prev_task [
        | none ↦ throws c'
        | some t ↦ returns (
            if t.id == props_id
            then upd_and_send (drop_next props_id ppt') c'
            else upd_and_send (drop_next props_id t) c')
      ]
]

unfoldable pub delete_task_from_map : ℕ → Client → Outcome
delete_task_from_map props_id c = del_all_connections props_id c >>= λ c'.
    let c₂ = record c' {
      pipeline_tasks = PipelineTasks.set_visible props_id false c'.pipeline_tasks;
    } in
    elim (PipelineTasks.get props_id c₂.pipeline_tasks) [
      | none ↦ throws c₂
      | some t ↦ returns (send (change_pipeline_task t) c₂)
    ]
