-- ===== src/Store/Connections.antt =====
-- `delAllConnections` of web/client/store/store_pipeline_task.tsx. The tasks that it changes are
-- the objects in the Map, so each step reads the Map anew: a task connected to itself is both
-- the task and its neighbour.
pub mod Detach
use zmey.Base.{ℕ, List, [], ◌∷◌, Option, none, some}
use zmey.JsMap
use zmey.JsArray.{find_index, splice}
use zmey.Types.{PipelineTask}
use zmey.Client.{Client, Outcome, returns, throws, send, change_pipeline_task, ◌>>=◌}

-- `m_pipelineTasks.set(id, ppt); ServerAPI.changePipelineTask(ppt)`
abbrev pub store_and_send : ℕ → PipelineTask → Client → Client
store_and_send id ppt c =
    send (change_pipeline_task ppt)
      (record c { pipeline_tasks = JsMap.set id ppt c.pipeline_tasks })

abbrev pub drop_prev : ℕ → PipelineTask → PipelineTask
drop_prev id t = record t { prev_tasks_id = splice (find_index id t.prev_tasks_id) t.prev_tasks_id }

abbrev pub drop_next : ℕ → PipelineTask → PipelineTask
drop_next id t =
    let inx = find_index id t.next_tasks_id in
    record t {
      next_tasks_id = splice inx t.next_tasks_id;
      is_start_next = splice inx t.is_start_next;
    }

-- The first `forEach`, over the next tasks.
unfoldable pub detach_next : ℕ → List ℕ → Client → Outcome
detach_next id [] c = returns c
detach_next id (nid ∷ nids) c = elim (JsMap.get nid c.pipeline_tasks) [
  | none ↦ throws c
  | some next_task ↦ detach_next id nids (store_and_send nid (drop_prev id next_task) c)
]

-- The second, over the previous tasks.
unfoldable pub detach_prev : ℕ → List ℕ → Client → Outcome
detach_prev id [] c = returns c
detach_prev id (pid ∷ pids) c = elim (JsMap.get pid c.pipeline_tasks) [
  | none ↦ throws c
  | some prev_task ↦ detach_prev id pids (store_and_send pid (drop_next id prev_task) c)
]

-- The object `ppt` of the source is the one in the Map under `id`.
abbrev modify : ℕ → (PipelineTask → PipelineTask) → Client → Client
modify id f c = elim (JsMap.get id c.pipeline_tasks) [
  | none ↦ c
  | some ppt ↦ record c { pipeline_tasks = JsMap.set id (f ppt) c.pipeline_tasks }
]

abbrev prev_ids : ℕ → Client → List ℕ
prev_ids id c = elim (JsMap.get id c.pipeline_tasks) [ none ↦ [] | some ppt ↦ ppt.prev_tasks_id ]

-- The statements from `ppt.nextTasksId = []` on.
unfoldable pub clear_connections : ℕ → Client → Outcome
clear_connections id c =
    let c₁ = modify id (λ t. record t { next_tasks_id = [] }) c in
    detach_prev id (prev_ids id c₁) c₁ >>= λ c₂. elim (JsMap.get id c₂.pipeline_tasks) [
      | none ↦ returns c₂
      | some ppt ↦ returns (store_and_send id (record ppt { prev_tasks_id = [] }) c₂)
    ]

unfoldable pub del_all_connections : ℕ → Client → Outcome
unfolding clear_connections
del_all_connections id c = elim (JsMap.get id c.pipeline_tasks) [
  | none ↦ returns c
  | some ppt ↦ detach_next id ppt.next_tasks_id c >>= clear_connections id
]
