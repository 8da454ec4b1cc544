-- ===== src/Graph/OffMap.antt =====
-- `deleteTaskFromMap` of web/client/graph/graph_task_context_menu.tsx.
use zmey.Base.{ℕ, ◌≡◌, false, not, ◌&&◌, some, arith, ◌==◌}
use zmey.JsMap
use zmey.JsMap.{JsMap, changed}
use zmey.Types.{PipelineTask}
use zmey.Client.{Client, returns, send, change_pipeline_task}
use zmey.Store.PipelineTasks
use zmey.Store.Laws.{get-task}
use zmey.Store.Connections.Detach.{isolated, del_all_connections_lem}
use zmey.Graph.Links.{
  Linked, IsKeyed, has_next, next-Distinct_at, prev-Distinct_at, next_stored, prev_stored,
}
use zmey.Graph.Settings.{with_setts, shown, set_visible-Resets, Linked-Resets, has_next-Resets}
use zmey.Graph.Isolate.{IsKeyed-isolate, Linked-isolate, has_next-isolate}
use zmey.Graph.Menu.{delete_task_from_map}

-- On a consistent store with the tasks under their own ids, `deleteTaskFromMap` of a stored
-- task returns; the task is then stored as it was, but invisible and with no next and no
-- previous tasks, the store is consistent, and the connections left are those that did not
-- touch the task.
pub delete_task_from_map-Linked :
    (props_id : ℕ) (t : PipelineTask) (c : Client)
    → Linked c.pipeline_tasks
    → IsKeyed c.pipeline_tasks
    → JsMap.get props_id c.pipeline_tasks ≡ some t
    → (c' : Client) × (delete_task_from_map props_id c ≡ returns c')
      × (JsMap.get props_id c'.pipeline_tasks ≡ some (with_setts (shown false) (isolated t)))
      × Linked c'.pipeline_tasks
      × ((a b : ℕ)
          → has_next a b c'.pipeline_tasks
            ≡ (has_next a b c.pipeline_tasks && (not (props_id == a) && not (props_id == b))))
unfolding delete_task_from_map
delete_task_from_map-Linked id t c linked keyed e =
    let m = c.pipeline_tasks in
    let (c₁, run, spec) =
      del_all_connections_lem id t c e (next-Distinct_at linked id t e)
        (prev-Distinct_at linked id t e) (λ n. next_stored linked id t n e)
        (λ n. prev_stored linked id t n e) (ground (arith, linked.symmetric id id)) in
    let m₁ = c₁.pipeline_tasks in
    let keyed₁ = IsKeyed-isolate m m₁ linked id t e spec keyed in
    let m₂ = PipelineTasks.set_visible id false m₁ in
    let resets = set_visible-Resets id m₁ keyed₁ false in
    let at : JsMap.get id m₂ ≡ some (with_setts (shown false) (isolated t)) =
      ground (arith, resets id, spec id) in
    (
      send (change_pipeline_task (with_setts (shown false) (isolated t)))
          (record c₁ { pipeline_tasks = m₂ }),
      ground (arith, run, get-task id m₂),
      at,
      Linked-Resets id (shown false) m₁ m₂ resets (Linked-isolate m m₁ linked id t e spec),
      λ a b. ground (
        arith,
        has_next-Resets id (shown false) m₁ m₂ resets a b,
        has_next-isolate m m₁ linked id t e spec a b,
      ),
    )
