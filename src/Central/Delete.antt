-- ===== src/Central/Delete.antt =====
-- `delPipelineTask` of web/client/central_widget/central_widget.tsx: what the server's consent
-- does to the connections.
use zmey.Base.{ℕ, ◌≡◌, true, not, ◌&&◌, none, arith, ◌==◌, if◌then◌else◌}
use zmey.JsArray.{includes}
use zmey.JsMap
use zmey.JsMap.{JsMap}
use zmey.Store.Refine.{get-del_shared}
use zmey.Types.{PipelineTask}
use zmey.Client.{Client, returns}
use zmey.Store.PipelineTasks
use zmey.Graph.Links.{Linked, has_next, has_prev}
use zmey.Graph.Isolate.{del_all_connections-Linked}
use zmey.Central.{del_pipeline_task_success}

pub get-del :
    (id k : ℕ) (m : JsMap PipelineTask)
    → JsMap.get k (PipelineTasks.del id m) ≡ (if id == k then none else JsMap.get k m)
unfolding PipelineTasks.del
get-del id k m = get-del_shared id k m

-- Deleting a task that has no connections.
module _ (id : ℕ) (m : JsMap PipelineTask) where
  has_next-del :
      (a b : ℕ) → has_next a b (PipelineTasks.del id m) ≡ (has_next a b m && not (id == a))
  unfolding includes
  has_next-del a b = ground (arith, get-del id a m)

  has_prev-del :
      (a b : ℕ) → has_prev b a (PipelineTasks.del id m) ≡ (has_prev b a m && not (id == b))
  unfolding includes
  has_prev-del a b = ground (arith, get-del id b m)

  pub Linked-del :
      Linked m
      → ((a b : ℕ) → has_next a b m ≡ (has_next a b m && (not (id == a) && not (id == b))))
      → Linked (PipelineTasks.del id m)
  Linked-del linked alone = record {
    symmetric =
        λ a b. ground (arith, has_next-del a b, has_prev-del a b, linked.symmetric a b, alone a b);
    next_distinct = λ a. ground (arith, get-del id a m, linked.next_distinct a);
    prev_distinct = λ b. ground (arith, get-del id b m, linked.prev_distinct b);
  }

-- Once the server has deleted a stored task from a consistent store, the handler of
-- `delPipelineTask` returns, the task is gone, the store is consistent, and the connections
-- left are those that did not touch the task.
pub del_pipeline_task_success-Linked :
    (sel : PipelineTask) (c : Client)
    → Linked c.pipeline_tasks
    → JsMap.has sel.id c.pipeline_tasks ≡ true
    → (c' : Client) × (del_pipeline_task_success sel c ≡ returns c')
      × (JsMap.get sel.id c'.pipeline_tasks ≡ none)
      × Linked c'.pipeline_tasks
      × ((a b : ℕ)
          → has_next a b c'.pipeline_tasks
            ≡ (has_next a b c.pipeline_tasks && (not (sel.id == a) && not (sel.id == b))))
unfolding del_pipeline_task_success
del_pipeline_task_success-Linked sel c linked h =
    let (c₁, run, linked₁, edges) = del_all_connections-Linked c sel.id linked h in
    let m₁ = c₁.pipeline_tasks in
    (
      record c₁ { pipeline_tasks = PipelineTasks.del sel.id m₁ },
      ground (arith, run),
      ground (arith, get-del sel.id sel.id m₁),
      Linked-del sel.id m₁ linked₁ (λ a b. ground (arith, edges a b)),
      λ a b. ground (arith, has_next-del sel.id m₁ a b, edges a b),
    )
