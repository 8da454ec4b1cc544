-- ===== src/Tests/Panel.antt =====
-- The theorems on selecting pipelines and tasks, at concrete stores.
use zmey.Base.{false, not, ◌&&◌, ℕ, pos, ◌≡◌, refl, true, ◌||◌, ◌==◌, [], ◌∷◌, arith, some}
use zmey.JsMap
use zmey.Client.{Client, returns, change_pipeline_task}
use zmey.Store.Laws.{task_selected}
use zmey.Graph.Panel.{input}
use zmey.Graph.Handlers.{Panel, auto_cursor, select_task, h_task_select}
use zmey.Graph.Selection
use zmey.Graph.Selection.{h_task_select-alone, select_task-sends_old}
use zmey.Central.{select_pipeline, hide_pipeline}
use zmey.Central.Hide.{hide_pipeline-hidden}
use zmey.Central.Select
use zmey.Central.Select.{select_pipeline-alone}
use zmey.Store.Ordered.{IsStore}
use zmey.Tests.Data.{client, pipelines, task_2, tasks-IsKeyed, tasks-IsMap}

abbrev panel : Panel
panel = record {
  captured_id = 0;
  captured_type = input;
  context_menu_task_id = 0;
  mouse_cursor = auto_cursor;
  mouse_start_mem = record { x = pos 0; y = pos 0 };
  ppl_id = 1;
  ppl_task_id = 0;
  task_count_mem = 0;
  scroll = record { x = pos 0; y = pos 0 };
}

h_task_select-alone_example :
    (c' : Client) × ((h_task_select 2 panel client).outcome ≡ returns c')
    × ((k : ℕ) → Selection.is_selected k c'.pipeline_tasks ≡ (2 == k))
unfolding JsMap.has
h_task_select-alone_example = h_task_select-alone 2 panel client tasks-IsMap tasks-IsKeyed refl

select_task-sends_old_example :
    (c' : Client) × (select_task 2 client ≡ returns c')
    × (c'.sent ≡ change_pipeline_task task_2 ∷ [])
    × (JsMap.get 2 c'.pipeline_tasks ≡ some (task_selected true task_2))
unfolding JsMap.get
select_task-sends_old_example = select_task-sends_old 2 client task_2 tasks-IsKeyed refl refl

pipelines-IsStore : IsStore pipelines
unfolding JsMap.get JsMap.has
pipelines-IsStore = record { is_map = (refl, (refl, tt)); keyed = λ k p e. ground arith }

select_pipeline-alone_example :
    (c' : Client) × (select_pipeline 2 client ≡ returns c')
    × ((k : ℕ) → Select.is_selected k c'.pipelines ≡ (2 == k))
    × ((k : ℕ) → Select.is_visible k c'.pipelines ≡ (Select.is_visible k pipelines || 2 == k))
unfolding JsMap.has
select_pipeline-alone_example = select_pipeline-alone 2 client pipelines-IsStore refl

hide_pipeline-hidden_example :
    (c' : Client) × (hide_pipeline 1 client ≡ returns c')
    × (Select.is_selected 1 c'.pipelines ≡ false)
    × ((k : ℕ) → Select.is_visible k c'.pipelines ≡ (Select.is_visible k pipelines && not (1 == k)))
unfolding JsMap.has
hide_pipeline-hidden_example = hide_pipeline-hidden 1 client pipelines-IsStore.keyed refl
