-- ===== src/Tests/View.antt =====
-- The theorems on what the panel shows and on dragging, at concrete inputs.
use zmey.Base.{ℕ, ◌+ℤ◌, ◌≡◌, refl, pos, true, some, [], ◌∷◌, length, arith}
use zmey.JsMap
use zmey.Types.{PipelineTask, Point}
use zmey.Client.{Client, returns, change_pipeline_task, ◌>>=◌}
use zmey.Store.PipelineTasks
use zmey.Central.{get_selected_pipeline_id}
use zmey.Store.Ordered.{IsStore}
use zmey.Graph.Panel.{input, is_pnt_into_rect}
use zmey.Graph.Links.{Linked, has_next}
use zmey.Graph.Settings.{with_setts}
use zmey.Graph.Socket.{Dom, Element, on_drag, on_stop, set_task_sockets}
use zmey.Graph.Places.{IsLaidOut, dropped_at, set_task_sockets-into, on_drag-on_stop}
use zmey.Graph.Handlers.{Panel, auto_cursor}
use zmey.Graph.View.{TaskMenu, render_tasks, render_menu}
use zmey.Graph.Settle.{render_tasks-settles}
use zmey.Graph.Names.{AreNamed, render_menu-names}
use zmey.Tests.Data.{client, pipelines, tasks, task_1, tasks-IsKeyed, tasks-IsMap, tasks-Linked}

-- Nothing was shown yet.
abbrev panel : Panel
panel = record {
  captured_id = 0;
  captured_type = input;
  context_menu_task_id = 0;
  mouse_cursor = auto_cursor;
  mouse_start_mem = record { x = pos 0; y = pos 0 };
  ppl_id = 0;
  ppl_task_id = 0;
  task_count_mem = 0;
  scroll = record { x = pos 0; y = pos 0 };
}

abbrev at : ℕ → ℕ → Point
at x y = record { x = pos x; y = pos y }

abbrev element : ℕ → ℕ → ℕ → ℕ → Element
element left top width half_height = record {
  left = pos left;
  top = pos top;
  width = pos width;
  half_height = pos half_height;
}

abbrev dom : Dom
dom = record {
  parent = element 0 0 200 40;
  input = element 0 30 20 10;
  output = element 180 30 20 10;
}

dom-IsLaidOut : IsLaidOut dom
unfolding ◌+ℤ◌
dom-IsLaidOut = record {
  wide = omega arith;
  high = omega arith;
  high_output = omega arith;
  alike = omega arith;
}

pipelines-IsStore : IsStore pipelines
unfolding JsMap.get JsMap.has
pipelines-IsStore = record { is_map = (refl, (refl, tt)); keyed = λ k p e. ground arith }

render_tasks-settles_example :
    (p' : Panel) × (c' : Client) × (render_tasks (at 400 300) panel client
      ≡ record { panel = p'; outcome = returns c' })
    × (p'.ppl_id ≡ get_selected_pipeline_id client)
    × (p'.task_count_mem ≡ length (PipelineTasks.get_by_ppl_id p'.ppl_id tasks))
    × (c'.pipeline_tasks ≡ tasks)
    × (render_tasks (at 400 300) p' c' ≡ record { panel = p'; outcome = returns c' })
render_tasks-settles_example =
    render_tasks-settles (at 400 300) panel client pipelines-IsStore tasks-IsMap tasks-Linked

render_menu-names_example :
    (menu : TaskMenu) × (render_menu 1 tasks ≡ some (some menu))
    × (menu.can_start ≡ true)
    × AreNamed tasks (2 ∷ []) menu.next_names
    × AreNamed tasks [] menu.prev_names
unfolding JsMap.get
render_menu-names_example = render_menu-names 1 task_1 tasks tasks-Linked refl

set_task_sockets-into_example :
    (t' : PipelineTask) × (JsMap.get 1 (set_task_sockets 1 (at 50 60) dom client).pipeline_tasks
      ≡ some t')
    × (is_pnt_into_rect t'.setts.socket_in_point t'.setts.socket_in_rect ≡ true)
    × (is_pnt_into_rect t'.setts.socket_out_point t'.setts.socket_out_rect ≡ true)
unfolding JsMap.get
set_task_sockets-into_example =
    set_task_sockets-into 1 (at 50 60) dom client task_1 tasks-IsKeyed refl dom-IsLaidOut

abbrev dropped : PipelineTask
dropped = with_setts (dropped_at (at 50 60) dom) task_1

on_drag-on_stop_example :
    (c' : Client) × ((on_drag 1 (at 50 60) dom panel client >>= on_stop 1 (at 50 60)) ≡ returns c')
    × (JsMap.get 1 c'.pipeline_tasks ≡ some dropped)
    × (c'.sent ≡ change_pipeline_task dropped ∷ [])
    × Linked c'.pipeline_tasks
    × ((a b : ℕ) → has_next a b c'.pipeline_tasks ≡ has_next a b tasks)
unfolding JsMap.get
on_drag-on_stop_example =
    on_drag-on_stop 1 (at 50 60) dom panel client task_1 tasks-IsMap tasks-Linked tasks-IsKeyed refl
