-- ===== src/Tests/Graph.antt =====
-- The graph's theorems at the store with the connection 1 → 2.
use zmey.Base.{
  false, List, some, none, ℕ, pos, ◌+ℤ◌, ◌≡◌, ◌≢◌, refl, not, ◌&&◌, ◌==◌, [], ◌∷◌, length,
}
use zmey.JsArray.{includes}
use zmey.JsMap
use zmey.Types.{Point}
use zmey.Client.{Client, returns}
use zmey.Store.Connections.{del_all_connections}
use zmey.Graph.Handlers.{Panel, default_cursor, auto_cursor, h_mouse_up}
use zmey.Graph.Drop.{Connected, h_mouse_up-Connected}
use zmey.Graph.Draw.{Line, draw_all}
use zmey.Store.PipelineTasks
use zmey.Graph.Lines.{Drawn, outgoing, draw_all-outgoing}
use zmey.Central.{del_pipeline_task_success}
use zmey.Central.Delete.{del_pipeline_task_success-Linked}
use zmey.Graph.Links.{Linked, has_next, next_of, starts_of}
use zmey.Graph.Isolate.{del_all_connections-flags}
use zmey.Graph.Panel.{input, output, is_pnt_into_rect}
use zmey.Graph.Settings.{with_setts, shown}
use zmey.Graph.OffMap.{delete_task_from_map-Linked}
use zmey.Store.Connections.Detach.{isolated}
use zmey.Graph.Menu.{delete_task_from_map, delete_next_connect}
use zmey.Graph.Disconnect.{Disconnected, delete_next_connect-Disconnected}
use zmey.Tests.Data.{
  client, tasks, task_2, tasks-Linked, tasks-IsAligned, tasks-IsKeyed, tasks-IsMap,
}

abbrev pub over_3 : Point
over_3 = record { x = pos 605; y = pos 5 }

del_all_connections-flags_example :
    (c' : Client) × (del_all_connections 1 client ≡ returns c')
    × ((a : ℕ)
        → a ≢ 1
        → length (starts_of a c'.pipeline_tasks) ≡ length (next_of a c'.pipeline_tasks))
    × (next_of 1 c'.pipeline_tasks ≡ [])
    × (starts_of 1 c'.pipeline_tasks ≡ 1 ∷ [])
unfolding JsMap.has JsMap.get
del_all_connections-flags_example =
    del_all_connections-flags client 1 tasks-Linked tasks-IsAligned refl

delete_next_connect-Disconnected_example :
    (c' : Client) × (delete_next_connect 1 2 client ≡ returns c')
    × Disconnected 1 2 tasks c'.pipeline_tasks
unfolding JsMap.get includes
delete_next_connect-Disconnected_example =
    delete_next_connect-Disconnected 1 2 client tasks-Linked tasks-IsAligned tasks-IsKeyed refl

abbrev pub captured : Panel
captured = record {
  captured_id = 1;
  captured_type = output;
  context_menu_task_id = 0;
  mouse_cursor = default_cursor;
  mouse_start_mem = record { x = pos 195; y = pos 5 };
  ppl_id = 1;
  ppl_task_id = 1;
  task_count_mem = 0;
  scroll = record { x = pos 0; y = pos 0 };
}

h_mouse_up-Connected_example :
    (c' : Client) × (h_mouse_up over_3 captured client ≡ record {
      panel = record captured {
        captured_id = 0;
        captured_type = input;
        mouse_cursor = auto_cursor;
      };
      outcome = returns c';
    })
    × Connected output 1 (3 ∷ []) tasks c'.pipeline_tasks
unfolding JsMap.has includes is_pnt_into_rect ◌+ℤ◌
h_mouse_up-Connected_example =
    h_mouse_up-Connected over_3 captured client tasks-IsMap tasks-Linked tasks-IsAligned
      tasks-IsKeyed refl refl refl

draw_all-outgoing_example :
    (lines : List Line) × (draw_all 1 tasks ≡ some lines)
    × Drawn tasks (outgoing (PipelineTasks.get_by_ppl_id 1 tasks)) lines
draw_all-outgoing_example = draw_all-outgoing 1 tasks tasks-IsMap tasks-Linked

del_pipeline_task_success-Linked_example :
    (c' : Client) × (del_pipeline_task_success task_2 client ≡ returns c')
    × (JsMap.get 2 c'.pipeline_tasks ≡ none)
    × Linked c'.pipeline_tasks
    × ((a b : ℕ)
        → has_next a b c'.pipeline_tasks ≡ (has_next a b tasks && (not (2 == a) && not (2 == b))))
unfolding JsMap.has
del_pipeline_task_success-Linked_example =
    del_pipeline_task_success-Linked task_2 client tasks-Linked refl

delete_task_from_map-Linked_example :
    (c' : Client) × (delete_task_from_map 2 client ≡ returns c')
    × (JsMap.get 2 c'.pipeline_tasks ≡ some (with_setts (shown false) (isolated task_2)))
    × Linked c'.pipeline_tasks
    × ((a b : ℕ)
        → has_next a b c'.pipeline_tasks ≡ (has_next a b tasks && (not (2 == a) && not (2 == b))))
unfolding JsMap.get
delete_task_from_map-Linked_example =
    delete_task_from_map-Linked 2 task_2 client tasks-Linked tasks-IsKeyed refl
