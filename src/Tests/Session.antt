-- ===== src/Tests/Session.antt =====
-- A session on the panel, and an edit that is answered too late.
use zmey.Base.{◌≡◌, refl, true, false, some, none, arith, ◌+ℤ◌}
use zmey.JsArray.{includes, find}
use zmey.JsMap
use zmey.JsMap.{JsMap}
use zmey.Types.{PipelineTask}
use zmey.Central.{del_pipeline_task_success}
use zmey.Client.{throws, Client, returns, final, send, change_form_task}
use zmey.Dialog.{Dialog, no_mess}
use zmey.Dialog.Sent.{form_task}
use zmey.Dialog.TaskForm.{Form, valid, check, selections, h_submit, change_success}
use zmey.Graph.Panel.{is_pnt_into_rect, connect_all, join}
use zmey.Graph.Handlers.{Step, h_mouse_up, drop_socket, redraw}
use zmey.Graph.Draw.{draw_all, draw_tasks, draw_next}
use zmey.Store.PipelineTasks
use zmey.Graph.Links.{has_next, has_prev}
use zmey.Graph.Menu.{delete_next_connect}
use zmey.Graph.Consistent.{IsConsistent}
use zmey.Session.{State, act, Reached, begin, after, mouse_up, next_deleted}
use zmey.Session.Run.{session-IsConsistent}
use zmey.Session.Race.{edit-outdated}
use zmey.Tests.Data.{client, tasks, task_1, tasks-Linked, tasks-IsKeyed, tasks-IsMap}
use zmey.Tests.Graph.{captured, over_3}

tasks-IsConsistent : IsConsistent tasks
unfolding JsMap.has
tasks-IsConsistent = record {
  domain = record { is_map = tasks-IsMap; no_zero = refl };
  linked = tasks-Linked;
  keyed = tasks-IsKeyed;
}

abbrev first : State
first = record { panel = captured; client = client }

-- The socket of task 1 is dropped on that of task 3.
abbrev drop : Step
drop = h_mouse_up over_3 captured client

abbrev second : State
second = record { panel = drop.panel; client = final drop.outcome }

second-Reached : Reached first second
unfolding act h_mouse_up drop_socket connect_all join redraw draw_all draw_tasks draw_next
    PipelineTasks.get PipelineTasks.upd PipelineTasks.set_moved JsMap.get JsMap.has JsMap.set
    includes is_pnt_into_rect ◌+ℤ◌ find
second-Reached =
    after (mouse_up over_3) drop.panel (final drop.outcome) begin (λ e. (refl, refl)) refl

session-IsConsistent_example :
    IsConsistent (second.client.pipeline_tasks)
    × ((c' : Client) × ((act (next_deleted 1 3) second.panel second.client).outcome ≡ returns c')
        × IsConsistent c'.pipeline_tasks)
unfolding act h_mouse_up drop_socket connect_all join redraw draw_all draw_tasks draw_next
    PipelineTasks.get PipelineTasks.upd PipelineTasks.set_moved JsMap.get JsMap.has JsMap.set
    includes is_pnt_into_rect ◌+ℤ◌ find
session-IsConsistent_example =
    session-IsConsistent first second (next_deleted 1 3) tasks-IsConsistent second-Reached refl

abbrev form : Form
form = record {
  ppl_id = some 1;
  tt_id = some 1;
  name = "t";
  description = "new";
  params = "";
  checked = λ id. true;
}

abbrev dialog : Dialog
dialog = record { has_added = false; shown = true; status_mess = no_mess; timer = none }

form-valid : check task_1 form client ≡ valid 1 1
unfolding check selections
form-valid = refl

edit-outdated_example :
    (t' u : PipelineTask) × (c₁ c₂ c₃ c₄ : Client) × (h_submit task_1 form dialog client
      ≡ record { dialog = dialog; outcome = returns c₁ })
    × (c₁ ≡ send (change_form_task (form_task t')) client)
    × (delete_next_connect 1 2 c₁ ≡ returns c₂)
    × IsConsistent c₂.pipeline_tasks
    × (has_next 1 2 c₂.pipeline_tasks ≡ false)
    × ((change_success t' dialog c₂).outcome ≡ returns c₃)
    × (has_next 1 2 c₃.pipeline_tasks ≡ true)
    × (has_prev 2 1 c₃.pipeline_tasks ≡ false)
    × (JsMap.get 2 c₃.pipeline_tasks ≡ some u)
    × (del_pipeline_task_success u c₃ ≡ returns c₄)
    × (redraw 1 c₄ ≡ throws c₄)
unfolding JsMap.get includes
edit-outdated_example =
    edit-outdated 1 2 1 task_1 form dialog client tasks-IsConsistent refl refl (omega arith) refl
      form-valid
