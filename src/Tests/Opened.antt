-- ===== src/Tests/Opened.antt =====
-- A task and an event that are opened in their dialogs and submitted as they are.
use zmey.Base.{pos, ◌≡◌, refl, true, false, some, none, [], ◌∷◌, arith, inr}
use zmey.JsMap
use zmey.Types.{TaskTemplate, Event}
use zmey.Client.{Client, returns, send, change_form_task, change_event}
use zmey.Store.Pipelines
use zmey.Store.PipelineTasks
use zmey.Dialog.{Dialog, no_mess}
use zmey.Admin.ParseInt.{parse_int}
use zmey.Dialog.Sent.{form_task}
use zmey.Dialog.TaskForm
use zmey.Dialog.EventForm
use zmey.Dialog.EventRows.{Row, event_rows, h_show}
use zmey.Dialog.View.{TaskView, EventView, render_task, render_event}
use zmey.Dialog.Unchanged.{task-unchanged, event-unchanged}
use zmey.Tests.Data.{client, pipeline, task_1, tasks-Linked}

abbrev template : TaskTemplate
template = record {
  id = 1;
  aver_duration_sec = pos 10;
  max_duration_sec = pos 20;
  name = "copy";
  description = "";
  script = "cp";
}

abbrev with_template : Client
with_template = record client { task_templates = (1, template) ∷ [] }

abbrev dialog : Dialog
dialog = record { has_added = false; shown = true; status_mess = no_mess; timer = none }

task-unchanged_example :
    (v : TaskView) × (render_task task_1 dialog with_template ≡ some v)
    × (TaskForm.h_submit task_1 v.inputs dialog with_template ≡ record {
      dialog = dialog;
      outcome = returns (send (change_form_task (form_task task_1)) with_template);
    })
    × (parse_int (form_task task_1).ppl_id ≡ some 1)
    × (parse_int (form_task task_1).tt_id ≡ some 1)
unfolding JsMap.get
task-unchanged_example =
    task-unchanged task_1 (pipeline 1 true true) template dialog with_template tasks-Linked refl
      refl refl refl refl (inr refl, tt) refl (omega arith) refl refl

abbrev daily : Event
daily = record {
  id = 4;
  is_enabled = true;
  time_start_once_of_day = "10:30" ∷ "18:00" ∷ [];
  time_start_every_sec = pos 0;
  tasks_for_start = 2 ∷ [];
  name = "daily";
  description = "";
}

abbrev row : Row
row = record { pipeline_name = "p"; task_name = "t"; task_id = 2 }

event-unchanged_example :
    (v : EventView) × (render_event daily 0 (2 ∷ []) dialog client ≡ some v)
    × (EventForm.h_submit daily (2 ∷ []) v.inputs dialog client
        ≡ record { dialog = dialog; outcome = returns (send (change_event daily) client) })
unfolding event_rows h_show PipelineTasks.get Pipelines.get JsMap.get JsMap.has
event-unchanged_example =
    event-unchanged daily 0 [] (row ∷ []) dialog client refl ((refl, refl), ((refl, refl), tt))
      (omega arith) refl refl
