-- ===== src/Tests/Widget.antt =====
-- The theorems on the central widget and its dialogs together, at concrete inputs.
use zmey.Base.{
  pos, All, ℕ, ◌≡◌, refl, not, ◌&&◌, ◌||◌, ◌==◌, true, false, none, some, List, [], ◌∷◌, arith,
}
use zmey.JsArray.{includes}
use zmey.JsMap
use zmey.Types.{Pipeline, PipelineTask, TaskTemplate, Event}
use zmey.Central.Select.{is_selected, is_visible}
use zmey.Store.Ordered.{IsStore}
use zmey.Dialog.PipelineForm.{add_success}
use zmey.Dialog.NewPipeline.{time_out_new, add_success-selected}
use zmey.Client.{Client, Request, returns, send, change_form_task}
use zmey.Graph.Links.{Linked, has_next}
use zmey.Central.{del_pipeline_task_success}
use zmey.Central.Widget.{
  Widget, del_pipeline_task, del_event, delete_pipeline_task, delete_event, edit_event,
  edit_pipeline_task, yes, on_deleted, hide_ack,
}
use zmey.Central.Items.{pipeline_task_list}
use zmey.Central.Lists.{
  TemplateOpens, PipelineOpens, TaskOpens, EventOpens, template_list, pipeline_list, event_list,
  lists-Opens,
}
use zmey.Central.Confirm.{delete-confirmed, delete_event-mixed_up}
use zmey.Dialog.{Dialog, no_mess}
use zmey.Dialog.TaskForm.{Form, valid, check, selections, h_submit, change_success}
use zmey.Dialog.Sent.{form_task, FollowsForm}
use zmey.Dialog.Edit.{edges_left, edit-Linked}
use zmey.Dialog.EventRows.{event_rows, event_rows-deleted}
use zmey.Dialog.TaskRows.{NextRow, rows_of_selected, rows_of_selected-deleted}
use zmey.Tests.Data.{
  client, pipeline, pipelines, tasks, task_1, task_2, tasks-IsKeyed, tasks-IsMap, tasks-Linked,
}

abbrev event : ℕ → List ℕ → Event
event id starts = record {
  id = id;
  is_enabled = true;
  time_start_once_of_day = [];
  time_start_every_sec = pos 60;
  tasks_for_start = starts;
  name = "e";
  description = "";
}

abbrev with_events : Client
with_events = record client { events = (4, event 4 (2 ∷ [])) ∷ (5, event 5 []) ∷ [] }

abbrev widget : Widget
widget = record {
  sel_task_template = none;
  sel_pipeline = none;
  sel_pipeline_task = none;
  sel_event = none;
  ack = none;
  is_show_task_template = false;
  is_show_pipeline = false;
  is_show_pipeline_task = false;
  is_show_event = false;
  is_show_ack = false;
}

delete-confirmed_example :
    let w₂ = (delete_pipeline_task 2 widget client).widget in
    (t : PipelineTask) × (w₁ : Widget) × (c₃ : Client) × (JsMap.get 2 tasks ≡ some t)
    × (delete_pipeline_task 2 widget client ≡ record { widget = w₁; outcome = returns client })
    × (w₁.is_show_ack ≡ true)
    × (yes del_pipeline_task w₁ client ≡ returns (send (Request.del_pipeline_task t) client))
    × (on_deleted del_pipeline_task w₂ client
        ≡ record { widget = hide_ack w₂; outcome = returns c₃ })
    × (JsMap.get 2 c₃.pipeline_tasks ≡ none)
    × Linked c₃.pipeline_tasks
    × ((a b : ℕ)
        → has_next a b c₃.pipeline_tasks ≡ (has_next a b tasks && (not (2 == a) && not (2 == b))))
unfolding JsMap.has
delete-confirmed_example =
    delete-confirmed 2 widget (delete_pipeline_task 2 widget client).widget client client refl
      tasks-IsKeyed refl tasks-Linked refl

delete_event-mixed_up_example :
    (w₁ : Widget) × (c₁ c₂ : Client) × (delete_event 4 widget with_events
      ≡ record { widget = w₁; outcome = returns with_events })
    × (yes del_event w₁ with_events ≡ returns c₁)
    × (c₁.sent ≡ Request.del_event (event 4 (2 ∷ [])) ∷ [])
    × ((on_deleted del_event (edit_event 5 (hide_ack w₁) c₁) c₁).outcome ≡ returns c₂)
    × (JsMap.get 4 c₂.events ≡ some (event 4 (2 ∷ [])))
    × (JsMap.get 5 c₂.events ≡ none)
unfolding JsMap.get
delete_event-mixed_up_example =
    delete_event-mixed_up 4 5 widget with_events (event 4 (2 ∷ [])) (event 5 []) refl refl refl
      (omega arith)

event_rows-deleted_example :
    (c' : Client) × (del_pipeline_task_success task_2 with_events ≡ returns c')
    × (event_rows (2 ∷ []) c'.pipelines c'.pipeline_tasks ≡ none)
unfolding JsMap.has includes
event_rows-deleted_example =
    event_rows-deleted (event 4 (2 ∷ [])) task_2 with_events tasks-Linked refl refl

rows_of_selected-deleted_example :
    (rows : List NextRow) × (c' : Client) × (rows_of_selected
        (edit_pipeline_task 1 widget client)
        client
      ≡ some rows)
    × (del_pipeline_task_success task_2 client ≡ returns c')
    × (rows_of_selected (edit_pipeline_task 1 widget client) c' ≡ none)
unfolding JsMap.get JsMap.has includes
rows_of_selected-deleted_example =
    rows_of_selected-deleted 1 task_2 task_1 widget client tasks-Linked refl refl refl

abbrev template : TaskTemplate
template = record {
  id = 1;
  aver_duration_sec = pos 10;
  max_duration_sec = pos 20;
  name = "copy";
  description = "";
  script = "cp";
}

-- Task 1 moves to pipeline 2.
abbrev form : Form
form = record {
  ppl_id = some 2;
  tt_id = some 1;
  name = "t";
  description = "";
  params = "";
  checked = λ id. false;
}

abbrev dialog : Dialog
dialog = record { has_added = false; shown = true; status_mess = no_mess; timer = none }

form-valid : check task_1 form client ≡ valid 2 1
unfolding check selections
form-valid = refl

edit-Linked_example :
    (t' : PipelineTask) × (c₀ c₁ : Client) × (h_submit task_1 form dialog client
      ≡ record { dialog = dialog; outcome = returns (send (change_form_task (form_task t')) c₀) })
    × ((change_success t' dialog (send (change_form_task (form_task t')) c₀)).outcome ≡ returns c₁)
    × (JsMap.get 1 c₁.pipeline_tasks ≡ some t')
    × FollowsForm task_1 t' 2 1 form false
    × Linked c₁.pipeline_tasks
    × ((a b : ℕ) → has_next a b c₁.pipeline_tasks ≡ edges_left false 1 tasks a b)
unfolding JsMap.get
edit-Linked_example =
    edit-Linked 1 2 1 task_1 form dialog client tasks-Linked tasks-IsKeyed refl (omega arith) refl
      form-valid

-- Pipeline 3 has just been created.
abbrev pipeline_3 : Pipeline
pipeline_3 = pipeline 3 true true

pipelines-IsStore : IsStore pipelines
unfolding JsMap.get JsMap.has
pipelines-IsStore = record { is_map = (refl, (refl, tt)); keyed = λ k p e. ground arith }

add_success-selected_example :
    (c₁ c₂ : Client) × (d' : Dialog) × ((add_success pipeline_3 dialog client).outcome ≡ returns c₁)
    × (time_out_new pipeline_3 (add_success pipeline_3 dialog client).dialog c₁
        ≡ record { dialog = d'; outcome = returns c₂ })
    × ((d'.shown ≡ false) × (d'.has_added ≡ false))
    × ((k : ℕ) → is_selected k c₂.pipelines ≡ (3 == k))
    × ((k : ℕ) → is_visible k c₂.pipelines ≡ (is_visible k pipelines || 3 == k))
unfolding JsMap.has
add_success-selected_example = add_success-selected pipeline_3 dialog client pipelines-IsStore refl

abbrev with_lists : Client
with_lists = record with_events { task_templates = (1, template) ∷ [] }

lists-Opens_example :
    All (TemplateOpens widget with_lists) (template_list ((1, template) ∷ []))
    × All (PipelineOpens widget with_lists) (pipeline_list pipelines)
    × All (TaskOpens widget with_lists) (pipeline_task_list with_lists)
    × All (EventOpens widget with_lists) (event_list ((4, event 4 (2 ∷ [])) ∷ (5, event 5 []) ∷ []))
unfolding JsMap.get JsMap.has
lists-Opens_example =
    lists-Opens widget with_lists ((refl, tt), λ k t e. ground arith)
      (pipelines-IsStore.is_map, pipelines-IsStore.keyed) (tasks-IsMap, tasks-IsKeyed)
      ((refl, (refl, tt)), λ k t e. ground arith)
