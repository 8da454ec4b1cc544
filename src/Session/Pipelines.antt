-- ===== src/Session/Pipelines.antt =====
-- A session on the pipelines: the handlers of Session/Tabs one after the other.
use zmey.Base.{ℕ, ◌≡◌, true, false}
use zmey.JsMap
use zmey.JsMap.{JsMap}
use zmey.Types.{Pipeline, PipelineTask}
use zmey.Client.{Client, Outcome, final}
use zmey.Central.{select_pipeline, hide_pipeline, del_pipeline_request, del_pipeline_success}
use zmey.Central.Items.{Target, entry, button, double_click_pipeline}
use zmey.Dialog.{Dialog}
use zmey.Dialog.PipelineForm
use zmey.Dialog.PipelineForm.{Form, new_pipeline}
use zmey.Dialog.NewPipeline.{time_out_new}
use zmey.Dialog.TaskForm
use zmey.Session.TabStore.{HasTab}

-- The answers: `added` to a new pipeline, whose timeout then runs out, `changed` to an edit, `deleted`
-- to a deletion, and `task_changed` to the edit of a task.
pub data Action : Type 0 where
  selected hidden : ℕ → Action
  clicked_twice : ℕ → Target → Action
  submitted : Pipeline → Form → Dialog → Action
  added changed timed_out : Pipeline → Dialog → Action
  delete_asked deleted : Pipeline → Action
  task_changed : PipelineTask → Dialog → Action

unfoldable pub act : Action → Client → Outcome
act (selected id) c = select_pipeline id c
act (clicked_twice id target) c = double_click_pipeline id target c
act (hidden id) c = hide_pipeline id c
act (submitted sel f d) c = (PipelineForm.h_submit sel f d c).outcome
act (added resp d) c = (PipelineForm.add_success resp d c).outcome
act (changed resp d) c = (PipelineForm.change_success resp d c).outcome
act (timed_out resp d) c = (time_out_new resp d c).outcome
act (delete_asked sel) c = del_pipeline_request sel c
act (deleted sel) c = del_pipeline_success sel c
act (task_changed resp d) c = (TaskForm.change_success resp d c).outcome

-- The page shows the tabs and the deletion only of a pipeline that is there, and a pipeline in an answer
-- has a tab if it is selected.
abbrev pub Enabled : Action → Client → Type 0
Enabled (hidden id) c = JsMap.has id c.pipelines ≡ true
Enabled (added resp d) c = HasTab resp
Enabled (changed resp d) c = HasTab resp
Enabled (delete_asked sel) c = JsMap.has sel.id c.pipelines ≡ true
Enabled _ c = Unit {0}

-- When a handler may throw: a pipeline is to be selected that is not there, as by the timeout of a new
-- pipeline that has been deleted meanwhile, or a button of the list is clicked twice.
abbrev pub Fails : Action → Client → Type 0
Fails (selected id) c = JsMap.has id c.pipelines ≡ false
Fails (clicked_twice id entry) c = JsMap.has id c.pipelines ≡ false
Fails (clicked_twice id button) c = Unit {0}
Fails (timed_out resp d) c = JsMap.has resp.id c.pipelines ≡ false
Fails _ c = ⊥

-- A handler that throws ends there, and the session goes on.
pub data Reached (c : Client) : Client → Type 0 where
  begin : Reached c c
  after : {u : Client} (a : Action) → Reached c u → Enabled a u → Reached c (final (act a u))
