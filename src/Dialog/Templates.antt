-- ===== src/Dialog/Templates.antt =====
-- `hSubmit` of web/client/central_widget/task_template_dialog.tsx.
use zmey.Base.{
  ℤ, pos, ◌==◌, not, ◌&&◌, Bool, true, false, Option, none, some, String, str_eq, if◌then◌else◌,
}
use zmey.Store.TaskTemplates
use zmey.Types.{TaskTemplate}
use zmey.Client.{Client, returns, send, add_task_template, change_task_template}
use zmey.Dialog.{
  Dialog, Submitted, Mess, name_empty, script_empty, name_exists, reject, on_add_success,
  on_change_success,
}

-- The inputs; a number field is `none` while it is empty, and may hold a negative number.
pub record Form : Type 0 where
  pub name : String
  pub script : String
  pub description : String
  pub aver_duration_sec : Option ℤ
  pub max_duration_sec : Option ℤ

abbrev pub or_one : Option ℤ → ℤ
or_one none = pos 1
or_one (some n) = n

abbrev pub exists : String → Client → Bool
exists name c = elim (TaskTemplates.get_by_name name c.task_templates) [
  | none ↦ false
  | some t ↦ true
]

unfoldable pub error_of : TaskTemplate → Form → Client → Option Mess
error_of sel f c =
    let is_new = sel.id == 0 in
    if str_eq f.name ""
    then some name_empty
    else if str_eq f.script ""
    then some script_empty
    else if is_new && exists f.name c
    then some (name_exists f.name)
    else if not is_new && (not (str_eq sel.name f.name) && exists f.name c)
    then some (name_exists f.name)
    else none

unfoldable pub new_template : TaskTemplate → Form → TaskTemplate
new_template sel f = record {
  id = if sel.id == 0 then 0 else sel.id;
  aver_duration_sec = or_one f.aver_duration_sec;
  max_duration_sec = or_one f.max_duration_sec;
  name = f.name;
  description = f.description;
  script = f.script;
}

unfoldable pub h_submit : TaskTemplate → Form → Dialog → Client → Submitted
unfolding error_of new_template
h_submit sel f d c =
    if d.has_added then record { dialog = d; outcome = returns c } else elim (error_of sel f c) [
      | some mess ↦ record { dialog = reject mess d; outcome = returns c }
      | none ↦
          if sel.id == 0
          then record {
            dialog = record d { has_added = true };
            outcome = returns (send (add_task_template (new_template sel f)) c);
          }
          else record {
            dialog = d;
            outcome = returns (send (change_task_template (new_template sel f)) c);
          }
    ]

-- The callbacks of the two requests.
unfoldable pub add_success : TaskTemplate → Dialog → Client → Submitted
unfolding on_add_success
add_success resp d c = record {
  dialog = on_add_success d;
  outcome = returns (record c { task_templates = TaskTemplates.add resp c.task_templates });
}

unfoldable pub change_success : TaskTemplate → Dialog → Client → Submitted
unfolding on_change_success
change_success resp d c = record {
  dialog = on_change_success d;
  outcome = returns (record c { task_templates = TaskTemplates.upd resp c.task_templates });
}
