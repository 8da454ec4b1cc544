-- ===== src/Dialog/PipelineForm.antt =====
-- `hSubmit` of web/client/central_widget/pipeline_dialog.tsx.
use zmey.Base.{
  ◌==◌, not, ◌&&◌, Bool, true, false, Option, none, some, String, str_eq, if◌then◌else◌,
}
use zmey.Store.Pipelines
use zmey.Types.{Pipeline}
use zmey.Client.{Client, returns, send, add_pipeline, change_pipeline}
use zmey.Dialog.{
  Dialog, Submitted, Mess, name_empty, name_exists, reject, on_add_success, on_change_success,
}

-- The inputs.
pub record Form : Type 0 where
  pub name : String
  pub description : String

abbrev pub exists : String → Client → Bool
exists name c = elim (Pipelines.get_by_name name c.pipelines) [ none ↦ false | some t ↦ true ]

unfoldable pub error_of : Pipeline → Form → Client → Option Mess
error_of sel f c =
    let is_new = sel.id == 0 in
    if str_eq f.name ""
    then some name_empty
    else if is_new && exists f.name c
    then some (name_exists f.name)
    else if not is_new && (not (str_eq sel.name f.name) && exists f.name c)
    then some (name_exists f.name)
    else none

unfoldable pub new_pipeline : Pipeline → Form → Pipeline
new_pipeline sel f = record {
  id = if sel.id == 0 then 0 else sel.id;
  name = f.name;
  description = f.description;
  setts =
      if sel.id == 0
      then record { is_visible = true; is_selected = true; has_change_task = false }
      else sel.setts;
}

unfoldable pub h_submit : Pipeline → Form → Dialog → Client → Submitted
unfolding error_of new_pipeline
h_submit sel f d c =
    if d.has_added then record { dialog = d; outcome = returns c } else elim (error_of sel f c) [
      | some mess ↦ record { dialog = reject mess d; outcome = returns c }
      | none ↦
          if sel.id == 0
          then record {
            dialog = record d { has_added = true };
            outcome = returns (send (add_pipeline (new_pipeline sel f)) c);
          }
          else record {
            dialog = d;
            outcome = returns (send (change_pipeline (new_pipeline sel f)) c);
          }
    ]

-- The callbacks of the two requests.
unfoldable pub add_success : Pipeline → Dialog → Client → Submitted
unfolding on_add_success
add_success resp d c = record {
  dialog = on_add_success d;
  outcome = returns (record c { pipelines = Pipelines.add resp c.pipelines });
}

unfoldable pub change_success : Pipeline → Dialog → Client → Submitted
unfolding on_change_success
change_success resp d c = record {
  dialog = on_change_success d;
  outcome = returns (record c { pipelines = Pipelines.upd resp c.pipelines });
}
