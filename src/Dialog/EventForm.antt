-- ===== src/Dialog/EventForm.antt =====
-- `hSubmit` and the list of tasks of web/client/central_widget/event_dialog.tsx.
use zmey.Base.{
  List, [], ◌∷◌, ◌++◌, ℕ, ℤ, pos, ◌==◌, not, ◌&&◌, ◌||◌, Bool, true, false, Option, none, some,
  String, str_eq, if◌then◌else◌,
}
use zmey.Store.Events
use zmey.Types.{Event}
use zmey.Client.{Client, returns, send, add_event, change_event}
use zmey.JsArray.{find_index, splice}
use zmey.Dialog.Times.{parse_times}
use zmey.Dialog.{
  Dialog, Submitted, Mess, name_empty, name_exists, reject, on_add_success, on_change_success,
}

-- The inputs; a number field is `none` while it is empty, and may hold a negative number.
pub record Form : Type 0 where
  pub name : String
  pub description : String
  pub start_time_every : Option ℤ
  pub start_time_once : String

abbrev pub or_zero : Option ℤ → ℤ
or_zero none = pos 0
or_zero (some n) = n

abbrev pub exists : String → Client → Bool
exists name c = elim (Events.get_by_name name c.events) [ none ↦ false | some t ↦ true ]

unfoldable pub error_of : Event → Form → Client → Option Mess
error_of sel f c =
    let is_new = sel.id == 0 in
    if str_eq f.name ""
    then some name_empty
    else if is_new && exists f.name c
    then some (name_exists f.name)
    else if not is_new && (not (str_eq sel.name f.name) && exists f.name c)
    then some (name_exists f.name)
    else none

-- `tasks` is the list in the component's state.
unfoldable pub new_event : Event → List ℕ → Form → Event
unfolding parse_times
new_event sel tasks f = record {
  id = if sel.id == 0 then 0 else sel.id;
  is_enabled = if sel.id == 0 then true else sel.is_enabled;
  time_start_once_of_day = parse_times f.start_time_once;
  time_start_every_sec = or_zero f.start_time_every;
  tasks_for_start = tasks;
  name = f.name;
  description = f.description;
}

unfoldable pub h_submit : Event → List ℕ → Form → Dialog → Client → Submitted
unfolding error_of new_event
h_submit sel tasks f d c =
    if d.has_added then record { dialog = d; outcome = returns c } else elim (error_of sel f c) [
      | some mess ↦ record { dialog = reject mess d; outcome = returns c }
      | none ↦
          if sel.id == 0
          then record {
            dialog = record d { has_added = true };
            outcome = returns (send (add_event (new_event sel tasks f)) c);
          }
          else record {
            dialog = d;
            outcome = returns (send (change_event (new_event sel tasks f)) c);
          }
    ]

-- The callbacks of the two requests.
unfoldable pub add_success : Event → Dialog → Client → Submitted
unfolding on_add_success
add_success resp d c = record {
  dialog = on_add_success d;
  outcome = returns (record c { events = Events.add resp c.events });
}

unfoldable pub change_success : Event → Dialog → Client → Submitted
unfolding on_change_success
change_success resp d c = record {
  dialog = on_change_success d;
  outcome = returns (record c { events = Events.upd resp c.events });
}

-- `if (pplId && taskId)`: neither is NaN or 0. A task that is in the list is not added again.
unfoldable pub append_task_to_list : Option ℕ → Option ℕ → List ℕ → List ℕ
append_task_to_list none task_id tasks = tasks
append_task_to_list (some ppl_id) none tasks = tasks
append_task_to_list (some ppl_id) (some task_id) tasks =
    if ppl_id == 0 || task_id == 0
    then tasks
    else elim (find_index task_id tasks) [ none ↦ tasks ++ task_id ∷ [] | some i ↦ tasks ]

unfoldable pub delete_task_from_list : ℕ → List ℕ → List ℕ
delete_task_from_list task_id tasks = splice (find_index task_id tasks) tasks
