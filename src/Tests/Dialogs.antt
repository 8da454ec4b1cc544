-- ===== src/Tests/Dialogs.antt =====
-- The theorems on the dialogs, at concrete sessions and texts.
use zmey.Base.{pos, false, ℕ, ◌≤◌, ◌≡◌, refl, true, List, [], ◌∷◌, String, arith, none, some}
use zmey.Dialog.{Dialog, on_add_success, on_change_success, no_mess}
use zmey.Dialog.Steps.{Session, Reach, fresh, here, next, opened, submit, submitted, add_ok}
use zmey.Dialog.Guard.{OneAdd, Reach-one_add, change_ok-stuck}
use zmey.Dialog.Times.{parse_times, split, print_times}
use zmey.Types.{Event}
use zmey.Client.{Client, returns, send, add_event}
use zmey.Dialog.Submit.{h_submit-all}
use zmey.Store.Events
use zmey.Tests.Data.{client}
use zmey.Dialog.EventForm.{
  Form, new_event, h_submit, error_of, append_task_to_list, delete_task_from_list,
}
use zmey.JsArray.{find_index, splice}

abbrev event : ℕ → String → Event
event id name = record {
  id = id;
  is_enabled = true;
  time_start_once_of_day = [];
  time_start_every_sec = pos 0;
  tasks_for_start = [];
  name = name;
  description = "";
}

abbrev with_events : Client
with_events = record client { events = (1, event 1 "daily") ∷ [] }

abbrev form : Form
form = record {
  name = "hourly";
  description = "";
  start_time_every = some (pos 3600);
  start_time_once = "";
}

-- A new event is created, and the answer comes.
created : Reach fresh (record fresh {
  dialog = on_add_success (record (fresh.dialog) { shown = true; has_added = true });
})
unfolding submit h_submit error_of Events.get_by_name
created = next (next (next here opened) (submitted (event 0 "") [] form client)) (add_ok 0 refl)

Reach-one_add_example : 0 ≤ 1
Reach-one_add_example = Reach-one_add created

-- An edit and a creation are both without an answer.
abbrev both : Session
both = record {
  dialog = record { has_added = true; shown = true; status_mess = no_mess; timer = none };
  adds = 1;
  changes = 1;
}

both-Reach : Reach fresh both
unfolding submit h_submit error_of Events.get_by_name
both-Reach =
    next (next (next here opened) (submitted (event 1 "hourly") [] form client))
      (submitted (event 0 "") [] form client)

both-OneAdd : OneAdd both
both-OneAdd = record {
  bounded = omega arith;
  flagged = λ n. refl;
  quiet = λ n. refl;
  armed = λ e. refl;
}

change_ok-stuck_example :
    let t = record both {
      dialog = on_change_success (on_add_success both.dialog);
      adds = 0;
      changes = 0;
    } in
    Reach both t × ((u : Session) → Reach t u → u.dialog.has_added ≡ true)
change_ok-stuck_example = change_ok-stuck both 0 0 both-OneAdd refl refl

abbrev times : List String
times = "10:30" ∷ "18:00" ∷ []

times-printed : print_times times ≡ "10:30;18:00;"
unfolding print_times
times-printed = refl

times-parsed : parse_times (print_times times) ≡ times
unfolding parse_times split print_times
times-parsed = refl

appended_once : append_task_to_list (some 1) (some 4) (4 ∷ []) ≡ 4 ∷ []
unfolding append_task_to_list find_index
appended_once = refl

deleted : delete_task_from_list 4 (3 ∷ 4 ∷ 5 ∷ []) ≡ 3 ∷ 5 ∷ []
unfolding delete_task_from_list find_index splice
deleted = refl

abbrev opened_dialog : Dialog
opened_dialog = record { has_added = false; shown = true; status_mess = no_mess; timer = none }

-- A new event with a free name is sent, and the flag is set.
h_submit-all_example :
    ((h_submit (event 0 "") (4 ∷ []) form opened_dialog with_events).outcome
      ≡ returns (send (add_event (new_event (event 0 "") (4 ∷ []) form)) with_events))
    × ((h_submit (event 0 "") (4 ∷ []) form opened_dialog with_events).dialog.has_added ≡ true)
h_submit-all_example = h_submit-all (event 0 "") (4 ∷ []) form opened_dialog with_events
