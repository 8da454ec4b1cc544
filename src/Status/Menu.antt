-- ===== src/Status/Menu.antt =====
-- When task_status_widget.tsx of web/client/task_status_widget is drawn again, and the menu of a run
-- in task_status_context_menu.tsx beside it. Coordinates count half pixels.
use zmey.Base.{
  ℕ, ◌-ℤ◌, ◌==◌, ◌≡◌, refl, not, ◌||◌, Bool, true, false, Option, none, some, List, [], ◌∷◌,
  if◌then◌else◌, arith, All, ap, ◌∙◌,
}
use zmey.Store.Tasks
use zmey.Store.Tasks.{TaskStore}
use zmey.Types.{Point, Task, state_number, running, pause}
use zmey.Status.{MenuButton, pause_button, continue_button, menu_button}
use zmey.Client.{Client, send, continue_task, pause_task, stop_task}

-- The state and the flags of the widget, the props that the menu was drawn with last, and the first
-- button that it then had, which depends on the state of the run.
pub record Panel : Type 0 where
  pub sel_task_id : ℕ
  pub mpos : Point
  pub update_after_filter : Bool
  pub has_new : Bool
  pub has_hide : Bool
  pub has_show : Bool
  pub has_filter : Bool
  pub drawn_id : ℕ
  pub drawn_mpos : Point
  pub drawn_button : Option MenuButton

unfoldable pub should_component_update : Panel → Bool
should_component_update p = p.has_new || p.has_hide || p.has_show || p.has_filter

-- What `TasksRet` does to the flags; `is_new` is whether there is a difference between the runs.
abbrev pub tasks_ret : Bool → Panel → Panel
tasks_ret is_new p = record p {
  has_new = is_new;
  has_filter = if is_new || p.has_filter then false else p.has_filter;
}

-- `render` with the runs in the store, and with the drawing of the menu and of `TasksRet` that it brings about.
abbrev pub render : Bool → TaskStore → Panel → Panel
render is_new runs p =
    let cleared =
      if p.sel_task_id == 0 then record p { has_hide = false } else record p { has_show = false } in
    tasks_ret is_new (record cleared {
      drawn_id = p.sel_task_id;
      drawn_mpos = p.mpos;
      drawn_button = menu_button p.sel_task_id runs;
    })

-- What follows `setState`: `render` if `shouldComponentUpdate` has it.
unfoldable pub update : Bool → TaskStore → Panel → Panel
update is_new runs p = if should_component_update p then render is_new runs p else p

-- The right button is 2; `client` is the place of the mouse, `corner` that of the table, and
-- `row_id` the number that the first cell of the row reads as.
unfoldable pub h_show_context_menu : ℕ → Point → Point → ℕ → Bool → TaskStore → Panel → Panel
unfolding update
h_show_context_menu button client corner row_id is_new runs p =
    if button == 2
    then update is_new runs (record p {
      has_show = true;
      mpos = record { x = client.x -ℤ corner.x; y = client.y -ℤ corner.y };
      sel_task_id = row_id;
    })
    else p

unfoldable pub h_hide_context_menu : Bool → TaskStore → Panel → Panel
unfolding update
h_hide_context_menu is_new runs p =
    if not (p.sel_task_id == 0)
    then update is_new runs (record p { has_hide = true; sel_task_id = 0 })
    else p

-- A click on one of the three check boxes.
unfoldable pub h_filter : Bool → TaskStore → Panel → Panel
unfolding update
h_filter is_new runs p =
    update is_new runs (record p { has_filter = true; update_after_filter = true })

-- The three handlers of the menu: a run that is not in the store any more throws, before the menu
-- is hidden.
unfoldable pub continue_run : ℕ → Bool → TaskStore → Panel → Client → Option (Panel × Client)
unfolding h_hide_context_menu
continue_run id is_new store p c = elim (Tasks.get id store) [
  | none ↦ none
  | some t ↦ some (h_hide_context_menu is_new store p, send (continue_task t.id) c)
]

unfoldable pub pause_run : ℕ → Bool → TaskStore → Panel → Client → Option (Panel × Client)
unfolding h_hide_context_menu
pause_run id is_new store p c = elim (Tasks.get id store) [
  | none ↦ none
  | some t ↦ some (h_hide_context_menu is_new store p, send (pause_task t.id) c)
]

unfoldable pub stop_run : ℕ → Bool → TaskStore → Panel → Client → Option (Panel × Client)
unfolding h_hide_context_menu
stop_run id is_new store p c = elim (Tasks.get id store) [
  | none ↦ none
  | some t ↦ some (h_hide_context_menu is_new store p, send (stop_task t.id) c)
]

-- What may happen to the widget. Each carries whether the runs differ from those shown, the last the
-- new runs.
pub data Action : Type 0 where
  mouse_down : ℕ → Point → Point → ℕ → Bool → Action
  click : Bool → Action
  filter : Bool → Action
  runs_change : Bool → TaskStore → Action

-- A change of the runs draws `TasksRet` again, which observes them, and nothing else.
abbrev pub act : Action → TaskStore → Panel → Panel
act (mouse_down button client corner row_id is_new) =
    h_show_context_menu button client corner row_id is_new
act (click is_new) = h_hide_context_menu is_new
act (filter is_new) = h_filter is_new
act (runs_change is_new runs) = λ old. tasks_ret is_new

abbrev pub runs_after : Action → TaskStore → TaskStore
runs_after (runs_change is_new runs) old = runs
runs_after _ old = old

unfoldable pub run : List Action → TaskStore → Panel → Panel
run [] runs p = p
run (a ∷ rest) runs p = run rest (runs_after a runs) (act a runs p)

-- Nothing to draw: the flags are off, and the menu is drawn with the state as it is.
abbrev pub IsSettled : Panel → Type 0
IsSettled p =
    (p.has_hide ≡ false)
    × (p.has_show ≡ false)
    × (p.has_filter ≡ false)
    × (p.drawn_id ≡ p.sel_task_id)
    × (p.drawn_mpos ≡ p.mpos)

-- The rows have the ids of runs, which are not 0.
abbrev pub HasRow : Action → Type 0
HasRow (mouse_down button client corner row_id is_new) = (row_id == 0) ≡ false
HasRow _ = Unit

-- The button for a run: to pause it while it runs, to go on with it while it pauses.
abbrev pub button_for : Option Task → Option MenuButton
button_for none = none
button_for (some t) =
    if t.state == state_number running
    then some pause_button
    else if t.state == state_number pause
    then some continue_button
    else none

-- The menu as the user sees it: of which run, 0 for none, where, and with which first button.
pub record Seen : Type 0 where
  pub id : ℕ
  pub place : Point
  pub button : Option MenuButton

abbrev pub seen_after : Action → TaskStore → Seen → Seen
seen_after (mouse_down button client corner row_id is_new) runs s =
    if button == 2
    then record {
      id = row_id;
      place = record { x = client.x -ℤ corner.x; y = client.y -ℤ corner.y };
      button = button_for (Tasks.get row_id runs);
    }
    else s
seen_after (click is_new) runs s =
    if s.id == 0 then s else record s { id = 0; button = button_for (Tasks.get 0 runs) }
seen_after (filter is_new) runs s = record s { button = button_for (Tasks.get s.id runs) }
seen_after (runs_change is_new new) runs s = s

abbrev pub seen_by : List Action → TaskStore → Seen → Seen
seen_by [] runs s = s
seen_by (a ∷ rest) runs s = seen_by rest (runs_after a runs) (seen_after a runs s)

abbrev pub drawn : Panel → Seen
drawn p = record { id = p.drawn_id; place = p.drawn_mpos; button = p.drawn_button }

menu_button-button_for :
    (id : ℕ) (runs : TaskStore) → menu_button id runs ≡ button_for (Tasks.get id runs)
unfolding menu_button
menu_button-button_for id runs = ground arith

act-IsSettled :
    (a : Action) (runs : TaskStore) (p : Panel) → HasRow a → IsSettled p → IsSettled (act a runs p)
unfolding h_show_context_menu h_hide_context_menu h_filter update should_component_update
act-IsSettled (mouse_down button client corner row_id is_new) runs p row h = ground arith
act-IsSettled (click is_new) runs p row h = ground arith
act-IsSettled (filter is_new) runs p row h = ground arith
act-IsSettled (runs_change is_new new) runs p row h = ground arith

act-drawn :
    (a : Action) (runs : TaskStore) (p : Panel)
    → HasRow a
    → IsSettled p
    → drawn (act a runs p) ≡ seen_after a runs (drawn p)
unfolding h_show_context_menu h_hide_context_menu h_filter update should_component_update
act-drawn (mouse_down button client corner row_id is_new) runs p row h =
    ground (arith, menu_button-button_for row_id runs)
act-drawn (click is_new) runs p row h = ground (arith, menu_button-button_for 0 runs)
act-drawn (filter is_new) runs p row h =
    ground
      (arith, menu_button-button_for p.sel_task_id runs, menu_button-button_for p.drawn_id runs)
act-drawn (runs_change is_new new) runs p row h = ground arith

-- Let nothing wait to be drawn, and let the rows on which the mouse goes down have ids other
-- than 0. However presses of the mouse, clicks, changes of the filter and changes of the runs
-- follow one another, the drawn menu is that of the run and at the place of the last press of
-- the right button, unless it was closed since. Its first button pauses a run that was running
-- and continues one that was pausing at the last press of the right button, closing or change
-- of the filter, and a run in no such state had no buttons: a change of the runs does not draw
-- the menu again. And nothing waits to be drawn.
pub run-seen_by :
    (actions : List Action) (runs : TaskStore) (p : Panel)
    → All HasRow actions
    → IsSettled p
    → (drawn (run actions runs p) ≡ seen_by actions runs (drawn p)) × IsSettled (run actions runs p)
unfolding run
run-seen_by [] runs p rows h = (refl, h)
run-seen_by (a ∷ rest) runs p rows h =
    let next = runs_after a runs in
    let (same, settled) =
      run-seen_by rest next (act a runs p) rows.1 (act-IsSettled a runs p rows.0 h) in
    (same ∙ ap (seen_by rest next) (act-drawn a runs p rows.0 h), settled)
