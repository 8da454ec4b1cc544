-- ===== src/Status/Cells.antt =====
-- The cells of a row in web/client/task_status_widget/task_status_widget.tsx, and the name above the
-- table.
use zmey.Base.{
  ℕ, suc, ◌/◌, ◌%◌, ◌+◌, ◌<◌, ◌==◌, ltb, ◌≡◌, refl, Bool, true, false, Option, none, some, [], ◌∷◌,
  ◌++◌, String, if◌then◌else◌,
}
use zmey.JsMap.{JsMap}
use zmey.Store.PipelineTasks
use zmey.Store.Tasks.{TaskStore}
use zmey.DateFormat.{Text, Date, to_string, two_digits, date_format}
use zmey.DateFormat.Digits.{three_digits-to_string}
use zmey.DateFormat.Pattern.{pattern_milliseconds, date_format-milliseconds}
use zmey.Types.{
  PipelineTask, StateType, undefined, ready, start, running, pause, stop, completed, cancel,
  not_responding, state_to_string,
}
use zmey.Status.{Row}

-- The state with a number; `stateToString` returns nothing for another number.
abbrev pub state_of : ℕ → Option StateType
state_of n =
    if n == 0
    then some undefined
    else if n == 1
    then some ready
    else if n == 2
    then some start
    else if n == 3
    then some running
    else if n == 4
    then some pause
    else if n == 5
    then some stop
    else if n == 6
    then some completed
    else if n == 7
    then some StateType.error
    else if n == 8
    then some cancel
    else if n == 9
    then some not_responding
    else none

abbrev pub state_text : ℕ → Option String
state_text n = elim (state_of n) [ none ↦ none | some s ↦ some (state_to_string s) ]

pub record Cells : Type 0 where
  pub id : ℕ
  pub starter_name : String
  pub state : Option String
  pub progress : ℕ
  pub start_time : Text
  pub stop_time : Text
  pub result : String

-- `t.startTime` as a test
abbrev pub is_given : String → Bool
is_given String.[] = false
is_given (String.◌∷◌ ch s) = true

-- `shifted` makes the Date of a text, with the time zone's offset taken away from its minutes.
module _ (shifted : String → Date) where
  unfoldable pub time_cell : String → Text
  time_cell text = if is_given text then date_format (shifted text) pattern_milliseconds else []

  unfoldable pub cells_of : Row → Cells
  unfolding time_cell
  cells_of r = record {
    id = r.task.id;
    starter_name = r.starter_name;
    state = state_text r.task.state;
    progress = r.task.progress;
    start_time = time_cell r.task.start_time;
    stop_time = time_cell r.task.stop_time;
    result = r.task.result;
  }

-- `TaskName`
unfoldable pub task_name : TaskStore → JsMap PipelineTask → String
task_name s m = elim (PipelineTasks.get s.ppl_task_id m) [ none ↦ "" | some t ↦ t.name ]

-- The milliseconds as the cell shows them.
abbrev pub shown_milliseconds : ℕ → Text
shown_milliseconds n =
    if ltb n 10
    then b'0' ∷ (b'0' + n) ∷ []
    else (b'0' + n / 100) ∷ (b'0' + n / 10 % 10) ∷ (b'0' + n % 10) ∷ []

abbrev pub printed : Date → Text
printed d =
    to_string d.full_year
    ++ b'-' ∷ two_digits (to_string (suc d.month))
    ++ b'-' ∷ two_digits (to_string d.date)
    ++ b' ' ∷ two_digits (to_string d.hours)
    ++ b':' ∷ two_digits (to_string d.minutes)
    ++ b':' ∷ two_digits (to_string d.seconds)
    ++ b'.' ∷ shown_milliseconds d.milliseconds

time_cell-printed :
    (shifted : String → Date) (text : String)
    → is_given text ≡ true
    → (shifted text).milliseconds < 1000
    → time_cell shifted text ≡ printed (shifted text)
unfolding time_cell
time_cell-printed shifted text given h =
    let d = shifted text in
    rw (given, date_format-milliseconds d, three_digits-to_string d.milliseconds h) refl

-- The cells of a run that has both times show year, month, day, hours, minutes, seconds and
-- milliseconds of each, in this order and with the separators of the pattern, if the
-- milliseconds are below 1000. Those from 10 on have three digits, those below 10 only two.
pub cells_of-times :
    (shifted : String → Date) (r : Row)
    → is_given r.task.start_time ≡ true
    → (shifted r.task.start_time).milliseconds < 1000
    → is_given r.task.stop_time ≡ true
    → (shifted r.task.stop_time).milliseconds < 1000
    → ((cells_of shifted r).start_time ≡ printed (shifted r.task.start_time))
      × ((cells_of shifted r).stop_time ≡ printed (shifted r.task.stop_time))
unfolding cells_of
cells_of-times shifted r started h stopped k = (
  time_cell-printed shifted r.task.start_time started h,
  time_cell-printed shifted r.task.stop_time stopped k,
)
