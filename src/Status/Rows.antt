-- ===== src/Status/Rows.antt =====
-- Which runs the table of web/client/task_status_widget shows, and when it is built anew.
use zmey.Base.{
  ◌∙◌, All, ◌==◌, ◌≡◌, refl, not, ◌&&◌, ◌||◌, Bool, true, false, some, List, [], ◌∷◌, keep, inl,
  inr, Bool-cases, arith, map, length, String,
}
use text.Mathlib.TextPositions.{eq_refl}
use zmey.JsMap.{JsMap}
use zmey.Store.Tasks
use zmey.Store.Tasks.{TaskStore}
use zmey.Types.{Task, PipelineTask, Event, running, completed, error, state_number}
use zmey.Status.{
  Filter, Row, Widget, is_shown, starter_name, rows_of, has_new, differs, render_rows,
}

-- The conditions of the check boxes, together.
abbrev pub passes : Filter → Task → Bool
passes f t =
    (not f.only_running || t.state == state_number running)
    && ((not f.only_completed || t.state == state_number completed)
        && (not f.only_error || t.state == state_number error))

is_shown-passes : (f : Filter) (t : Task) → is_shown f t ≡ passes f t
unfolding is_shown
is_shown-passes f t = ground arith

-- The lists agree in `R`, place by place, as far as both go.
abbrev pub All₂ : (Task → Task → Type 0) → List Task → List Task → Type 0
All₂ R [] ys = Unit {0}
All₂ R (x ∷ xs) [] = Unit {0}
All₂ R (x ∷ xs) (y ∷ ys) = R x y × All₂ R xs ys

abbrev pub row_tasks : List Row → List Task
row_tasks = map (λ r. r.task)

-- If each run that meets all the conditions that are checked has a starter that is stored, the
-- table is built, and its rows are these runs in the order of the server.
pub rows_of-tasks :
    (f : Filter) (ts : List Task) (tasks : JsMap PipelineTask) (events : JsMap Event)
    → All (λ t. (name : String) × (starter_name t tasks events ≡ some name)) (keep (passes f) ts)
    → (rows : List Row) × (rows_of f ts tasks events ≡ some rows)
      × (row_tasks rows ≡ keep (passes f) ts)
unfolding rows_of
rows_of-tasks f [] tasks events h = ([], refl, refl)
rows_of-tasks f (t ∷ ts) tasks events h = elim (Bool-cases (passes f t)) [
  | inr hidden ↦
      let (rows, run, same) = rows_of-tasks f ts tasks events (rw hidden at h) in
      (rows, ground (arith, is_shown-passes f t), ground arith)
  | inl shown ↦
      let ((name, found), named) = rw shown at h in
      let (rows, run, same) = rows_of-tasks f ts tasks events named in
      (
        record { id = t.id; starter_name = name; task = t } ∷ rows,
        rw (is_shown-passes f t ∙ shown, found, run),
        rw (shown, same),
      )
]

-- Runs with one state, one progress and one start and stop time.
pub record LookAlike (n o : Task) : Type 0 where
  pub states : n.state ≡ o.state
  pub starts : n.start_time ≡ o.start_time
  pub stops : n.stop_time ≡ o.stop_time
  pub progresses : n.progress ≡ o.progress

is_equal-LookAlike : (n o : Task) → LookAlike n o → Tasks.is_equal n o ≡ true
unfolding Tasks.is_equal
is_equal-LookAlike n o h =
    ground
      (arith, h.states, h.starts, h.stops, h.progresses, eq_refl o.start_time, eq_refl o.stop_time)

-- Two runs that differ in their ids, their starters or their results count as equal.
differs-same :
    (news olds : List Task)
    → length news ≡ length olds
    → All₂ LookAlike news olds
    → differs news olds ≡ false
unfolding differs
differs-same [] olds e h = refl
differs-same (n ∷ ns) [] e h = absurd (omega arith)
differs-same (n ∷ ns) (o ∷ os) e h =
    ground (arith, is_equal-LookAlike n o h.0, differs-same ns os (omega (arith, e)) h.1)

-- With no filter changed, a list of runs as long as the one shown, in which each run has the
-- state, the progress, the start time and the stop time of the shown one in its place, leaves
-- the shown runs and rows, whatever the ids, starters and results are.
pub render_rows-stale :
    (f : Filter) (store : TaskStore) (tasks : JsMap PipelineTask) (events : JsMap Event)
    (w : Widget)
    → length store.tasks ≡ length w.tasks
    → All₂ LookAlike store.tasks w.tasks
    → render_rows f false store tasks events w ≡ some w
unfolding render_rows has_new
render_rows-stale f store tasks events w e h = ground (arith, differs-same store.tasks w.tasks e h)
