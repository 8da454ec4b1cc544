-- ===== src/Store/Tasks.antt =====
-- web/client/store/store_task.tsx: the runs of the selected pipeline task.
use zmey.Base.{ℕ, List, [], ◌∷◌, Bool, ◌&&◌, Option, none, some, if◌then◌else◌, ◌==◌, str_eq}
use zmey.Types.{Task}

pub record TaskStore : Type 0 where
  pub ppl_task_id : ℕ
  pub tasks : List Task

abbrev pub set_all : List Task → TaskStore → TaskStore
set_all tsk s = record s { tasks = tsk }

abbrev pub set_ppl_task_id : ℕ → TaskStore → TaskStore
set_ppl_task_id id s = record s { ppl_task_id = id }

find : ℕ → List Task → Option Task
find id [] = none
find id (t ∷ ts) = if t.id == id then some t else find id ts

unfoldable pub get : ℕ → TaskStore → Option Task
unfolding find
get id s = find id s.tasks

unfoldable pub is_equal : Task → Task → Bool
is_equal one two =
    one.state == two.state
    && (str_eq one.start_time two.start_time
        && (str_eq one.stop_time two.stop_time && one.progress == two.progress))
