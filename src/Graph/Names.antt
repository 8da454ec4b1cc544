-- ===== src/Graph/Names.antt =====
-- The context menu of a task, which graph_task_context_menu.tsx of web/client/graph shows, on a
-- consistent store.
use zmey.Base.{ℕ, ◌+ℤ◌, ◌≡◌, refl, true, some, List, [], ◌∷◌, String, arith}
use zmey.JsArray.{includes}
use zmey.JsMap
use zmey.JsMap.{JsMap}
use zmey.JsMap.Laws.{get_of_has}
use zmey.Types.{PipelineTask}
use zmey.Store.Laws.{get-task}
use zmey.Graph.Links.{Linked, next_stored, prev_stored}
use zmey.Graph.View.{names_of, TaskMenu, render_menu}

-- The names are those of the stored tasks with the ids, in their order.
abbrev pub AreNamed : JsMap PipelineTask → List ℕ → List String → Type 0
AreNamed m [] [] = Unit
AreNamed m [] (n ∷ ns) = ⊥
AreNamed m (id ∷ ids) [] = ⊥
AreNamed m (id ∷ ids) (n ∷ ns) =
    ((t : PipelineTask) × (JsMap.get id m ≡ some t) × (t.name ≡ n)) × AreNamed m ids ns

names_of_lem :
    (ids : List ℕ) (m : JsMap PipelineTask)
    → ((n : ℕ) → includes n ids ≡ true → JsMap.has n m ≡ true)
    → (names : List String) × (names_of ids m ≡ some names) × AreNamed m ids names
unfolding names_of includes
names_of_lem [] m h = ([], refl, tt)
names_of_lem (id ∷ ids) m h =
    let (t, e) = get_of_has id m (h id (ground arith)) in
    let (names, run, named) = names_of_lem ids m (λ n i. h n (ground arith)) in
    (t.name ∷ names, ground (arith, get-task id m, e, run), ((t, e, refl), named))

-- On a consistent store the context menu of a stored task is drawn: it lists the names of the
-- next and of the previous tasks in their order, and the task can be started if it is
-- enabled.
pub render_menu-names :
    (id : ℕ) (t : PipelineTask) (m : JsMap PipelineTask)
    → Linked m
    → JsMap.get id m ≡ some t
    → (menu : TaskMenu) × (render_menu id m ≡ some (some menu))
      × (menu.can_start ≡ t.is_enabled)
      × AreNamed m t.next_tasks_id menu.next_names
      × AreNamed m t.prev_tasks_id menu.prev_names
unfolding render_menu
render_menu-names id t m linked e =
    let (nexts, next_run, next_named) =
      names_of_lem t.next_tasks_id m (λ n. next_stored linked id t n e) in
    let (prevs, prev_run, prev_named) =
      names_of_lem t.prev_tasks_id m (λ n. prev_stored linked id t n e) in
    (
      record {
        left = t.setts.position_x +ℤ t.setts.width;
        top = t.setts.position_y;
        can_start = t.is_enabled;
        next_names = nexts;
        prev_names = prevs;
      },
      ground (arith, get-task id m, e, next_run, prev_run),
      refl,
      next_named,
      prev_named,
    )
