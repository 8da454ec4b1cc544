-- ===== src/Graph/Lines.antt =====
-- What `drawAll` of web/client/graph/graph_panel.tsx draws on a consistent store.
use zmey.Base.{
  ℕ, zero, suc, ◌≡◌, ◌≢◌, ◌↔◌, refl, true, false, Option, none, some, List, [], ◌∷◌, ◌++◌, arith,
  All, All-map, All-keep, ◌==◌,
}
use zmey.JsArray.{includes}
use zmey.JsMap
use zmey.JsMap.{JsMap, IsMap}
use zmey.JsMap.Laws.{get_of_has, get-entries}
use zmey.Types.{PipelineTask}
use zmey.Store.PipelineTasks
use zmey.Store.Laws.{get-task}
use zmey.Graph.Links.{Linked, next_stored}
use zmey.Graph.Draw.{Line, draw_next, draw_tasks, draw_all, is_green}

-- A connection: from which task, to which id, and its flag, if there is one.
pub record Edge : Type 0 where
  pub tail : PipelineTask
  pub head : ℕ
  pub flag : Option ℕ

-- The connections of `t` to the listed ids, with the flags in their order.
abbrev pub edges_to : PipelineTask → List ℕ → List ℕ → List Edge
edges_to t [] flags = []
edges_to t (n ∷ ns) [] = record { tail = t; head = n; flag = none } ∷ edges_to t ns []
edges_to t (n ∷ ns) (f ∷ flags) = record { tail = t; head = n; flag = some f } ∷ edges_to t ns flags

-- The connections that lead away from the listed tasks.
abbrev pub outgoing : List PipelineTask → List Edge
outgoing [] = []
outgoing (t ∷ ts) = edges_to t t.next_tasks_id t.is_start_next ++ outgoing ts

-- The line runs from the output socket of the one task to the input socket of the other, and is green
-- if the flag is there and not 0.
pub record Joins (m : JsMap PipelineTask) (e : Edge) (l : Line) : Type 0 where
  pub stored : (u : PipelineTask) × (JsMap.get e.head m ≡ some u) × (l.to ≡ u.setts.socket_in_point)
  pub starts : l.from ≡ e.tail.setts.socket_out_point
  pub coloured : (l.green ≡ true) ↔ ((f : ℕ) × (e.flag ≡ some f) × (f ≢ 0))

-- A line for each connection, in their order.
abbrev pub Drawn : JsMap PipelineTask → List Edge → List Line → Type 0
Drawn m [] [] = Unit {0}
Drawn m [] (l ∷ ls) = ⊥
Drawn m (e ∷ es) [] = ⊥
Drawn m (e ∷ es) (l ∷ ls) = Joins m e l × Drawn m es ls

Drawn-append :
    (m : JsMap PipelineTask) (es fs : List Edge) (ls ks : List Line)
    → Drawn m es ls
    → Drawn m fs ks
    → Drawn m (es ++ fs) (ls ++ ks)
Drawn-append m [] fs [] ks h k = k
Drawn-append m [] fs (l ∷ ls) ks h k = absurd h
Drawn-append m (e ∷ es) fs [] ks h k = absurd h
Drawn-append m (e ∷ es) fs (l ∷ ls) ks h k = (h.0, Drawn-append m es fs ls ks h.1 k)

-- The next tasks of a task are stored.
abbrev NextStored : JsMap PipelineTask → PipelineTask → Type 0
NextStored m t = (n : ℕ) → includes n t.next_tasks_id ≡ true → JsMap.has n m ≡ true

gray-none : (false ≡ true) ↔ ((f : ℕ) × (◌≡◌ {A = Option ℕ} none (some f)) × (f ≢ 0))
gray-none = ground arith

green-some :
    (f : ℕ) (flags : List ℕ)
    → (is_green (f ∷ flags) ≡ true) ↔ ((g : ℕ) × (some f ≡ some g) × (g ≢ 0))
green-some zero flags = ground arith
green-some (suc f) flags = (λ e. (suc f, refl, λ z. cc), λ h. refl)

draw_next_lem :
    (t : PipelineTask) (nts flags : List ℕ) (m : JsMap PipelineTask)
    → ((n : ℕ) → includes n nts ≡ true → JsMap.has n m ≡ true)
    → (lines : List Line) × (draw_next t.setts.socket_out_point nts flags m ≡ some lines)
      × Drawn m (edges_to t nts flags) lines
unfolding draw_next includes
draw_next_lem t [] flags m h = ([], refl, tt)
draw_next_lem t (nt ∷ nts) [] m h =
    let (u, e) = get_of_has nt m (h nt (ground arith)) in
    let (lines, run, drawn) = draw_next_lem t nts [] m (λ n i. h n (ground arith)) in
    (
      record { green = false; from = t.setts.socket_out_point; to = u.setts.socket_in_point }
          ∷ lines,
      ground (arith, get-task nt m, e, run),
      (record { stored = (u, e, refl); starts = refl; coloured = gray-none }, drawn),
    )
draw_next_lem t (nt ∷ nts) (f ∷ flags) m h =
    let (u, e) = get_of_has nt m (h nt (ground arith)) in
    let (lines, run, drawn) = draw_next_lem t nts flags m (λ n i. h n (ground arith)) in
    (
      record {
        green = is_green (f ∷ flags);
        from = t.setts.socket_out_point;
        to = u.setts.socket_in_point;
      }
          ∷ lines,
      ground (arith, get-task nt m, e, run),
      (record { stored = (u, e, refl); starts = refl; coloured = green-some f flags }, drawn),
    )

draw_tasks_lem :
    (ts : List PipelineTask) (m : JsMap PipelineTask)
    → All (NextStored m) ts
    → (lines : List Line) × (draw_tasks ts m ≡ some lines) × Drawn m (outgoing ts) lines
unfolding draw_tasks
draw_tasks_lem [] m h = ([], refl, tt)
draw_tasks_lem (t ∷ ts) m h =
    let (lines, run, drawn) = draw_next_lem t t.next_tasks_id t.is_start_next m h.0 in
    let (more, run', drawn') = draw_tasks_lem ts m h.1 in
    (
      lines ++ more,
      ground (arith, run, run'),
      Drawn-append m (edges_to t t.next_tasks_id t.is_start_next) (outgoing ts) lines more drawn
          drawn',
    )

values-All :
    (P : PipelineTask → Type 0) (m : JsMap PipelineTask)
    → All (λ e. P e.1) m
    → All P (JsMap.values m)
values-All P [] h = tt
values-All P (e ∷ m) h = (h.0, values-All P m h.1)

-- What holds of each stored task holds of the tasks of a pipeline.
pub All-get_by_ppl_id :
    (P : PipelineTask → Type 0) (ppl_id : ℕ) (m : JsMap PipelineTask)
    → IsMap m
    → ((k : ℕ) (t : PipelineTask) → JsMap.get k m ≡ some t → P t)
    → All P (PipelineTasks.get_by_ppl_id ppl_id m)
All-get_by_ppl_id P ppl_id m h f =
    All-keep P (λ t. t.ppl_id == ppl_id) (JsMap.values m)
      (values-All P m (All-map _ _ (λ e s. f e.0 e.1 s) m (get-entries m h)))

-- On a consistent Map of tasks `drawAll` does not throw, and draws a line for each connection
-- that leads away from a task of the pipeline, in their order: from the output socket of that
-- task to the input socket of the next one, green exactly if the connection has a flag other
-- than 0.
pub draw_all-outgoing :
    (ppl_id : ℕ) (m : JsMap PipelineTask)
    → IsMap m
    → Linked m
    → (lines : List Line) × (draw_all ppl_id m ≡ some lines)
      × Drawn m (outgoing (PipelineTasks.get_by_ppl_id ppl_id m)) lines
unfolding draw_all
draw_all-outgoing ppl_id m h linked =
    draw_tasks_lem (PipelineTasks.get_by_ppl_id ppl_id m) m
      (All-get_by_ppl_id (NextStored m) ppl_id m h (λ k t e n i. next_stored linked k t n e i))
