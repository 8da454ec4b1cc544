-- ===== src/Graph/Dangling.antt =====
-- `drawAll` of web/client/graph/graph_panel.tsx where a task names a next task that is not stored.
use zmey.Base.{
  ℕ, ◌≡◌, ap, true, none, some, List, [], ◌∷◌, keep, arith, ◌==◌, inl, inr, Bool-cases,
  Option-cases,
}
use zmey.JsArray.{includes}
use zmey.JsMap
use zmey.JsMap.{JsMap}
use zmey.Types.{Point, PipelineTask}
use zmey.Client.{Client, throws}
use zmey.Store.Laws.{get-task}
use zmey.Graph.Draw.{draw_next, draw_tasks, draw_all, rest_of}
use zmey.Graph.Handlers.{redraw}

module _ (b : ℕ) (m : JsMap PipelineTask) (gone : JsMap.get b m ≡ none) where
  draw_next-none :
      (out : Point) (nts flags : List ℕ) → includes b nts ≡ true → draw_next out nts flags m ≡ none
  unfolding draw_next includes
  draw_next-none out [] flags h = cc
  draw_next-none out (n ∷ nts) flags h = elim (Bool-cases (b == n)) [
    | inl same ↦ ground (arith, same, get-task n m, gone, ap (λ (j : ℕ). JsMap.get j m))
    | inr other ↦ ground (arith, other, draw_next-none out nts (rest_of flags))
  ]

  draw_tasks-none :
      (a ppl_id : ℕ) (t : PipelineTask) (es : JsMap PipelineTask)
      → JsMap.get a es ≡ some t
      → includes b t.next_tasks_id ≡ true
      → (t.ppl_id == ppl_id) ≡ true
      → draw_tasks (keep (λ q. q.ppl_id == ppl_id) (JsMap.values es)) m ≡ none
  unfolding JsMap.get draw_tasks
  draw_tasks-none a ppl_id t [] e h own = cc
  draw_tasks-none a ppl_id t ((j, q) ∷ es) e h own = elim (Bool-cases (j == a)) [
    | inl same ↦ ground (
      arith,
      same,
      e,
      draw_next-none t.setts.socket_out_point t.next_tasks_id t.is_start_next h,
      own,
    )
    | inr other ↦
        let rest = draw_tasks-none a ppl_id t es (ground (arith, other, e)) h own in
        elim (Option-cases (draw_next q.setts.socket_out_point q.next_tasks_id q.is_start_next m)) [
          | inl stuck ↦ ground (arith, rest, stuck)
          | inr (lines, drawn) ↦ ground (arith, rest, drawn)
        ]
  ]

-- The panel of the task's pipeline cannot be drawn.
pub redraw-throws :
    (a b : ℕ) (t : PipelineTask) (c : Client)
    → JsMap.get a c.pipeline_tasks ≡ some t
    → includes b t.next_tasks_id ≡ true
    → JsMap.get b c.pipeline_tasks ≡ none
    → redraw t.ppl_id c ≡ throws c
unfolding redraw draw_all
redraw-throws a b t c e h gone = ground (
  arith,
  draw_tasks-none b c.pipeline_tasks gone a t.ppl_id t c.pipeline_tasks e h (ground arith),
)
