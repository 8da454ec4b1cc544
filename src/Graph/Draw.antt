-- ===== src/Graph/Draw.antt =====
-- `drawAll` of web/client/graph/graph_panel.tsx: the lines that it draws on the canvas.
use zmey.Base.{ℕ, zero, suc, Bool, true, false, Option, none, some, List, [], ◌∷◌, ◌++◌}
use zmey.JsMap.{JsMap}
use zmey.Store.PipelineTasks
use zmey.Types.{Point, PipelineTask}

-- `strokeStyle` is green or gray.
pub record Line : Type 0 where
  pub green : Bool
  pub from : Point
  pub to : Point

-- Is `isStartNext[ix]` truthy? `undefined` is not.
abbrev pub is_green : List ℕ → Bool
is_green [] = false
is_green (zero ∷ flags) = false
is_green (suc n ∷ flags) = true

abbrev pub rest_of : List ℕ → List ℕ
rest_of [] = []
rest_of (f ∷ flags) = flags

-- The inner `forEach`, over the next tasks and their flags. `none` is the TypeError that reading
-- `setts` of a missing task throws.
unfoldable pub draw_next : Point → List ℕ → List ℕ → JsMap PipelineTask → Option (List Line)
draw_next out [] flags m = some []
draw_next out (nt ∷ nts) flags m = elim (PipelineTasks.get nt m) [
  | none ↦ none
  | some next ↦ elim (draw_next out nts (rest_of flags) m) [
    | none ↦ none
    | some lines ↦
        some
          (record { green = is_green flags; from = out; to = next.setts.socket_in_point } ∷ lines)
  ]
]

unfoldable pub draw_tasks : List PipelineTask → JsMap PipelineTask → Option (List Line)
draw_tasks [] m = some []
draw_tasks (t ∷ ts) m =
    elim (draw_next t.setts.socket_out_point t.next_tasks_id t.is_start_next m) [
      | none ↦ none
      | some lines ↦ elim (draw_tasks ts m) [ none ↦ none | some more ↦ some (lines ++ more) ]
    ]

unfoldable pub draw_all : ℕ → JsMap PipelineTask → Option (List Line)
unfolding draw_tasks
draw_all ppl_id m = draw_tasks (PipelineTasks.get_by_ppl_id ppl_id m) m
