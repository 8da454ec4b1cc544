-- ===== src/Graph/Drop.antt =====
-- `hMouseUp` of web/client/graph/graph_panel.tsx as a whole: dropping a captured socket.
use zmey.Base.{ℕ, ◌≡◌, subst, ap, ◌∙◌, Bool, true, false, ◌||◌, List, arith, ◌==◌}
use zmey.JsArray.{includes}
use zmey.JsMap
use zmey.JsMap.{JsMap, IsMap, changed}
use zmey.JsMap.Laws.{has-get, get_of_has}
use zmey.Types.{Point, PipelineTask}
use zmey.Client.{Client, returns, final}
use zmey.Store.PipelineTasks
use zmey.Store.Laws.{get-task}
use zmey.Graph.Links.{Linked, IsAligned, IsKeyed, has_next}
use zmey.Graph.Domain.{IsDomain, set-IsDomain, connect_all-Holds}
use zmey.Graph.Consistent.{IsConsistent, set_moved-IsDomain}
use zmey.Graph.Panel.{SocketType, input}
use zmey.Graph.Loop.{Connects, AllStored, over_ids, is_new, connect_all-Connects}
use zmey.Graph.Lines.{All-get_by_ppl_id, draw_all-outgoing}
use zmey.Graph.Settings.{
  moved, set_moved-Resets, Linked-Resets, IsAligned-Resets, IsKeyed-Resets, has_next-Resets,
}
use zmey.Graph.Handlers.{Panel, auto_cursor, h_mouse_up, drop_socket, redraw}

-- What dropping a socket promises of the store before and after it.
pub record Connected (type : SocketType) (id : ℕ) (ids : List ℕ) (m m' : JsMap PipelineTask)
    : Type 0 where
  pub linked : Linked m'
  pub aligned : IsAligned m'
  pub keyed : IsKeyed m'
  pub edges : (a b : ℕ) → has_next a b m' ≡ (has_next a b m || is_new type id a b ids)

Connects-set_moved :
    (id : ℕ) (on : Bool) (m : JsMap PipelineTask) (type : SocketType) (captured : ℕ) (ids : List ℕ)
    (m₀ : JsMap PipelineTask)
    → Connects type captured ids m₀ m
    → Connects type captured ids m₀ (PipelineTasks.set_moved id on m)
Connects-set_moved id on m type captured ids m₀ h =
    let m' = PipelineTasks.set_moved id on m in
    let resets = set_moved-Resets id m h.keyed on in
    record {
      linked = Linked-Resets id (moved on) m m' resets h.linked;
      aligned = λ aligned. IsAligned-Resets id (moved on) m m' resets (h.aligned aligned);
      keyed = IsKeyed-Resets id (moved on) m m' resets h.keyed;
      edges = λ a b. has_next-Resets id (moved on) m m' resets a b ∙ h.edges a b;
    }

-- The ids of the tasks of the panel's pipeline whose other socket is under the mouse.
abbrev pub hits : Point → Panel → Client → List ℕ
hits mpos p c =
    over_ids p.captured_type mpos (PipelineTasks.get_by_ppl_id p.ppl_id c.pipeline_tasks)

-- The panel after a drop that returns.
abbrev pub released_panel : Panel → Panel
released_panel p = record p { captured_id = 0; captured_type = input; mouse_cursor = auto_cursor }

-- A drop on a consistent store.
pub h_mouse_up-Connects :
    (mpos : Point) (p : Panel) (c : Client)
    → IsConsistent c.pipeline_tasks
    → JsMap.has p.captured_id c.pipeline_tasks ≡ true
    → includes p.captured_id (hits mpos p c) ≡ false
    → (c' : Client) × (h_mouse_up mpos p c
        ≡ record { panel = released_panel p; outcome = returns c' })
      × IsDomain c'.pipeline_tasks
      × Connects p.captured_type p.captured_id (hits mpos p c) c.pipeline_tasks c'.pipeline_tasks
unfolding h_mouse_up drop_socket redraw
h_mouse_up-Connects mpos p c h stored apart =
    let m = c.pipeline_tasks in
    let pts = PipelineTasks.get_by_ppl_id p.ppl_id m in
    let (task, e) = get_of_has p.captured_id m stored in
    let listed : AllStored pts m = All-get_by_ppl_id _ p.ppl_id m h.domain.is_map (λ k t found. (
      has-get t.id m t (ap (λ (j : ℕ). JsMap.get j m) (h.keyed k t found) ∙ found),
      λ z. ground (
        arith,
        z,
        h.keyed k t found,
        h.domain.no_zero,
        has-get k m t found,
        ap (λ (j : ℕ). JsMap.has j m),
      ),
    )) in
    let (c₁, run, done) =
      connect_all-Connects p.captured_type mpos p.captured_id pts task c
        (record { linked = h.linked; keyed = h.keyed; fresh = e }) listed apart in
    let m₁ = c₁.pipeline_tasks in
    let domain₁ : IsDomain m₁ =
      subst (λ o. IsDomain (final o).pipeline_tasks) run
        (connect_all-Holds IsDomain set-IsDomain p.captured_type mpos task pts c h.domain) in
    let m₂ = PipelineTasks.set_moved task.id false m₁ in
    let domain₂ = set_moved-IsDomain task.id m₁ done.keyed domain₁ false in
    let done₂ = Connects-set_moved task.id false m₁ _ _ _ m done in
    let (lines, drawn, _) = draw_all-outgoing p.ppl_id m₂ domain₂.is_map done₂.linked in
    let nonzero : (p.captured_id == 0) ≡ false =
      ground (arith, stored, h.domain.no_zero, ap (λ (j : ℕ). JsMap.has j m)) in
    (
      record c₁ { pipeline_tasks = m₂ },
      ground (arith, get-task p.captured_id m, e, run, drawn, nonzero),
      domain₂,
      done₂,
    )

-- Let the store be a consistent Map with a flag for each connection and the tasks under their
-- own ids, none of them 0. If the captured task is stored and its own other socket is not under
-- the mouse, `hMouseUp` returns and releases the socket, the store is as consistent as before,
-- and exactly the connections between the captured task and the tasks of the pipeline under the
-- mouse are added.
pub h_mouse_up-Connected :
    (mpos : Point) (p : Panel) (c : Client)
    → IsMap c.pipeline_tasks
    → Linked c.pipeline_tasks
    → IsAligned c.pipeline_tasks
    → IsKeyed c.pipeline_tasks
    → JsMap.has 0 c.pipeline_tasks ≡ false
    → JsMap.has p.captured_id c.pipeline_tasks ≡ true
    → includes p.captured_id (hits mpos p c) ≡ false
    → (c' : Client) × (h_mouse_up mpos p c ≡ record {
      panel = record p { captured_id = 0; captured_type = input; mouse_cursor = auto_cursor };
      outcome = returns c';
    })
      × Connected p.captured_type p.captured_id (hits mpos p c) c.pipeline_tasks c'.pipeline_tasks
h_mouse_up-Connected mpos p c is_map linked aligned keyed no_zero stored apart =
    let consistent : IsConsistent c.pipeline_tasks = record {
      domain = record { is_map = is_map; no_zero = no_zero };
      linked = linked;
      keyed = keyed;
    } in
    let (c', run, _, done) = h_mouse_up-Connects mpos p c consistent stored apart in
    (
      c',
      run,
      record {
        linked = done.linked;
        aligned = done.aligned aligned;
        keyed = done.keyed;
        edges = done.edges;
      },
    )
