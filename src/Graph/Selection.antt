-- ===== src/Graph/Selection.antt =====
-- `hTaskSelect` of web/client/graph/graph_panel.tsx: which task is selected afterwards.
use zmey.Base.{
  ℕ, ◌≡◌, refl, ap, Bool, true, false, not, ◌&&◌, ◌==◌, Option, none, some, List, [], ◌∷◌, ◌++◌,
  arith, inl, inr, if◌then◌else◌, Option-cases, Bool-cases, All, All-map,
}
use zmey.JsMap
use zmey.JsMap.{JsMap, changed, IsMap}
use zmey.JsMap.Laws.{get-entries, get_of_has, get-eq-none}
use zmey.Types.{PipelineTask}
use zmey.Client.{Client, returns, send, change_pipeline_task}
use zmey.Store.PipelineTasks
use zmey.Store.Laws.{get-task, IsKeyed, task_selected, get-task_selected}
use zmey.Graph.Handlers.{Panel, deselect_others, select_task, h_task_select}

abbrev pub selected_in : Option PipelineTask → Bool
selected_in none = false
selected_in (some t) = t.setts.is_selected

abbrev pub is_selected : ℕ → JsMap PipelineTask → Bool
is_selected k m = selected_in (JsMap.get k m)

-- Is a selected task with this id in the list?
abbrev listed : ℕ → List PipelineTask → Bool
listed k [] = false
listed k (t ∷ ts) = if t.id == k && t.setts.is_selected then true else listed k ts

IsKeyed-changed :
    (b : ℕ → Bool) (m m' : JsMap PipelineTask)
    → ((k : ℕ) → JsMap.get k m' ≡ changed (b k) (task_selected false) (JsMap.get k m))
    → IsKeyed m
    → IsKeyed m'
IsKeyed-changed b m m' spec keyed k t e = elim (Option-cases (JsMap.get k m)) [
  | inl gone ↦ ground (arith, spec k, gone)
  | inr (u, found) ↦ ground (arith, spec k, found, keyed k u)
]

pub deselect_others_lem :
    (id : ℕ) (ts : List PipelineTask) (c : Client)
    → IsKeyed c.pipeline_tasks
    → (k : ℕ)
    → JsMap.get k (deselect_others id ts c).pipeline_tasks
      ≡ changed (listed k ts && not (k == id)) (task_selected false) (JsMap.get k c.pipeline_tasks)
unfolding deselect_others
deselect_others_lem id [] c keyed k = ground arith
deselect_others_lem id (t ∷ ts) c keyed k =
    elim (Bool-cases (t.setts.is_selected && not (t.id == id))) [
      | inr skipped ↦ ground (arith, deselect_others_lem id ts c keyed k)
      | inl hit ↦
          let m = c.pipeline_tasks in
          let m₁ = PipelineTasks.set_selected t.id false m in
          let step = λ (j : ℕ). get-task_selected t.id false m j keyed in
          let keyed₁ = IsKeyed-changed (λ j. t.id == j) m m₁ step keyed in
          elim (Option-cases (JsMap.get t.id m₁)) [
            | inl gone ↦ ground (
              arith,
              deselect_others_lem id ts (record c { pipeline_tasks = m₁ }) keyed₁ k,
              step k,
            )
            | inr (t', found) ↦ ground (
              arith,
              deselect_others_lem id ts
                  (record c { pipeline_tasks = m₁; sent = c.sent ++ change_pipeline_task t' ∷ [] })
                  keyed₁ k,
              step k,
            )
          ]
    ]

listed-selected :
    (k : ℕ) (es : JsMap PipelineTask)
    → IsMap es
    → All (λ e. e.1.id ≡ e.0) es
    → listed k (JsMap.values es) ≡ is_selected k es
unfolding JsMap.get
listed-selected k [] h keyed = refl
listed-selected k ((j, t) ∷ es) h keyed =
    ground (
      arith,
      listed-selected k es h.1 keyed.1,
      get-eq-none j es h.0,
      ap (λ (i : ℕ). JsMap.get i es),
    )

-- If the store is a Map under the tasks' own ids and the task is stored, `hTaskSelect` returns,
-- and afterwards that task alone is selected.
pub h_task_select-alone :
    (id : ℕ) (p : Panel) (c : Client)
    → IsMap c.pipeline_tasks
    → IsKeyed c.pipeline_tasks
    → JsMap.has id c.pipeline_tasks ≡ true
    → (c' : Client) × ((h_task_select id p c).outcome ≡ returns c')
      × ((k : ℕ) → is_selected k c'.pipeline_tasks ≡ (id == k))
unfolding h_task_select select_task
h_task_select-alone id p c is_map keyed h =
    let m = c.pipeline_tasks in
    let ts = JsMap.values m in
    let c₁ = deselect_others id ts c in
    let m₁ = c₁.pipeline_tasks in
    let spec = deselect_others_lem id ts c keyed in
    let keyed₁ = IsKeyed-changed (λ k. listed k ts && not (k == id)) m m₁ spec keyed in
    let entries = All-map _ _ (λ e found. keyed e.0 e.1 found) m (get-entries m is_map) in
    let on = λ (k : ℕ). listed-selected k m is_map entries in
    let (t, e) = get_of_has id m h in
    let kept : JsMap.get id m₁ ≡ some t = ground (arith, spec id) in
    let spec₂ = λ (k : ℕ). get-task_selected id true m₁ k keyed₁ in
    elim (Bool-cases t.setts.is_selected) [
      | inl already ↦ (
        c₁,
        ground (arith, get-task id m₁),
        λ k. elim (Option-cases (JsMap.get k m)) [
          | inl gone ↦ ground (arith, spec k, gone, e, ap (λ (j : ℕ). JsMap.get j m))
          | inr (q, found) ↦ ground (arith, spec k, found, e, on k, ap (λ (j : ℕ). JsMap.get j m))
        ],
      )
      | inr off ↦ (
        send (change_pipeline_task t)
            (record c₁ { pipeline_tasks = PipelineTasks.set_selected id true m₁ }),
        ground (arith, get-task id m₁),
        λ k. elim (Option-cases (JsMap.get k m)) [
          | inl gone ↦ ground (arith, spec₂ k, spec k, gone, e, ap (λ (j : ℕ). JsMap.get j m))
          | inr (q, found) ↦
              ground (arith, spec₂ k, spec k, found, e, on k, ap (λ (j : ℕ). JsMap.get j m))
        ],
      )
    ]

-- If the tasks are stored under their own ids, selecting a stored task that is not selected
-- returns and sends the task as it was before, not selected, while the store holds it as
-- selected.
pub select_task-sends_old :
    (id : ℕ) (c : Client) (t : PipelineTask)
    → IsKeyed c.pipeline_tasks
    → JsMap.get id c.pipeline_tasks ≡ some t
    → t.setts.is_selected ≡ false
    → (c' : Client) × (select_task id c ≡ returns c')
      × (c'.sent ≡ c.sent ++ change_pipeline_task t ∷ [])
      × (JsMap.get id c'.pipeline_tasks ≡ some (task_selected true t))
unfolding select_task
select_task-sends_old id c t keyed e off = (
  record c {
    pipeline_tasks = PipelineTasks.set_selected id true c.pipeline_tasks;
    sent = c.sent ++ change_pipeline_task t ∷ [];
  },
  ground (arith, get-task id c.pipeline_tasks),
  refl,
  ground (arith, get-task_selected id true c.pipeline_tasks id keyed),
)
