-- ===== src/Store/Laws.antt =====
-- The stores' methods in terms of their Map.
use zmey.Base.{Bool, ◌==◌, ap, ℕ, ◌≡◌, true, some, arith, inl, inr, Option-cases}
use zmey.JsMap
use zmey.JsMap.{JsMap, changed}
use zmey.JsMap.Laws.{has-get, has-of_none, get-set}
use zmey.Types.{PipelineTask, Pipeline}
use zmey.Store.PipelineTasks
use zmey.Store.Pipelines

pub get-task : (id : ℕ) (m : JsMap PipelineTask) → PipelineTasks.get id m ≡ JsMap.get id m
unfolding PipelineTasks.get
get-task id m = elim (Option-cases (JsMap.get id m)) [
  | inl e ↦ ground (arith, e, has-of_none id m e)
  | inr (t, e) ↦ ground (arith, e, has-get id m t e)
]

pub upd-task :
    (t : PipelineTask) (m : JsMap PipelineTask)
    → JsMap.has t.id m ≡ true
    → PipelineTasks.upd t m ≡ JsMap.set t.id t m
unfolding PipelineTasks.upd
upd-task t m h = ground arith

pub get-pipeline : (id : ℕ) (m : JsMap Pipeline) → Pipelines.get id m ≡ JsMap.get id m
unfolding Pipelines.get
get-pipeline id m = elim (Option-cases (JsMap.get id m)) [
  | inl e ↦ ground (arith, e, has-of_none id m e)
  | inr (t, e) ↦ ground (arith, e, has-get id m t e)
]

pub upd-pipeline :
    (p : Pipeline) (m : JsMap Pipeline)
    → JsMap.has p.id m ≡ true
    → Pipelines.upd p m ≡ JsMap.set p.id p m
unfolding Pipelines.upd
upd-pipeline t m h = ground arith

-- The Map's keys are the ids of its pipelines.
abbrev pub AreKeyed : JsMap Pipeline → Type 0
AreKeyed m = (k : ℕ) (p : Pipeline) → JsMap.get k m ≡ some p → p.id ≡ k

abbrev pub with_selected : Bool → Pipeline → Pipeline
with_selected on p = record p { setts = record (p.setts) { is_selected = on } }

abbrev pub with_visible : Bool → Pipeline → Pipeline
with_visible on p = record p { setts = record (p.setts) { is_visible = on } }

module _ (id : ℕ) (on : Bool) (m : JsMap Pipeline) (keyed : AreKeyed m) (k : ℕ) where
  pub get-set_selected :
      JsMap.get k (Pipelines.set_selected id on m)
      ≡ changed (id == k) (with_selected on) (JsMap.get k m)
  unfolding Pipelines.set_selected
  get-set_selected = elim (Option-cases (JsMap.get id m)) [
    | inl e ↦ ground (arith, e, ap (λ (j : ℕ). JsMap.get j m))
    | inr (p, e) ↦
        let p' = with_selected on p in
        ground (
          arith,
          e,
          keyed id p e,
          get-set p.id k p' (JsMap.set id p' m),
          get-set id k p' m,
          ap (λ (j : ℕ). JsMap.get j m),
        )
  ]

  pub get-set_visible :
      JsMap.get k (Pipelines.set_visible id on m)
      ≡ changed (id == k) (with_visible on) (JsMap.get k m)
  unfolding Pipelines.set_visible
  get-set_visible = elim (Option-cases (JsMap.get id m)) [
    | inl e ↦ ground (arith, e, ap (λ (j : ℕ). JsMap.get j m))
    | inr (p, e) ↦
        let p' = with_visible on p in
        ground (
          arith,
          e,
          keyed id p e,
          get-set p.id k p' (JsMap.set id p' m),
          get-set id k p' m,
          ap (λ (j : ℕ). JsMap.get j m),
        )
  ]

pub upd-pipeline_as :
    (id : ℕ) (p : Pipeline) (m : JsMap Pipeline)
    → p.id ≡ id
    → JsMap.has id m ≡ true
    → Pipelines.upd p m ≡ JsMap.set id p m
upd-pipeline_as id p m e h =
    ground (arith, upd-pipeline p m, ap (λ (j : ℕ). JsMap.has j m), ap (λ (j : ℕ). JsMap.set j p m))

abbrev pub task_selected : Bool → PipelineTask → PipelineTask
task_selected on t = record t { setts = record (t.setts) { is_selected = on } }

-- The Map's keys are the ids of its tasks.
abbrev pub IsKeyed : JsMap PipelineTask → Type 0
IsKeyed m = (k : ℕ) (t : PipelineTask) → JsMap.get k m ≡ some t → t.id ≡ k

pub get-task_selected :
    (id : ℕ) (on : Bool) (m : JsMap PipelineTask) (k : ℕ)
    → IsKeyed m
    → JsMap.get k (PipelineTasks.set_selected id on m)
      ≡ changed (id == k) (task_selected on) (JsMap.get k m)
unfolding PipelineTasks.set_selected
get-task_selected id on m k keyed = elim (Option-cases (JsMap.get id m)) [
  | inl e ↦ ground (arith, e, ap (λ (j : ℕ). JsMap.get j m))
  | inr (t, e) ↦
      let t' = task_selected on t in
      ground (
        arith,
        e,
        keyed id t e,
        get-set t.id k t' (JsMap.set id t' m),
        get-set id k t' m,
        ap (λ (j : ℕ). JsMap.get j m),
      )
]
