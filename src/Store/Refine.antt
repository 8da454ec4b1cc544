-- ===== src/Store/Refine.antt =====
-- The four stores of objects in web/client/store have the interface.
use zmey.Base.{
  ℕ, ◌≡◌, ap, sym, ◌∙◌, Option, none, some, List, arith, ◌==◌, if◌then◌else◌, inl, inr, Bool-cases,
  Option-cases,
}
use zmey.JsMap
use zmey.JsMap.{JsMap}
use zmey.JsMap.Laws.{get-set, get-delete, get-eq-none, has-get, has-of_none, get_of_has}
use zmey.Client.{Client}
use zmey.Types.{Pipeline, PipelineTask, TaskTemplate, Event}
use zmey.Store.Pipelines
use zmey.Store.PipelineTasks
use zmey.Store.TaskTemplates
use zmey.Store.Events
use zmey.Store.Interface.{Store, added, updated, Call, AreKeyed, Refines, run_lem}

-- The code that the stores share.
module _ {V : Type 0} (i : ℕ) (v : V) (m : JsMap V) (k : ℕ) where
  pub get-add_shared :
      JsMap.get k (if JsMap.has i m then m else JsMap.set i v m) ≡ added (i == k) v (JsMap.get k m)
  get-add_shared = elim (Bool-cases (JsMap.has i m)) [
    | inl found ↦
        let (w, e) = get_of_has i m found in ground (arith, found, e, ap (λ (j : ℕ). JsMap.get j m))
    | inr gone ↦
        ground (arith, gone, get-set i k v m, get-eq-none i m, ap (λ (j : ℕ). JsMap.get j m))
  ]

  pub get-upd_shared :
      JsMap.get k (if JsMap.has i m then JsMap.set i v m else m)
      ≡ updated (i == k) v (JsMap.get k m)
  get-upd_shared = elim (Bool-cases (JsMap.has i m)) [
    | inl found ↦
        let (w, e) = get_of_has i m found in
        ground (arith, found, e, get-set i k v m, ap (λ (j : ℕ). JsMap.get j m))
    | inr gone ↦ ground (arith, gone, get-eq-none i m, ap (λ (j : ℕ). JsMap.get j m))
  ]

pub get-del_shared :
    {V : Type 0} (i k : ℕ) (m : JsMap V)
    → JsMap.get k (if JsMap.has i m then JsMap.delete i m else m)
      ≡ (if i == k then none else JsMap.get k m)
get-del_shared i k m = elim (Bool-cases (JsMap.has i m)) [
  | inl found ↦ ground (arith, found, get-delete i k m)
  | inr gone ↦ ground (arith, gone, get-eq-none i m, ap (λ (j : ℕ). JsMap.get j m))
]

pub get_shared :
    {V : Type 0} (i : ℕ) (m : JsMap V)
    → (if JsMap.has i m then elim (JsMap.get i m) [ none ↦ none | some v ↦ some v ] else none)
      ≡ JsMap.get i m
get_shared i m = elim (Option-cases (JsMap.get i m)) [
  | inl e ↦ ground (arith, e, has-of_none i m e)
  | inr (t, e) ↦ ground (arith, e, has-get i m t e)
]

unfoldable pub pipelines : Store Pipeline
unfolding Pipelines.get Pipelines.add Pipelines.upd Pipelines.del
pipelines = record {
  id_of = λ v. v.id;
  get = Pipelines.get;
  add = Pipelines.add;
  del = Pipelines.del;
  upd = Pipelines.upd;
  get-add = λ k v m.
      get_shared k (Pipelines.add v m)
      ∙ get-add_shared v.id v m k
      ∙ ap (added (v.id == k) v) (sym (get_shared k m));
  get-upd = λ k v m.
      get_shared k (Pipelines.upd v m)
      ∙ get-upd_shared v.id v m k
      ∙ ap (updated (v.id == k) v) (sym (get_shared k m));
  get-del = λ i k m.
      get_shared k (Pipelines.del i m)
      ∙ get-del_shared i k m
      ∙ ap (λ (o : Option Pipeline). if i == k then none else o) (sym (get_shared k m));
}

unfoldable pub pipeline_tasks : Store PipelineTask
unfolding PipelineTasks.get PipelineTasks.add PipelineTasks.upd PipelineTasks.del
pipeline_tasks = record {
  id_of = λ v. v.id;
  get = PipelineTasks.get;
  add = PipelineTasks.add;
  del = PipelineTasks.del;
  upd = PipelineTasks.upd;
  get-add = λ k v m.
      get_shared k (PipelineTasks.add v m)
      ∙ get-add_shared v.id v m k
      ∙ ap (added (v.id == k) v) (sym (get_shared k m));
  get-upd = λ k v m.
      get_shared k (PipelineTasks.upd v m)
      ∙ get-upd_shared v.id v m k
      ∙ ap (updated (v.id == k) v) (sym (get_shared k m));
  get-del = λ i k m.
      get_shared k (PipelineTasks.del i m)
      ∙ get-del_shared i k m
      ∙ ap (λ (o : Option PipelineTask). if i == k then none else o) (sym (get_shared k m));
}

unfoldable pub task_templates : Store TaskTemplate
unfolding TaskTemplates.get TaskTemplates.add TaskTemplates.upd TaskTemplates.del
task_templates = record {
  id_of = λ v. v.id;
  get = TaskTemplates.get;
  add = TaskTemplates.add;
  del = TaskTemplates.del;
  upd = TaskTemplates.upd;
  get-add = λ k v m.
      get_shared k (TaskTemplates.add v m)
      ∙ get-add_shared v.id v m k
      ∙ ap (added (v.id == k) v) (sym (get_shared k m));
  get-upd = λ k v m.
      get_shared k (TaskTemplates.upd v m)
      ∙ get-upd_shared v.id v m k
      ∙ ap (updated (v.id == k) v) (sym (get_shared k m));
  get-del = λ i k m.
      get_shared k (TaskTemplates.del i m)
      ∙ get-del_shared i k m
      ∙ ap (λ (o : Option TaskTemplate). if i == k then none else o) (sym (get_shared k m));
}

unfoldable pub events : Store Event
unfolding Events.get Events.add Events.upd Events.del
events = record {
  id_of = λ v. v.id;
  get = Events.get;
  add = Events.add;
  del = Events.del;
  upd = Events.upd;
  get-add = λ k v m.
      get_shared k (Events.add v m)
      ∙ get-add_shared v.id v m k
      ∙ ap (added (v.id == k) v) (sym (get_shared k m));
  get-upd = λ k v m.
      get_shared k (Events.upd v m)
      ∙ get-upd_shared v.id v m k
      ∙ ap (updated (v.id == k) v) (sym (get_shared k m));
  get-del = λ i k m.
      get_shared k (Events.del i m)
      ∙ get-del_shared i k m
      ∙ ap (λ (o : Option Event). if i == k then none else o) (sym (get_shared k m));
}

-- Let the objects of the four stores be under their own ids. Whatever calls of `add`, `upd`
-- and `del` follow, what `get` returns for an id is what it returned before, changed by the
-- calls for this id: `add` keeps an object that is there, `upd` brings in none, and `del`
-- removes it. The objects are under their own ids again.
pub stores-refine :
    (ps : List (Call Pipeline)) (ts : List (Call PipelineTask)) (tts : List (Call TaskTemplate))
    → (es : List (Call Event)) → (c : Client) → AreKeyed pipelines c.pipelines
    → AreKeyed pipeline_tasks c.pipeline_tasks
    → AreKeyed task_templates c.task_templates
    → AreKeyed events c.events
    → Refines pipelines ps c.pipelines
      × Refines pipeline_tasks ts c.pipeline_tasks
      × Refines task_templates tts c.task_templates
      × Refines events es c.events
stores-refine ps ts tts es c kp kt ktt ke = (
  run_lem pipelines ps c.pipelines kp,
  run_lem pipeline_tasks ts c.pipeline_tasks kt,
  run_lem task_templates tts c.task_templates ktt,
  run_lem events es c.events ke,
)
