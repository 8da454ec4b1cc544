-- ===== src/Session/TabStore.antt =====
-- The methods of the store of pipelines in web/client/store/store_pipeline.tsx: a selected pipeline
-- keeps its tab.
use zmey.Base.{
  ℕ, ◌≡◌, refl, ap, sym, ◌∙◌, Bool, true, none, some, arith, ◌==◌, if◌then◌else◌, inl, inr,
  Bool-cases, Option-cases,
}
use zmey.JsMap
use zmey.JsMap.{JsMap}
use zmey.JsMap.Laws.{get-set}
use zmey.Types.{Pipeline}
use zmey.Store.Pipelines
use zmey.Store.Refine.{get-del_shared}
use zmey.Store.Ordered.{IsStore-set, IsStore-set_change_task, IsStore-del}
use zmey.Central.Select.{is_selected, is_visible}
use zmey.Session.Tabs.{IsTabbed}

-- A pipeline with a tab, if it is selected.
abbrev pub HasTab : Pipeline → Type 0
HasTab p = p.setts.is_selected ≡ true → p.setts.is_visible ≡ true

set-IsTabbed :
    (p : Pipeline) (m : JsMap Pipeline) → HasTab p → IsTabbed m → IsTabbed (JsMap.set p.id p m)
set-IsTabbed p m tab h = record {
  store = IsStore-set p.id p m refl h.store;
  seen = λ k on. elim (Bool-cases (p.id == k)) [
    | inl same ↦ ground (arith, get-set p.id k p m, same, on, tab)
    | inr other ↦ ground (arith, get-set p.id k p m, other, on, h.seen k)
  ];
}

pub add-IsTabbed :
    (p : Pipeline) (m : JsMap Pipeline) → HasTab p → IsTabbed m → IsTabbed (Pipelines.add p m)
unfolding Pipelines.add
add-IsTabbed p m tab h = elim (Bool-cases (JsMap.has p.id m)) [
  | inl old ↦ ground (arith, old, h)
  | inr new ↦ ground (arith, new, set-IsTabbed p m tab h)
]

pub upd-IsTabbed :
    (p : Pipeline) (m : JsMap Pipeline) → HasTab p → IsTabbed m → IsTabbed (Pipelines.upd p m)
unfolding Pipelines.upd
upd-IsTabbed p m tab h = elim (Bool-cases (JsMap.has p.id m)) [
  | inl old ↦ ground (arith, old, set-IsTabbed p m tab h)
  | inr new ↦ ground (arith, new, h)
]

get-del :
    (id k : ℕ) (m : JsMap Pipeline)
    → JsMap.get k (Pipelines.del id m) ≡ (if id == k then none else JsMap.get k m)
unfolding Pipelines.del
get-del id k m = get-del_shared id k m

pub del-IsTabbed : (id : ℕ) (m : JsMap Pipeline) → IsTabbed m → IsTabbed (Pipelines.del id m)
del-IsTabbed id m h = record {
  store = IsStore-del id m h.store;
  seen = λ k on. ground (arith, get-del id k m, on, h.seen k);
}

same-set_change_task :
    (id : ℕ) (on : Bool) (m : JsMap Pipeline) (k : ℕ)
    → ((j : ℕ) (p : Pipeline) → JsMap.get j m ≡ some p → p.id ≡ j)
    → (is_selected k (Pipelines.set_change_task id on m) ≡ is_selected k m)
      × (is_visible k (Pipelines.set_change_task id on m) ≡ is_visible k m)
unfolding Pipelines.set_change_task
same-set_change_task id on m k keyed = elim (Option-cases (JsMap.get id m)) [
  | inl gone ↦ (ground (arith, gone), ground (arith, gone))
  | inr (p, e) ↦
      let p' = record p { setts = record (p.setts) { has_change_task = on } } in
      let first = get-set id k p' m in
      let second = get-set p.id k p' (JsMap.set id p' m) in
      let own = keyed id p e in
      (
        ground (arith, e, first, second, own, ap (λ (j : ℕ). JsMap.get j m)),
        ground (arith, e, first, second, own, ap (λ (j : ℕ). JsMap.get j m)),
      )
]

pub set_change_task-IsTabbed :
    (id : ℕ) (on : Bool) (m : JsMap Pipeline)
    → IsTabbed m
    → IsTabbed (Pipelines.set_change_task id on m)
set_change_task-IsTabbed id on m h = record {
  store = IsStore-set_change_task id on m h.store;
  seen = λ k sel.
      let (same_sel, same_vis) = same-set_change_task id on m k h.store.keyed in
      same_vis ∙ h.seen k (sym same_sel ∙ sel);
}
