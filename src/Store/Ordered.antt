-- ===== src/Store/Ordered.antt =====
-- The store of pipelines as a Map under the pipelines' own ids, and what keeps it one.
use zmey.Base.{ℕ, ◌≡◌, refl, Bool, some, arith, ◌==◌, inl, inr, Option-cases, Bool-cases}
use zmey.JsMap
use zmey.JsMap.{JsMap, IsMap}
use zmey.JsMap.Laws.{get-set, get-delete, IsMap-set, IsMap-delete}
use zmey.Types.{Pipeline, PipelineSetts}
use zmey.Store.Pipelines
use zmey.Store.Laws.{AreKeyed}

-- What the handlers assume of the store: it is a Map under the pipelines' own ids.
pub record IsStore (m : JsMap Pipeline) : Type 0 where
  pub is_map : IsMap m
  pub keyed : AreKeyed m

pub IsStore-set :
    (k : ℕ) (p : Pipeline) (m : JsMap Pipeline) → p.id ≡ k → IsStore m → IsStore (JsMap.set k p m)
IsStore-set k p m own s = record {
  is_map = IsMap-set k p m s.is_map;
  keyed = λ j q e. elim (Bool-cases (k == j)) [
    | inl same ↦ ground (arith, get-set k j p m, e, own)
    | inr other ↦ ground (arith, get-set k j p m, e, s.keyed j q)
  ];
}

-- The settings of a stored pipeline are set.
store_setts-IsStore :
    (id : ℕ) (p : Pipeline) (setts : PipelineSetts) (m : JsMap Pipeline)
    → JsMap.get id m ≡ some p
    → IsStore m
    → IsStore (Pipelines.store_setts id p setts m)
store_setts-IsStore id p setts m e s =
    let p' = record p { setts = setts } in
    IsStore-set p.id p' (JsMap.set id p' m) refl (IsStore-set id p' m (s.keyed id p e) s)

module _ (id : ℕ) (on : Bool) (m : JsMap Pipeline) (s : IsStore m) where
  pub IsStore-set_visible : IsStore (Pipelines.set_visible id on m)
  unfolding Pipelines.set_visible
  IsStore-set_visible = elim (Option-cases (JsMap.get id m)) [
    | inl e ↦ ground (arith, e, s)
    | inr (p, e) ↦
        ground (arith, e, store_setts-IsStore id p (record (p.setts) { is_visible = on }) m e s)
  ]

  pub IsStore-set_selected : IsStore (Pipelines.set_selected id on m)
  unfolding Pipelines.set_selected
  IsStore-set_selected = elim (Option-cases (JsMap.get id m)) [
    | inl e ↦ ground (arith, e, s)
    | inr (p, e) ↦
        ground (arith, e, store_setts-IsStore id p (record (p.setts) { is_selected = on }) m e s)
  ]

  pub IsStore-set_change_task : IsStore (Pipelines.set_change_task id on m)
  unfolding Pipelines.set_change_task
  IsStore-set_change_task = elim (Option-cases (JsMap.get id m)) [
    | inl e ↦ ground (arith, e, s)
    | inr (p, e) ↦
        ground
          (arith, e, store_setts-IsStore id p (record (p.setts) { has_change_task = on }) m e s)
  ]

pub IsStore-upd : (p : Pipeline) (m : JsMap Pipeline) → IsStore m → IsStore (Pipelines.upd p m)
unfolding Pipelines.upd
IsStore-upd p m s = elim (Bool-cases (JsMap.has p.id m)) [
  | inl old ↦ ground (arith, old, IsStore-set p.id p m refl s)
  | inr new ↦ ground (arith, new, s)
]

pub IsStore-add : (p : Pipeline) (m : JsMap Pipeline) → IsStore m → IsStore (Pipelines.add p m)
unfolding Pipelines.add
IsStore-add p m s = elim (Bool-cases (JsMap.has p.id m)) [
  | inl old ↦ ground (arith, old, s)
  | inr new ↦ ground (arith, new, IsStore-set p.id p m refl s)
]

pub IsStore-del : (id : ℕ) (m : JsMap Pipeline) → IsStore m → IsStore (Pipelines.del id m)
unfolding Pipelines.del
IsStore-del id m s =
    let s' : IsStore (JsMap.delete id m) = record {
      is_map = IsMap-delete id m s.is_map;
      keyed = λ k q e. s.keyed k q (ground (arith, e, get-delete id k m));
    } in
    elim (Bool-cases (JsMap.has id m)) [
      | inl stored ↦ ground (arith, stored, s')
      | inr gone ↦ ground (arith, gone, s)
    ]
