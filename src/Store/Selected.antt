-- ===== src/Store/Selected.antt =====
-- The list of the selected pipelines after a change that selects and unselects none.
use zmey.Base.{
  ℕ, ◌≡◌, refl, ap, false, some, List, [], ◌∷◌, map, arith, ◌==◌, All, if◌then◌else◌, inl, inr,
  Bool-cases,
}
use zmey.JsMap
use zmey.JsMap.{JsMap, IsMap}
use zmey.JsMap.Laws.{get-set, IsMap-set}
use zmey.Types.{Pipeline}
use zmey.Store.Pipelines

abbrev pub KeyedEntries : JsMap Pipeline → Type 0
KeyedEntries = All (λ e. e.1.id ≡ e.0)

-- The pipeline `v` in the place of those with the id `k`.
abbrev pub replaced : ℕ → Pipeline → List Pipeline → List Pipeline
replaced k v = map (λ q. if q.id == k then v else q)

KeyedEntries-set :
    (k : ℕ) (v : Pipeline) (m : JsMap Pipeline)
    → v.id ≡ k
    → KeyedEntries m
    → KeyedEntries (JsMap.set k v m)
unfolding JsMap.set
KeyedEntries-set k v [] e h = (e, tt)
KeyedEntries-set k v ((j, u) ∷ m) e h = ground (arith, h, KeyedEntries-set k v m e h.1)

replaced_none :
    (k : ℕ) (v : Pipeline) (m : JsMap Pipeline)
    → KeyedEntries m
    → JsMap.has k m ≡ false
    → replaced k v (Pipelines.get_selected m) ≡ Pipelines.get_selected m
unfolding JsMap.has
replaced_none k v [] h e = refl
replaced_none k v ((j, u) ∷ m) h e = ground (arith, replaced_none k v m h.1)

pub get_selected-set :
    (k : ℕ) (v w : Pipeline) (m : JsMap Pipeline)
    → IsMap m
    → KeyedEntries m
    → JsMap.get k m ≡ some w
    → v.setts.is_selected ≡ w.setts.is_selected
    → Pipelines.get_selected (JsMap.set k v m) ≡ replaced k v (Pipelines.get_selected m)
unfolding JsMap.set JsMap.get
get_selected-set k v w [] u h e s = cc
get_selected-set k v w ((j, x) ∷ m) u h e s = elim (Bool-cases (j == k)) [
  | inl same ↦ ground (arith, u, h, e, s, replaced_none k v m h.1, ap (λ (i : ℕ). JsMap.has i m))
  | inr other ↦ ground (arith, u, h, e, s, get_selected-set k v w m u.1 h.1)
]

-- Resetting the flag of a pipeline that is first among the selected: the first is then that
-- pipeline, without its flag.
pub get_selected-set_change_task :
    (s : Pipeline) (ss : List Pipeline) (t : Pipeline) (m : JsMap Pipeline)
    → IsMap m
    → KeyedEntries m
    → Pipelines.get_selected m ≡ s ∷ ss
    → JsMap.get s.id m ≡ some t
    → t.id ≡ s.id
    → (s' : Pipeline) × (ss' : List Pipeline) × (Pipelines.get_selected
          (Pipelines.set_change_task s.id false m)
        ≡ s' ∷ ss')
      × (s'.id ≡ s.id)
      × (s'.setts.has_change_task ≡ false)
unfolding Pipelines.set_change_task
get_selected-set_change_task s ss t m u h sel e same =
    let id = s.id in
    let t' = record t { setts = record (t.setts) { has_change_task = false } } in
    let m₁ = JsMap.set id t' m in
    let first = get_selected-set id t' t m u h e refl in
    let again =
      get_selected-set t.id t' t' m₁ (IsMap-set id t' m u) (KeyedEntries-set id t' m same h)
        (ground (arith, get-set id t.id t' m)) refl in
    (
      t',
      replaced t.id t' (replaced id t' ss),
      ground (arith, e, first, again, sel, ap (replaced id t') sel, ap (replaced t.id t') first),
      same,
      refl,
    )
