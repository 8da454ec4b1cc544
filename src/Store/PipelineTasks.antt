-- ===== src/Store/PipelineTasks.antt =====
-- web/client/store/store_pipeline_task.tsx
use zmey.Base.{
  ℕ, ℤ, List, keep, ◌==◌, ◌&&◌, bool_ne, String, Bool, Option, none, some, [], ◌∷◌, if◌then◌else◌,
  str_eq,
}
use zmey.JsMap
use zmey.JsMap.{JsMap}
use zmey.Types.{PipelineTask, TaskSetts, Point, Rect}

abbrev pub copy : PipelineTask → PipelineTask
copy ppt = record ppt {
  setts = record (ppt.setts) {
    socket_in_point = ppt.setts.socket_in_point;
    socket_in_rect = ppt.setts.socket_in_rect;
    socket_out_point = ppt.setts.socket_out_point;
    socket_out_rect = ppt.setts.socket_out_rect;
  };
  next_tasks_id = ppt.next_tasks_id;
  prev_tasks_id = ppt.prev_tasks_id;
  is_start_next = ppt.is_start_next;
}

unfoldable pub get : ℕ → JsMap PipelineTask → Option PipelineTask
get id m =
    if JsMap.has id m then elim (JsMap.get id m) [ none ↦ none | some v ↦ some (copy v) ] else none

abbrev pub get_by_ppl_id : ℕ → JsMap PipelineTask → List PipelineTask
get_by_ppl_id ppl_id m = keep (λ tt. tt.ppl_id == ppl_id) (JsMap.values m)

unfoldable pub get_by_name : ℕ → String → JsMap PipelineTask → Option PipelineTask
get_by_name ppl_id name [] = none
get_by_name ppl_id name ((k, v) ∷ m) =
    if v.ppl_id == ppl_id && str_eq v.name name then some (copy v) else get_by_name ppl_id name m

abbrev pub get_visible : ℕ → JsMap PipelineTask → List PipelineTask
get_visible ppl_id m = keep (λ tt. tt.ppl_id == ppl_id && tt.setts.is_visible) (JsMap.values m)

abbrev pub get_selected : ℕ → JsMap PipelineTask → List PipelineTask
get_selected ppl_id m = keep (λ tt. tt.ppl_id == ppl_id && tt.setts.is_selected) (JsMap.values m)

abbrev pub set_all : JsMap PipelineTask → JsMap PipelineTask → JsMap PipelineTask
set_all ppts m = ppts

unfoldable pub add : PipelineTask → JsMap PipelineTask → JsMap PipelineTask
add ppt m = if JsMap.has ppt.id m then m else JsMap.set ppt.id ppt m

unfoldable pub del : ℕ → JsMap PipelineTask → JsMap PipelineTask
del id m = if JsMap.has id m then JsMap.delete id m else m

unfoldable pub upd : PipelineTask → JsMap PipelineTask → JsMap PipelineTask
upd ppt m = if JsMap.has ppt.id m then JsMap.set ppt.id ppt m else m

-- A change of the object that the Map holds, which is then set again under its own id.
abbrev pub store_setts : ℕ → PipelineTask → TaskSetts → JsMap PipelineTask → JsMap PipelineTask
store_setts id ppt setts m =
    let ppt' = record ppt { setts = setts } in JsMap.set ppt.id ppt' (JsMap.set id ppt' m)

unfoldable pub set_visible : ℕ → Bool → JsMap PipelineTask → JsMap PipelineTask
set_visible id visible m = elim (JsMap.get id m) [
  | none ↦ m
  | some ppt ↦
      if bool_ne ppt.setts.is_visible visible
      then store_setts id ppt (record (ppt.setts) { is_visible = visible }) m
      else m
]

unfoldable pub set_selected : ℕ → Bool → JsMap PipelineTask → JsMap PipelineTask
set_selected id selected m = elim (JsMap.get id m) [
  | none ↦ m
  | some ppt ↦
      if bool_ne ppt.setts.is_selected selected
      then store_setts id ppt (record (ppt.setts) { is_selected = selected }) m
      else m
]

unfoldable pub set_moved : ℕ → Bool → JsMap PipelineTask → JsMap PipelineTask
set_moved id moved m = elim (JsMap.get id m) [
  | none ↦ m
  | some ppt ↦
      if bool_ne ppt.setts.is_moved moved
      then store_setts id ppt (record (ppt.setts) { is_moved = moved }) m
      else m
]

-- These two change a copy.
unfoldable pub set_position : ℕ → ℤ → ℤ → JsMap PipelineTask → JsMap PipelineTask
set_position pt_id pos_x pos_y m = elim (JsMap.get pt_id m) [
  | none ↦ m
  | some v ↦
      let ppt = copy v in
      JsMap.set ppt.id
        (record ppt { setts = record (ppt.setts) { position_x = pos_x; position_y = pos_y } }) m
]

unfoldable pub set_size : ℕ → ℤ → ℤ → JsMap PipelineTask → JsMap PipelineTask
set_size pt_id width height m = elim (JsMap.get pt_id m) [
  | none ↦ m
  | some v ↦
      let ppt = copy v in
      JsMap.set ppt.id
        (record ppt { setts = record (ppt.setts) { width = width; height = height } }) m
]

pub record Socket : Type 0 where
  pub point : Point
  pub rect : Rect

unfoldable pub set_sockets : ℕ → Socket → Socket → JsMap PipelineTask → JsMap PipelineTask
set_sockets pt_id input output m = elim (JsMap.get pt_id m) [
  | none ↦ m
  | some ppt ↦
      store_setts pt_id ppt
        (record (ppt.setts) {
          socket_in_point = input.point;
          socket_in_rect = input.rect;
          socket_out_point = output.point;
          socket_out_rect = output.rect;
        })
        m
]
