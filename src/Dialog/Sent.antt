-- ===== src/Dialog/Sent.antt =====
-- What hSubmit of web/client/central_widget/pipeline_task_dialog.tsx sends, described on its own, and
-- read back as the server reads it.
use zmey.Base.{ℕ, ◌≡◌, refl, Bool, List, [], ◌∷◌, if◌then◌else◌}
use zmey.DateFormat.{to_string}
use zmey.Types.{PipelineTask, FormTask}
use zmey.Dialog.TaskForm.{Form, set_flags}

-- The object whose two ids are the texts of those of the task.
abbrev pub form_task : PipelineTask → FormTask
form_task t = record {
  id = t.id;
  ppl_id = to_string t.ppl_id;
  tt_id = to_string t.tt_id;
  is_enabled = t.is_enabled;
  next_tasks_id = t.next_tasks_id;
  prev_tasks_id = t.prev_tasks_id;
  is_start_next = t.is_start_next;
  params = t.params;
  name = t.name;
  description = t.description;
  setts = t.setts;
}

-- The flags: of each next task by its box, then the old ones that are left.
abbrev pub FlagsSet : (ℕ → Bool) → List ℕ → List ℕ → List ℕ → Type 0
FlagsSet g [] old new = new ≡ old
FlagsSet g (id ∷ ids) old [] = ⊥
FlagsSet g (id ∷ ids) [] (n ∷ new) = (n ≡ (if g id then 1 else 0)) × FlagsSet g ids [] new
FlagsSet g (id ∷ ids) (o ∷ old) (n ∷ new) = (n ≡ (if g id then 1 else 0)) × FlagsSet g ids old new

pub set_flags-FlagsSet :
    (g : ℕ → Bool) (ids flags : List ℕ) → FlagsSet g ids flags (set_flags g ids flags)
unfolding set_flags
set_flags-FlagsSet g [] flags = refl
set_flags-FlagsSet g (id ∷ ids) [] = (refl, set_flags-FlagsSet g ids [])
set_flags-FlagsSet g (id ∷ ids) (f ∷ flags) = (refl, set_flags-FlagsSet g ids flags)

-- `new` is `old` with what the form says, in the pipeline and the template with the ids; its
-- connections are kept if it stays in its pipeline, and else it has none.
pub record FollowsForm (old new : PipelineTask) (ppl_id tt_id : ℕ) (f : Form) (stays : Bool)
    : Type 0 where
  pub id : new.id ≡ old.id
  pub ppl : new.ppl_id ≡ ppl_id
  pub template : new.tt_id ≡ tt_id
  pub is_enabled : new.is_enabled ≡ old.is_enabled
  pub next : new.next_tasks_id ≡ (if stays then old.next_tasks_id else [])
  pub prev : new.prev_tasks_id ≡ (if stays then old.prev_tasks_id else [])
  pub flags : FlagsSet f.checked old.next_tasks_id old.is_start_next new.is_start_next
  pub params : new.params ≡ f.params
  pub name : new.name ≡ f.name
  pub description : new.description ≡ f.description
  pub setts : new.setts ≡ old.setts

-- The task that is edited, before its connections are taken away.
abbrev pub with_form : PipelineTask → ℕ → ℕ → Form → PipelineTask
with_form t ppl_id tt_id f = record t {
  ppl_id = ppl_id;
  tt_id = tt_id;
  is_start_next = set_flags f.checked t.next_tasks_id t.is_start_next;
  params = f.params;
  name = f.name;
  description = f.description;
}
