-- ===== src/Store/Tasks/Laws.antt =====
-- database.py: what the operations on tasks leave alone, and what they make of the task they are about.
use backend_wrf.Base.{
  ◌≡◌, refl, String, ◌==◌, string_eq, Option, none, some, inl, inr, if◌then◌else◌, Bool-cases, ◌∙◌,
  ap,
}
use backend_wrf.Json.{Dict}
use backend_wrf.Table.{Table, find, modify}
use backend_wrf.Table.Laws.{find-modify, on_some}
use backend_wrf.Store.{Store, Task, Incident}
use backend_wrf.Store.Tasks.{
  Env, Changes, changed_task, get_task, update_task, after_update, note_success, note_failure,
  record_incident, names_success, is_some_dict,
}

-- Of the store, `update` changes the tasks and the incidents only: `part` is what the incidents do
-- not reach.
module _ {A : Type 0} (part : Store → A)
    (keeps : (s : Store) (i : Table String Incident)
      → part (record s { incidents = i }) ≡ part s) where
  note_failure_keeps :
      (env : Env) (id : String) (t : Task) (f : Option (Option Dict)) (s : Store)
      → part (note_failure env id t f s) ≡ part s
  unfolding note_failure record_incident
  note_failure_keeps env id t none s = refl
  note_failure_keeps env id t (some none) s = refl
  note_failure_keeps env id t (some (some f)) s = elim (Bool-cases (is_some_dict f)) [
    | inl h ↦ rw h (keeps s _)
    | inr h ↦ rw h refl
  ]

  note_success_keeps :
      (env : Env) (id : String) (c : Option String) (s : Store)
      → part (note_success env id c s) ≡ part s
  unfolding note_success
  note_success_keeps env id c s = elim (Bool-cases (names_success c)) [
    | inl h ↦ rw h (keeps s _)
    | inr h ↦ rw h refl
  ]

  after_update_keeps :
      (env : Env) (id : String) (c : Changes) (u : Store) (o : Option Task)
      → part (after_update env id c u o) ≡ part u
  unfolding after_update
  after_update_keeps env id c u none = refl
  after_update_keeps env id c u (some t) =
      note_success_keeps env id c.status (note_failure env id t c.failure u)
      ∙ note_failure_keeps env id t c.failure u

pub tasks-update_task :
    (env : Env) (id : String) (c : Changes) (s : Store)
    → (update_task env id c s).tasks ≡ modify id (changed_task env.now c) s.tasks
unfolding update_task
tasks-update_task env id c s = after_update_keeps (λ u. u.tasks) (λ u i. refl) env id c _ _

pub attempts-update_task :
    (env : Env) (id : String) (c : Changes) (s : Store)
    → (update_task env id c s).attempts ≡ s.attempts
unfolding update_task
attempts-update_task env id c s = after_update_keeps (λ u. u.attempts) (λ u i. refl) env id c _ _

pub get_task-update_task :
    (env : Env) (id j : String) (c : Changes) (s : Store)
    → get_task j (update_task env id c s)
      ≡ (if id == j then on_some (changed_task env.now c) (get_task j s) else get_task j s)
unfolding get_task
get_task-update_task env id j c s =
    ap (λ t. find j t) (tasks-update_task env id c s)
    ∙ find-modify id j (changed_task env.now c) s.tasks

pub submissions-update_task :
    (env : Env) (id : String) (c : Changes) (s : Store)
    → (update_task env id c s).submissions ≡ s.submissions
unfolding update_task
submissions-update_task env id c s =
    after_update_keeps (λ u. u.submissions) (λ u i. refl) env id c _ _
