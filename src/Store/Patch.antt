-- ===== src/Store/Patch.antt =====
-- database.py: the name, notes and archive mark of a task, changed under a version number.
use backend_wrf.Base.{
  ℕ, ◌+◌, ◌≡◌, ◌≢◌, refl, String, ◌==◌, string_eq, ℕ_eq, eq_iff, nat_eq_iff, Bool, true, false, not,
  Option, none, some, List, [], ◌∷◌, arith, if◌then◌else◌,
}
use backend_wrf.Table.{find, insert_or_replace}
use backend_wrf.Table.Laws.{find-insert_or_replace}
use backend_wrf.Store.{Store, Metadata, Result, ok, err, value_error}

-- `changes`: the entries that the request gives, and the names of any others.
pub record Changes : Type 0 where
  pub name : Option String
  pub notes : Option String
  pub archived : Option Bool
  pub other_keys : List String

abbrev pub given {ℓ} : {A : Type ℓ} → Option A → A → A
given none a = a
given (some b) a = b

abbrev pub no_metadata : Metadata
no_metadata = record { name = ""; notes = ""; archived = false; version = 0; updated_at = none }

-- `metadata`
unfoldable pub metadata : String → Store → Metadata
metadata task_id s = given (find task_id s.metadata) no_metadata

-- `{**current, **changes, "version": version + 1, "updated_at": utc_now()}`
unfoldable pub apply_changes : String → ℕ → Changes → Metadata → Metadata
apply_changes now version c m = record {
  name = given c.name m.name;
  notes = given c.notes m.notes;
  archived = given c.archived m.archived;
  version = version + 1;
  updated_at = some now;
}

abbrev pub is_empty {ℓ} : {A : Type ℓ} → List A → Bool
is_empty [] = true
is_empty (x ∷ xs) = false

-- `patch_metadata`
unfoldable pub patch_metadata : String → String → ℕ → Changes → Store → Result Store Metadata
patch_metadata now task_id version c s =
    if not (is_empty c.other_keys)
    then err (value_error "不允许修改计算配置")
    else elim (find task_id s.tasks) [
      | none ↦ err (value_error "任务不存在")
      | some task ↦
          if not ((metadata task_id s).version == version)
          then err (value_error "任务说明已被其他操作修改，请刷新后重试")
          else let m = apply_changes now version c (metadata task_id s) in
            ok m (record s { metadata = insert_or_replace task_id m s.metadata })
    ]

is_empty_elim {ℓ} : {A : Type ℓ} (l : List A) → is_empty l ≡ true → l ≡ []
is_empty_elim [] h = refl
is_empty_elim (x ∷ l) h = absurd (cc)

-- What a patch that succeeds has done.
pub record Patched (now task_id : String) (version : ℕ) (c : Changes) (s t : Store) (m : Metadata)
    : Type 0 where
  pub was_current : (metadata task_id s).version ≡ version
  pub known_keys : c.other_keys ≡ []
  pub has_task : find task_id s.tasks ≢ none
  pub stored : metadata task_id t ≡ m
  pub new_name : (x : String) → c.name ≡ some x → m.name ≡ x
  pub old_name : c.name ≡ none → m.name ≡ (metadata task_id s).name
  pub new_notes : (x : String) → c.notes ≡ some x → m.notes ≡ x
  pub old_notes : c.notes ≡ none → m.notes ≡ (metadata task_id s).notes
  pub new_mark : (x : Bool) → c.archived ≡ some x → m.archived ≡ x
  pub old_mark : c.archived ≡ none → m.archived ≡ (metadata task_id s).archived
  pub next_version : m.version ≡ version + 1
  pub stamped : m.updated_at ≡ some now
  pub others : (j : String) → task_id ≢ j → metadata j t ≡ metadata j s
  pub tasks : t.tasks ≡ s.tasks

-- A patch that succeeds was made on the current version of the metadata of a task that is there, and
-- names no key but `name`, `notes` and `archived`. Each of these that it names has the given value
-- afterwards and each that it does not name keeps its value; the version is the next one and the time
-- is stored. No other task's metadata and no task changes.
pub patch_metadata-Patched :
    (now task_id : String) (version : ℕ) (c : Changes) (s t : Store) {m : Metadata}
    → patch_metadata now task_id version c s ≡ ok m t
    → Patched now task_id version c s t m
unfolding patch_metadata metadata apply_changes
patch_metadata-Patched now task_id version c s t {m} h =
    let m' : Metadata = apply_changes now version c (metadata task_id s) in
    record {
      was_current = ground (arith, nat_eq_iff (metadata task_id s).version version);
      stored =
          ground
            (arith, find-insert_or_replace task_id task_id m' s.metadata, eq_iff task_id task_id);
      known_keys = is_empty_elim c.other_keys (ground arith);
      has_task = λ e. absurd (ground arith);
      new_name = λ x e. ground arith;
      old_name = λ e. ground arith;
      new_notes = λ x e. ground arith;
      old_notes = λ e. ground arith;
      new_mark = λ x e. ground arith;
      old_mark = λ e. ground arith;
      next_version = ground arith;
      stamped = ground arith;
      others =
          λ j n. ground (arith, find-insert_or_replace task_id j m' s.metadata, eq_iff task_id j);
      tasks = ground arith;
    }

-- Of two patches made from one version only the first succeeds: no change is lost.
pub patch_metadata_stale :
    (now now' task_id : String) (version : ℕ) (c c' : Changes) (s t : Store) {m : Metadata}
    → patch_metadata now task_id version c s ≡ ok m t
    → c'.other_keys ≡ []
    → patch_metadata now' task_id version c' t ≡ err (value_error "任务说明已被其他操作修改，请刷新后重试")
unfolding patch_metadata
patch_metadata_stale now now' task_id version c c' s t {m} h known =
    let p = patch_metadata-Patched now task_id version c s t h in
    ground (arith, p.stored, p.tasks, p.next_version)
