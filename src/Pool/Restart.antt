-- ===== src/Pool/Restart.antt =====
-- scripts/forcing_pool_queue.py: what a starting worker makes of the downloads that a stopped one left.
use backend_wrf.Base.{
  ℕ, ◌≡◌, ◌≢◌, ◌⊎◌, Option, none, some, refl, sym, ap, ◌∙◌, string_eq, ℕ_eq, String, Bool, true,
  false, Bool-cases, Option-cases, inl, inr, [], ◌∷◌, arith,
}
use backend_wrf.Table.{Table, find, map_rows, any_row}
use backend_wrf.Table.Laws.{find-map_rows, on_some}
use backend_wrf.Pool.{
  Status, queued, downloading, ready, failed, retry_wait, rate_limited, cancelled, obsolete, Entry,
  Cycle, Pool, Clock,
}
use backend_wrf.Pool.References.{is_downloading}
use backend_wrf.Pool.Download.{
  entry_at, interrupted, has_download, recover_cycle, recover_interrupted_downloads,
}

-- no entry is left in the status `downloading`
abbrev pub AllStopped : Pool → Type 0
AllStopped q = any_row has_download q.cycles ≡ false

module _ {ℓ κ} {K : Type ℓ} {V : Type κ} where
  any_row-map_rows_none :
      (p : V → Bool) (f : V → V)
      → ((v : V) → p (f v) ≡ false)
      → (t : Table K V) → any_row p (map_rows f t) ≡ false
  unfolding any_row map_rows
  any_row-map_rows_none p f h [] = refl
  any_row-map_rows_none p f h ((j, v) ∷ t) = ground (arith, h v, any_row-map_rows_none p f h t)

  map_rows_same :
      (p : V → Bool) (f : V → V)
      → ((v : V) → p v ≡ false → f v ≡ v)
      → (t : Table K V) → any_row p t ≡ false
      → map_rows f t ≡ t
  unfolding any_row map_rows
  map_rows_same p f h [] n = refl
  map_rows_same p f h ((j, v) ∷ t) n = ground (arith, h v, map_rows_same p f h t)

is_downloading-interrupted :
    (now : Clock) (e : Entry) → is_downloading ((interrupted now e).status) ≡ false
unfolding interrupted
is_downloading-interrupted now e = ground arith

interrupted_same :
    (now : Clock) (e : Entry) → is_downloading e.status ≡ false → interrupted now e ≡ e
unfolding interrupted
interrupted_same now e h = rw h refl

has_download-recover_cycle : (now : Clock) (c : Cycle) → has_download (recover_cycle now c) ≡ false
unfolding has_download recover_cycle
has_download-recover_cycle now c = ground (
  arith,
  any_row-map_rows_none (λ e. is_downloading e.status) (interrupted now)
      (is_downloading-interrupted now) c.files,
)

recover_cycle_same : (now : Clock) (c : Cycle) → has_download c ≡ false → recover_cycle now c ≡ c
unfolding recover_cycle
recover_cycle_same now c h = rw h refl

interrupted_rows_same :
    (now : Clock) (c : Cycle)
    → has_download c ≡ false
    → map_rows (interrupted now) c.files ≡ c.files
unfolding has_download
interrupted_rows_same now c h =
    map_rows_same (λ e. is_downloading e.status) (interrupted now) (interrupted_same now) c.files h

files-recover_cycle :
    (now : Clock) (c : Cycle) → (recover_cycle now c).files ≡ map_rows (interrupted now) c.files
unfolding recover_cycle
files-recover_cycle now c = elim (Bool-cases (has_download c)) [
  | inl h ↦ rw h refl
  | inr h ↦ rw h (sym (interrupted_rows_same now c h))
]

AllStopped-recover : (now : Clock) (q : Pool) → AllStopped (recover_interrupted_downloads now q)
unfolding recover_interrupted_downloads
AllStopped-recover now q = ground (
  arith,
  any_row-map_rows_none has_download (recover_cycle now) (has_download-recover_cycle now) q.cycles,
)

cycles-recover :
    (now : Clock) (q : Pool)
    → (recover_interrupted_downloads now q).cycles ≡ map_rows (recover_cycle now) q.cycles
unfolding recover_interrupted_downloads
cycles-recover now q = elim (Bool-cases (any_row has_download q.cycles)) [
  | inl h ↦ rw h refl
  | inr h ↦
      rw h
        (sym (map_rows_same has_download (recover_cycle now) (recover_cycle_same now) q.cycles h))
]

find-recover :
    (now : Clock) (q : Pool) (cycle : String)
    → find cycle (recover_interrupted_downloads now q).cycles
      ≡ on_some (recover_cycle now) (find cycle q.cycles)
find-recover now q cycle =
    ap (λ t. find cycle t) (cycles-recover now q) ∙ find-map_rows cycle (recover_cycle now) q.cycles

find-recover_cycle :
    (now : Clock) (c : Cycle) (hour : ℕ)
    → find hour (recover_cycle now c).files ≡ on_some (interrupted now) (find hour c.files)
find-recover_cycle now c hour =
    ap (λ t. find hour t) (files-recover_cycle now c) ∙ find-map_rows hour (interrupted now) c.files

entry_at-recover :
    (now : Clock) (q : Pool) (cycle : String) (hour : ℕ)
    → entry_at cycle hour (recover_interrupted_downloads now q)
      ≡ on_some (interrupted now) (entry_at cycle hour q)
unfolding entry_at
entry_at-recover now q cycle hour = elim (Option-cases (find cycle q.cycles)) [
  | inl absent ↦ ground (arith, find-recover now q cycle, absent)
  | inr (c, there) ↦ ground (arith, find-recover now q cycle, there, find-recover_cycle now c hour)
]

-- An entry whose download was cut off: it can be picked at once, and nothing that was asked of it or
-- counted for it is lost.
pub record SentBack (e f : Entry) : Type 0 where
  pub waits : f.status ≡ queued
  pub at_once : f.retry_at ≡ 0
  pub no_file : f.current_file ≡ none
  pub reason : f.failure_class ≡ "worker_interrupted"
  pub priority : f.priority ≡ e.priority
  pub references : f.references ≡ e.references
  pub legacy : f.legacy_task_reference ≡ e.legacy_task_reference
  pub prefetched : f.prefetch_reference ≡ e.prefetch_reference
  pub attempts : f.attempts ≡ e.attempts
  pub fruitless : f.no_progress_attempts ≡ e.no_progress_attempts
  pub bytes : f.bytes ≡ e.bytes

-- What becomes of the entry `e`.
pub data Resumes (e : Entry) (o : Option Entry) : Type 0 where
  sent_back : e.status ≡ downloading → (f : Entry) → o ≡ some f → SentBack e f → Resumes e o
  stays : e.status ≢ downloading → o ≡ some e → Resumes e o

downloading_cases :
    (s : Status)
    → ((is_downloading s ≡ true) × (s ≡ downloading))
      ⊎ ((is_downloading s ≡ false) × (s ≢ downloading))
downloading_cases downloading = inl (refl, refl)
downloading_cases queued = inr (refl, λ e. cc)
downloading_cases ready = inr (refl, λ e. cc)
downloading_cases failed = inr (refl, λ e. cc)
downloading_cases retry_wait = inr (refl, λ e. cc)
downloading_cases rate_limited = inr (refl, λ e. cc)
downloading_cases cancelled = inr (refl, λ e. cc)
downloading_cases obsolete = inr (refl, λ e. cc)

SentBack-interrupted :
    (now : Clock) (e : Entry) → is_downloading e.status ≡ true → SentBack e (interrupted now e)
unfolding interrupted
SentBack-interrupted now e h = ground arith

Resumes-recover :
    (now : Clock) (q : Pool) (cycle : String) (hour : ℕ) (e : Entry)
    → entry_at cycle hour q ≡ some e
    → Resumes e (entry_at cycle hour (recover_interrupted_downloads now q))
Resumes-recover now q cycle hour e there =
    let after : entry_at cycle hour (recover_interrupted_downloads now q)
        ≡ some (interrupted now e) =
      entry_at-recover now q cycle hour ∙ ap (λ o. on_some (interrupted now) o) there in
    elim (downloading_cases e.status) [
      | inl (h, d) ↦ sent_back d (interrupted now e) after (SentBack-interrupted now e h)
      | inr (h, n) ↦ stays n (after ∙ ap some (interrupted_same now e h))
    ]

-- Once a starting worker has dealt with the interrupted downloads, no entry has the status
-- `downloading`. An entry that had it is queued, with no time to wait for, no current file and the class
-- `worker_interrupted`, and keeps its priority, references, counts of attempts and bytes. Every other
-- entry is unchanged, and no entry is new.
pub recover_interrupted_downloads-entries :
    (now : Clock) (q : Pool)
    → AllStopped (recover_interrupted_downloads now q)
      × ((cycle : String) (hour : ℕ) (e : Entry)
          → entry_at cycle hour q ≡ some e
          → Resumes e (entry_at cycle hour (recover_interrupted_downloads now q)))
      × ((cycle : String) (hour : ℕ)
          → entry_at cycle hour q ≡ none
          → entry_at cycle hour (recover_interrupted_downloads now q) ≡ none)
recover_interrupted_downloads-entries now q = (
  AllStopped-recover now q,
  Resumes-recover now q,
  λ cycle hour e. entry_at-recover now q cycle hour ∙ ap (λ o. on_some (interrupted now) o) e,
)
