-- ===== src/Pool/Steps.antt =====
-- scripts/forcing_pool_queue.py: its operations as steps: processes that enqueue, release, expire and forget, and the
-- worker, in any order.
use backend_wrf.Base.{
  ℕ, ◌≡◌, ◌≢◌, refl, string_eq, ℕ_eq, String, true, false, Option-cases, inl, inr, Option, some,
  List, arith,
}
use backend_wrf.Table.{find}
use backend_wrf.Table.Laws.{any_row-find}
use backend_wrf.Pool.{cancelled, Priority, Entry, Pool, Clock, Args, Disk}
use backend_wrf.Pool.Enqueue.{done, enqueue}
use backend_wrf.Pool.References.{release_reference, expire_prefetch, forget, is_held}
use backend_wrf.Pool.Download.{
  set_entry, mark_publication, set_wait, begin_download, end_download, entry_at,
  recover_interrupted_downloads, Reply, already_there,
}
use backend_wrf.Pool.Pick.{pick_next}
use backend_wrf.Pool.Keeps.{
  NothingLost-enqueue, NothingLost-release_reference, NothingLost-expire_prefetch,
  NothingLost-forget, NothingLost-pick_next, NothingLost-set_entry, NothingLost-begin_download,
  NothingLost-end_download, NothingLost-mark_publication, NothingLost-set_wait, NothingLost-recover,
}
use backend_wrf.Pool.Held.{lost, loses, NothingLost}

pub data PoolStep (args : Args) (digest : List ℕ → String) (s t : Pool) : Type 0 where
  enqueued :
      (disk : Disk) (now : Clock) (cycle : String) (hours : List ℕ) (p : Priority)
      (r : Option String)
      → enqueue args digest disk now cycle hours p r s ≡ done t
      → PoolStep args digest s t
  released :
      (now : Clock) (cycle r : String)
      → release_reference now cycle r s ≡ done t
      → PoolStep args digest s t
  expired :
      (now : Clock) (keep : List String)
      → expire_prefetch now keep s ≡ done t
      → PoolStep args digest s t
  forgotten :
      (now : Clock) (cycle : String) → forget now cycle s ≡ done t → PoolStep args digest s t
  picked :
      (disk : Disk) (now : Clock) → t ≡ (pick_next args disk now s).1 → PoolStep args digest s t
  was_there :
      (now : Clock) (cycle : String) (hour size : ℕ)
      → t ≡ set_entry now cycle hour false (already_there size) s
      → PoolStep args digest s t
  begun :
      (now : Clock) (cycle : String) (hour before attempt : ℕ)
      → begin_download now cycle hour before s ≡ some (attempt, t)
      → PoolStep args digest s t
  ended :
      (now : Clock) (cycle : String) (hour before attempt : ℕ) (r : Reply)
      → end_download args digest now cycle hour before attempt r s ≡ some t
      → PoolStep args digest s t
  probed :
      (now : Clock) (cycle status : String) (retry_at : ℕ) (error : Option String)
      → t ≡ mark_publication now cycle status retry_at error s
      → PoolStep args digest s t
  waits :
      (now : Clock) (cycle reason : String)
      → t ≡ set_wait now cycle reason s
      → PoolStep args digest s t
  recovered : (now : Clock) → t ≡ recover_interrupted_downloads now s → PoolStep args digest s t

pub data PoolSteps (args : Args) (digest : List ℕ → String) (s : Pool) : Pool → Type 0 where
  start : PoolSteps args digest s s
  next :
      {t u : Pool}
      → PoolSteps args digest s t
      → PoolStep args digest t u
      → PoolSteps args digest s u

module _ (args : Args) (digest : List ℕ → String) where
  NothingLost-PoolStep : (s t : Pool) → PoolStep args digest s t → NothingLost s → NothingLost t
  unfolding lost
  NothingLost-PoolStep s t (enqueued disk now cycle hours p r h) n =
      NothingLost-enqueue args digest disk now cycle hours p r s t h n
  NothingLost-PoolStep s t (released now cycle r h) n =
      NothingLost-release_reference args digest now cycle r s t h n
  NothingLost-PoolStep s t (expired now keep h) n =
      NothingLost-expire_prefetch args digest now keep s t h n
  NothingLost-PoolStep s t (forgotten now cycle h) n =
      NothingLost-forget args digest now cycle s t h n
  NothingLost-PoolStep s t (picked disk now e) n =
      rw (e, NothingLost-pick_next args digest disk now s n)
  NothingLost-PoolStep s t (was_there now cycle hour size e) n = rw (
    e,
    NothingLost-set_entry args digest now cycle hour false (already_there size) s (λ f _. refl) n,
  )
  NothingLost-PoolStep s t (begun now cycle hour before attempt h) n =
      NothingLost-begin_download args digest now cycle hour before attempt s t h n
  NothingLost-PoolStep s t (ended now cycle hour before attempt r h) n =
      NothingLost-end_download args digest now cycle hour before attempt r s t h n
  NothingLost-PoolStep s t (probed now cycle status retry_at error e) n =
      rw (e, NothingLost-mark_publication args digest now cycle status retry_at error s n)
  NothingLost-PoolStep s t (waits now cycle reason e) n =
      rw (e, NothingLost-set_wait args digest now cycle reason s n)
  NothingLost-PoolStep s t (recovered now e) n = rw (e, NothingLost-recover args digest now s n)

  NothingLost-PoolSteps : (s t : Pool) → PoolSteps args digest s t → NothingLost s → NothingLost t
  NothingLost-PoolSteps s t start n = n
  NothingLost-PoolSteps s t (next steps step) n =
      NothingLost-PoolStep _ t step (NothingLost-PoolSteps s _ steps n)

  -- From a state in which no withdrawn file is referenced, every state that the queue's processes
  -- reach, by any sequence of requests, releases, expirations, picks, downloads and restarts, has
  -- each file that a reference or an old untracked task still holds in a status other than
  -- cancelled.
  pub PoolSteps-held_not_cancelled :
      (s t : Pool)
      → NothingLost s
      → PoolSteps args digest s t
      → (cycle : String) (hour : ℕ) (e : Entry) → entry_at cycle hour t ≡ some e
      → is_held e ≡ true
      → e.status ≢ cancelled
  unfolding entry_at lost loses
  PoolSteps-held_not_cancelled s t n steps cycle hour e there held c =
      elim (Option-cases (find cycle t.cycles)) [
        | inl absent ↦ ground arith
        | inr (d, found) ↦ ground (
          arith,
          NothingLost-PoolSteps s t steps n,
          any_row-find loses cycle d t.cycles,
          any_row-find lost hour e d.files,
        )
      ]
