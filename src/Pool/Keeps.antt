-- ===== src/Pool/Keeps.antt =====
-- scripts/forcing_pool_queue.py: the operations on the whole state, and the files that are held.
use backend_wrf.Base.{
  ℕ, ◌≡◌, refl, string_eq, ℕ_eq, String, Bool, false, Option-cases, inl, inr, Option, none, some,
  List, arith,
}
use backend_wrf.Table.{insert_or_ignore}
use backend_wrf.Pool.{Priority, Entry, Pool, Clock, Args, Disk, new_cycle}
use backend_wrf.Pool.Enqueue.{done, enqueue, given, enqueued_cycle}
use backend_wrf.Pool.References.{release_reference, release_files, expire_prefetch, forget}
use backend_wrf.Pool.Download.{
  modify_cycle, set_entry, mark_publication, set_wait, begin_download, end_download, fail_download,
  transfer_cycle, after_failure, recover_interrupted_downloads, recover_cycle, Reply, completed,
  started,
}
use backend_wrf.Pool.Pick.{pick_next}
use backend_wrf.Pool.Held.{lost, loses, NothingLost, lost_if_revived, lost-after_failure}
use backend_wrf.Table.Clear.{
  any_row-map_rows_clear, any_row-modify_clear, any_row-insert_or_ignore_clear,
  any_row-delete_clear,
}
use backend_wrf.Pool.Cycles.{
  loses-new_cycle, loses-enqueued_cycle, loses-release_files, loses-expire_cycles,
  loses-set_entry_cycle, loses-transfer_cycle, loses-recover_cycle, loses-refresh_cycles,
}

module _ (args : Args) (digest : List ℕ → String) where
  pub NothingLost-enqueue :
      (disk : Disk) (now : Clock) (cycle : String) (hours : List ℕ) (p : Priority)
      (r : Option String) (s t : Pool)
      → enqueue args digest disk now cycle hours p r s ≡ done t
      → NothingLost s
      → NothingLost t
  unfolding enqueue
  NothingLost-enqueue disk now cycle hours p r s t h n = ground (
    arith,
    any_row-modify_clear loses (enqueued_cycle args digest disk now cycle hours p (given r))
        (loses-enqueued_cycle args digest disk now cycle hours p (given r)) cycle
        (insert_or_ignore cycle new_cycle s.cycles)
        (any_row-insert_or_ignore_clear loses cycle new_cycle s.cycles loses-new_cycle n),
  )

  pub NothingLost-release_reference :
      (now : Clock) (cycle r : String) (s t : Pool)
      → release_reference now cycle r s ≡ done t
      → NothingLost s
      → NothingLost t
  unfolding release_reference
  NothingLost-release_reference now cycle r s t h n =
      ground (
        arith,
        any_row-modify_clear loses (release_files r) (loses-release_files r) cycle s.cycles n,
      )

  pub NothingLost-expire_prefetch :
      (now : Clock) (keep : List String) (s t : Pool)
      → expire_prefetch now keep s ≡ done t
      → NothingLost s
      → NothingLost t
  unfolding expire_prefetch
  NothingLost-expire_prefetch now keep s t h n = ground (arith, loses-expire_cycles keep s.cycles n)

  pub NothingLost-forget :
      (now : Clock) (cycle : String) (s t : Pool)
      → forget now cycle s ≡ done t
      → NothingLost s
      → NothingLost t
  unfolding forget
  NothingLost-forget now cycle s t h n = ground (arith, any_row-delete_clear loses cycle s.cycles n)

  pub NothingLost-set_entry :
      (now : Clock) (cycle : String) (hour : ℕ) (starts : Bool) (f : Entry → Entry) (s : Pool)
      → ((e : Entry) → lost e ≡ false → lost (record (f e) { updated_at = now.utc_now }) ≡ false)
      → NothingLost s
      → NothingLost (set_entry now cycle hour starts f s)
  unfolding set_entry
  NothingLost-set_entry now cycle hour starts f s h n =
      any_row-modify_clear loses _ (λ c. loses-set_entry_cycle now hour starts f c h) cycle _
        (any_row-insert_or_ignore_clear loses cycle new_cycle s.cycles loses-new_cycle n)

  pub NothingLost-mark_publication :
      (now : Clock) (cycle status : String) (retry_at : ℕ) (error : Option String) (s : Pool)
      → NothingLost s
      → NothingLost (mark_publication now cycle status retry_at error s)
  unfolding mark_publication loses
  NothingLost-mark_publication now cycle status retry_at error s n =
      any_row-modify_clear loses _ (λ c h. h) cycle _
        (any_row-insert_or_ignore_clear loses cycle new_cycle s.cycles loses-new_cycle n)

  pub NothingLost-set_wait :
      (now : Clock) (cycle reason : String) (s : Pool)
      → NothingLost s
      → NothingLost (set_wait now cycle reason s)
  unfolding set_wait loses
  NothingLost-set_wait now cycle reason s n = ground (
    arith,
    any_row-modify_clear loses
        (λ c. record c { wait_code = reason; wait_observed_at = now.epoch_now }) (λ c h. h) cycle
        s.cycles n,
  )

  pub NothingLost-transfer :
      (now : Clock) (cycle : String) (hour : ℕ) (active : Option ℕ) (f : Entry → Entry) (s : Pool)
      → ((e : Entry) → lost e ≡ false → lost (f e) ≡ false)
      → NothingLost s
      → NothingLost (modify_cycle now cycle (transfer_cycle now hour active f) s)
  NothingLost-transfer now cycle hour active f s h n =
      any_row-modify_clear loses _ (λ c. loses-transfer_cycle now hour active f c h) cycle s.cycles
        n

  pub NothingLost-begin_download :
      (now : Clock) (cycle : String) (hour before attempt : ℕ) (s t : Pool)
      → begin_download now cycle hour before s ≡ some (attempt, t)
      → NothingLost s
      → NothingLost t
  unfolding begin_download
  NothingLost-begin_download now cycle hour before attempt s t h n = ground (
    arith,
    NothingLost-transfer now cycle hour (some hour) (started now hour before) s
        (λ e _. lost_if_revived (started now hour before e) refl) n,
  )

  pub NothingLost-fail_download :
      (now : Clock) (cycle : String) (hour before attempt : ℕ) (r : Reply) (s t : Pool)
      → fail_download args now cycle hour before attempt r s ≡ some t
      → NothingLost s
      → NothingLost t
  unfolding fail_download
  NothingLost-fail_download now cycle hour before attempt r s t h n = ground (
    arith,
    NothingLost-transfer now cycle hour none (after_failure args now.epoch_now before attempt r) s
        (lost-after_failure args now.epoch_now before attempt r) n,
  )

  pub NothingLost-end_download :
      (now : Clock) (cycle : String) (hour before attempt : ℕ) (r : Reply) (s t : Pool)
      → end_download args digest now cycle hour before attempt r s ≡ some t
      → NothingLost s
      → NothingLost t
  unfolding end_download lost
  NothingLost-end_download now cycle hour before attempt r s t h n = elim (Option-cases r.part) [
    | inl absent ↦ ground (arith, NothingLost-fail_download now cycle hour before attempt r s t)
    | inr (b, there) ↦ ground (
      arith,
      NothingLost-fail_download now cycle hour before attempt r s t,
      NothingLost-set_entry now cycle hour false (completed digest b r.speed) s (λ e _. refl) n,
    )
  ]

  pub NothingLost-recover :
      (now : Clock) (s : Pool) → NothingLost s → NothingLost (recover_interrupted_downloads now s)
  unfolding recover_interrupted_downloads
  NothingLost-recover now s n =
      ground (
        arith,
        any_row-map_rows_clear loses (recover_cycle now) (loses-recover_cycle now) s.cycles n,
      )

  pub NothingLost-pick_next :
      (disk : Disk) (now : Clock) (s : Pool)
      → NothingLost s
      → NothingLost ((pick_next args disk now s).1)
  unfolding pick_next
  NothingLost-pick_next disk now s n = loses-refresh_cycles args disk now s.cycles n
