-- ===== src/Pool/Cycles.antt =====
-- scripts/forcing_pool_queue.py: what the operations do to the files of one cycle.
use backend_wrf.Base.{
  ℕ, ◌≡◌, refl, string_eq, ℕ_eq, String, Bool, false, Option, none, some, List, [], ◌∷◌, arith,
}
use backend_wrf.Table.{Table, any_row}
use backend_wrf.Pool.{
  Source, Priority, prefetch, Entry, Cycle, Clock, Args, Disk, new_entry, new_cycle, valid_file,
}
use backend_wrf.Pool.Enqueue.{
  enqueued_cycle, enqueue_entry, enqueue_files, retire_files, found_ready, mark_reference,
  mark_prefetch, mark, settle,
}
use backend_wrf.Pool.References.{release_files, release, expire_cycles, expire_cycle, expire}
use backend_wrf.Pool.Download.{set_entry_cycle, transfer_cycle, recover_cycle, interrupted}
use backend_wrf.Pool.Pick.{refresh_cycles, refresh_cycle, refresh_files, visit_file, Visit}
use backend_wrf.Pool.Held.{
  is_cancelled, lost, loses, lost-release, lost-expire, lost-retire, lost_if_revived,
  is_cancelled-wanted, is_cancelled-revived, lost-interrupted, lost-visit,
}
use backend_wrf.Table.Clear.{
  any_row-map_rows_clear, any_row-modify_clear, any_row-insert_or_ignore_clear,
}

lost-found_ready :
    (digest : List ℕ → String) (p : Priority) (b : List ℕ) (e : Entry)
    → lost (found_ready digest p b e) ≡ false
unfolding lost found_ready
lost-found_ready digest p b e = refl

pub lost-new_entry : (p : Priority) → lost (new_entry p) ≡ false
unfolding lost
lost-new_entry p = refl

lost-settle :
    (digest : List ℕ → String) (now : ℕ) (p : Priority) (b : Option (List ℕ)) (e : Entry)
    → is_cancelled e.status ≡ false
    → lost (settle digest now p b e) ≡ false
unfolding settle
lost-settle digest now p (some b) e h = lost-found_ready digest p b e
lost-settle digest now p none e h = lost_if_revived _ (is_cancelled-wanted now p e h)

is_cancelled-mark :
    (p : Priority) (r : Option String) (e : Entry) → is_cancelled ((mark p r e).status) ≡ false
unfolding mark
is_cancelled-mark p r e = is_cancelled-revived (mark_prefetch p (mark_reference r p e)).status

lost-enqueue_entry :
    (args : Args) (digest : List ℕ → String) (disk : Disk) (now : ℕ) (cycle : String) (p : Priority)
    (r : Option String) (hour : ℕ) (e : Entry)
    → lost (enqueue_entry args digest disk now cycle p r hour e) ≡ false
unfolding enqueue_entry
lost-enqueue_entry args digest disk now cycle p r hour e =
    lost-settle digest now p (valid_file args disk cycle hour) (mark p r e)
      (is_cancelled-mark p r e)

lost-enqueue_files :
    (f : ℕ → Entry → Entry) (p : Priority)
    → ((hour : ℕ) (e : Entry) → lost (f hour e) ≡ false)
    → (hours : List ℕ) (files : Table ℕ Entry) → any_row lost files ≡ false
    → any_row lost (enqueue_files f p hours files) ≡ false
unfolding enqueue_files
lost-enqueue_files f p h [] files n = n
lost-enqueue_files f p h (hour ∷ hours) files n = lost-enqueue_files f p h hours _ (
    any_row-modify_clear lost (f hour) (λ e _. h hour e) hour _
      (any_row-insert_or_ignore_clear lost hour (new_entry p) files (lost-new_entry p) n))

lost-retire_files :
    (s : Source) (files : Table ℕ Entry)
    → any_row lost files ≡ false
    → any_row lost (retire_files s files) ≡ false
unfolding retire_files any_row
lost-retire_files s [] n = refl
lost-retire_files s ((hour, e) ∷ files) n =
    ground (arith, lost-retire s hour e, lost-retire_files s files)

lost-refresh_files :
    (f : ℕ → Entry → Entry × Visit)
    → ((hour : ℕ) (e : Entry) → lost e ≡ false → lost ((f hour e).0) ≡ false)
    → (files : Table ℕ Entry) → any_row lost files ≡ false
    → any_row lost (refresh_files f files) ≡ false
unfolding refresh_files any_row
lost-refresh_files f h [] n = refl
lost-refresh_files f h ((hour, e) ∷ files) n =
    ground (arith, h hour e, lost-refresh_files f h files)

pub loses-new_cycle : loses new_cycle ≡ false
unfolding loses any_row
loses-new_cycle = refl

pub loses-enqueued_cycle :
    (args : Args) (digest : List ℕ → String) (disk : Disk) (now : Clock) (cycle : String)
    (hours : List ℕ) (p : Priority) (r : Option String) (c : Cycle)
    → loses c ≡ false
    → loses (enqueued_cycle args digest disk now cycle hours p r c) ≡ false
unfolding loses enqueued_cycle
loses-enqueued_cycle args digest disk now cycle hours p r c n =
    lost-enqueue_files _ p (lost-enqueue_entry args digest disk now.epoch_now cycle p r) hours _
      (lost-retire_files args.source c.files n)

pub loses-release_files :
    (r : String) (c : Cycle) → loses c ≡ false → loses (release_files r c) ≡ false
unfolding loses release_files
loses-release_files r c n = any_row-map_rows_clear lost (release r) (lost-release r) c.files n

pub loses-expire_cycle : (c : Cycle) → loses c ≡ false → loses (expire_cycle c) ≡ false
unfolding loses expire_cycle
loses-expire_cycle c n = ground (arith, any_row-map_rows_clear lost expire lost-expire c.files n)

pub loses-expire_cycles :
    (keep : List String) (cycles : Table String Cycle)
    → any_row loses cycles ≡ false
    → any_row loses (expire_cycles keep cycles) ≡ false
unfolding expire_cycles any_row
loses-expire_cycles keep [] n = refl
loses-expire_cycles keep ((id, c) ∷ cycles) n =
    ground (arith, loses-expire_cycle c, loses-expire_cycles keep cycles)

pub loses-set_entry_cycle :
    (now : Clock) (hour : ℕ) (starts : Bool) (f : Entry → Entry) (c : Cycle)
    → ((e : Entry) → lost e ≡ false → lost (record (f e) { updated_at = now.utc_now }) ≡ false)
    → loses c ≡ false
    → loses (set_entry_cycle now hour starts f c) ≡ false
unfolding loses set_entry_cycle
loses-set_entry_cycle now hour starts f c h n = any_row-modify_clear lost _ h hour _ (
    any_row-insert_or_ignore_clear lost hour (new_entry prefetch) c.files (lost-new_entry prefetch)
      n)

pub loses-transfer_cycle :
    (now : Clock) (hour : ℕ) (active : Option ℕ) (f : Entry → Entry) (c : Cycle)
    → ((e : Entry) → lost e ≡ false → lost (f e) ≡ false)
    → loses c ≡ false
    → loses (transfer_cycle now hour active f c) ≡ false
unfolding loses transfer_cycle
loses-transfer_cycle now hour active f c h n = any_row-modify_clear lost f h hour c.files n

pub loses-recover_cycle :
    (now : Clock) (c : Cycle) → loses c ≡ false → loses (recover_cycle now c) ≡ false
unfolding loses recover_cycle
loses-recover_cycle now c n =
    ground (arith, any_row-map_rows_clear lost (interrupted now) (lost-interrupted now) c.files n)

pub loses-refresh_cycles :
    (args : Args) (disk : Disk) (now : Clock) (cycles : Table String Cycle)
    → any_row loses cycles ≡ false
    → any_row loses (refresh_cycles args disk now cycles) ≡ false
unfolding refresh_cycles any_row refresh_cycle loses visit_file
loses-refresh_cycles args disk now [] n = refl
loses-refresh_cycles args disk now ((id, c) ∷ cycles) n = ground (
  arith,
  lost-refresh_files (visit_file args disk now id c) (λ hour e. lost-visit now c _ _ e) c.files,
  loses-refresh_cycles args disk now cycles,
)
