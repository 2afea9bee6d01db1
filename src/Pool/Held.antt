-- ===== src/Pool/Held.antt =====
-- scripts/forcing_pool_queue.py: how each change of an entry treats the references that hold it.
use backend_wrf.Base.{ℕ, ◌≡◌, string_eq, ℕ_eq, String, Bool, true, false, ◌&&◌, arith}
use backend_wrf.Table.{any_row}
use backend_wrf.Pool.{
  Source, gfs, ecmwf, Status, cancelled, Priority, task, prefetch, Entry, Cycle, Pool, Clock, Args,
}
use backend_wrf.Pool.Enqueue.{wanted, retire, revived}
use backend_wrf.Pool.Download.{interrupted, after_failure, Reply}
use backend_wrf.Pool.Pick.{visit}
use backend_wrf.Pool.References.{is_held, release, expire, without, has_reference}

abbrev pub is_cancelled : Status → Bool
is_cancelled cancelled = true
is_cancelled _ = false

-- withdrawn, though a reference to it is held
unfoldable pub lost : Entry → Bool
lost e = is_cancelled e.status && is_held e

unfoldable pub loses : Cycle → Bool
loses c = any_row lost c.files

abbrev pub NothingLost : Pool → Type 0
NothingLost q = any_row loses q.cycles ≡ false

pub lost-release : (r : String) (e : Entry) → lost e ≡ false → lost (release r e) ≡ false
unfolding lost release is_held has_reference without
lost-release r e h = ground arith

pub lost-expire : (e : Entry) → lost e ≡ false → lost (expire e) ≡ false
unfolding lost expire is_held
lost-expire e h = ground arith

pub lost-retire :
    (s : Source) (hour : ℕ) (e : Entry) → lost e ≡ false → lost (retire s hour e) ≡ false
unfolding lost retire is_held
lost-retire gfs hour e h = h
lost-retire ecmwf hour e h = ground arith

pub lost_if_revived : (e : Entry) → is_cancelled e.status ≡ false → lost e ≡ false
unfolding lost
lost_if_revived e h = ground arith

pub is_cancelled-wanted :
    (now : ℕ) (p : Priority) (e : Entry)
    → is_cancelled e.status ≡ false
    → is_cancelled ((wanted now p e).status) ≡ false
unfolding wanted
is_cancelled-wanted now task e h = ground arith
is_cancelled-wanted now prefetch e h = ground arith

pub is_cancelled-revived : (s : Status) → is_cancelled (revived s) ≡ false
is_cancelled-revived s = ground arith

pub lost-interrupted : (now : Clock) (e : Entry) → lost e ≡ false → lost (interrupted now e) ≡ false
unfolding lost interrupted is_held
lost-interrupted now e h = ground arith

pub lost-after_failure :
    (args : Args) (now before attempts : ℕ) (r : Reply) (e : Entry)
    → lost e ≡ false
    → lost (after_failure args now before attempts r e) ≡ false
unfolding lost after_failure is_held
lost-after_failure args now before attempts r e h = ground arith

pub lost-visit :
    (now : Clock) (c : Cycle) (on_disk : Bool) (size : ℕ) (e : Entry)
    → lost e ≡ false
    → lost ((visit now c on_disk size e).0) ≡ false
unfolding lost visit is_held
lost-visit now c on_disk size e h = ground arith
