-- ===== src/Pool/Pick.antt =====
-- scripts/forcing_pool_queue.py: `_pick_next`.
use backend_wrf.Base.{
  ℕ, ◌+◌, ◌*◌, ◌-◌, ◌==◌, string_eq, ℕ_eq, nat_eq, ltb, leb, String, Bool, true, false, not, ◌&&◌,
  ◌||◌, Option, none, some, List, [], ◌∷◌, ◌++◌, if◌then◌else◌,
}
use backend_wrf.Text.{codes}
use backend_wrf.Table.{Table, any_row}
use backend_wrf.Pool.{
  Status, ready, failed, retry_wait, cancelled, obsolete, Priority, task, prefetch, Entry, Cycle,
  Pool, Clock, Args, Disk, safe_cycle, valid,
}
use backend_wrf.Pool.Enqueue.{requeued}
use backend_wrf.Pool.Download.{part_size}

abbrev pub is_task : Priority → Bool
is_task task = true
is_task prefetch = false

-- `entry.get("status") in {"ready", "failed"}`
abbrev pub is_settled : Status → Bool
is_settled ready = true
is_settled failed = true
is_settled _ = false

-- `entry.get("status") in {"obsolete","cancelled"}`
abbrev pub is_withdrawn : Status → Bool
is_withdrawn obsolete = true
is_withdrawn cancelled = true
is_withdrawn _ = false

abbrev pub is_ready : Status → Bool
is_ready ready = true
is_ready _ = false

abbrev pub is_failed : Status → Bool
is_failed failed = true
is_failed _ = false

abbrev pub is_retry_wait : Status → Bool
is_retry_wait retry_wait = true
is_retry_wait _ = false

-- `has_task` of a cycle
unfoldable pub has_task : Cycle → Bool
has_task c = any_row (λ e. is_task e.priority && not (is_settled e.status)) c.files

-- what the loop does about a file: pass over it, ask for a probe of its cycle, or offer it with its
-- priority
pub data Visit : Type 0 where
  passed : Visit
  probe : Visit
  offered : ℕ → Visit

-- the loop body on an entry, given whether its file is valid and the size of the file
unfoldable pub visit : Clock → Cycle → Bool → ℕ → Entry → Entry × Visit
visit now c on_disk size e =
    if is_withdrawn e.status
    then (e, passed)
    else if on_disk
    then (
      (if is_ready e.status then e else record e { status = ready; bytes = size; retry_at = 0 }),
      passed,
    )
    else if is_retry_wait e.status && ltb now.epoch_now e.terminal_retry_at
    then (e, passed)
    else let f : Entry =
        if is_retry_wait e.status then record (requeued e) { updated_at = now.utc_now } else e in
      if is_failed f.status || ltb now.epoch_now f.retry_at
      then (f, passed)
      else if is_task f.priority
      then (f, offered 0)
      else if has_task c || c.publication == "published"
      then (f, offered 1)
      else (f, if leb c.publish_retry_at now.epoch_now then probe else passed)

unfoldable pub visit_file : Args → Disk → Clock → String → Cycle → ℕ → Entry → Entry × Visit
visit_file args disk now id c hour e =
    visit now c (valid args disk id hour) (part_size (disk id hour)) e

unfoldable pub refresh_files : (ℕ → Entry → Entry × Visit) → Table ℕ Entry → Table ℕ Entry
refresh_files f [] = []
refresh_files f ((hour, e) ∷ files) = (hour, (f hour e).0) ∷ refresh_files f files

unfoldable pub refresh_cycle : Args → Disk → Clock → String → Cycle → Cycle
refresh_cycle args disk now id c =
    if safe_cycle id
    then record c { files = refresh_files (visit_file args disk now id c) c.files }
    else c

unfoldable pub refresh_cycles : Args → Disk → Clock → Table String Cycle → Table String Cycle
refresh_cycles args disk now [] = []
refresh_cycles args disk now ((id, c) ∷ cycles) =
    (id, refresh_cycle args disk now id c) ∷ refresh_cycles args disk now cycles

-- `(priority, -int(cycle), cycle, hour)`
pub record Choice : Type 0 where
  pub priority : ℕ
  pub cycle : String
  pub hour : ℕ

unfoldable pub add_offer : String → ℕ → Visit → List Choice → List Choice
add_offer id hour (offered p) cs = record { priority = p; cycle = id; hour = hour } ∷ cs
add_offer id hour probe cs = cs
add_offer id hour passed cs = cs

unfoldable pub offers : String → (ℕ → Entry → Entry × Visit) → Table ℕ Entry → List Choice
offers id f [] = []
offers id f ((hour, e) ∷ files) = add_offer id hour ((f hour e).1) (offers id f files)

abbrev pub is_probe : Visit → Bool
is_probe probe = true
is_probe _ = false

unfoldable pub needs_probe : (ℕ → Entry → Entry × Visit) → Table ℕ Entry → Bool
needs_probe f [] = false
needs_probe f ((hour, e) ∷ files) = is_probe ((f hour e).1) || needs_probe f files

-- `choices`, in the order of the loops
unfoldable pub choices : Args → Disk → Clock → Table String Cycle → List Choice
choices args disk now [] = []
choices args disk now ((id, c) ∷ cycles) =
    let rest = choices args disk now cycles in
    if safe_cycle id then offers id (visit_file args disk now id c) c.files ++ rest else rest

-- `a < b` on texts
unfoldable pub text_lt : List ℕ → List ℕ → Bool
text_lt s [] = false
text_lt [] (d ∷ t) = true
text_lt (c ∷ s) (d ∷ t) = ltb c d || nat_eq c d && text_lt s t

-- `probe_cycle`: the greatest cycle that needs a probe
unfoldable pub later : Option String → String → Option String
later none id = some id
later (some c) id = if text_lt (codes c) (codes id) then some id else some c

unfoldable pub probe_cycle :
    Args → Disk → Clock → Option String → Table String Cycle → Option String
probe_cycle args disk now best [] = best
probe_cycle args disk now best ((id, c) ∷ cycles) =
    probe_cycle args disk now
      (if safe_cycle id && needs_probe (visit_file args disk now id c) c.files
        then later best id
        else best)
      cycles

-- `int(cycle)`
unfoldable pub decimal : ℕ → List ℕ → ℕ
decimal n [] = n
decimal n (c ∷ s) = decimal (10 * n + (c - b'0')) s

-- the order of the tuples
unfoldable pub before : Choice → Choice → Bool
before a b =
    let m = decimal 0 (codes a.cycle) in
    let n = decimal 0 (codes b.cycle) in
    ltb a.priority b.priority
    || nat_eq a.priority b.priority
      && (ltb n m
          || nat_eq m n
            && (text_lt (codes a.cycle) (codes b.cycle) || a.cycle == b.cycle && ltb a.hour b.hour))

-- `choices.sort()` and `choices[0]`
unfoldable pub least : Choice → List Choice → Choice
least a [] = a
least a (b ∷ bs) = least (if before b a then b else a) bs

-- the pair returned: a cycle with the hour -1, or a file
pub data Picked : Type 0 where
  nothing : Picked
  to_probe : String → Picked
  to_download : Choice → Picked

unfoldable pub pick : Option String → List Choice → Picked
pick none [] = nothing
pick (some id) [] = to_probe id
pick none (c ∷ cs) = to_download (least c cs)
pick (some id) (c ∷ cs) =
    if nat_eq ((least c cs).priority) 0 then to_download (least c cs) else to_probe id

-- `_pick_next`
unfoldable pub pick_next : Args → Disk → Clock → Pool → Picked × Pool
pick_next args disk now q = (
  pick (probe_cycle args disk now none q.cycles) (choices args disk now q.cycles),
  record q { cycles = refresh_cycles args disk now q.cycles; updated_at = now.utc_now },
)
