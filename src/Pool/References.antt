-- ===== src/Pool/References.antt =====
-- scripts/forcing_pool_queue.py: `release_reference`, `expire_prefetch` and `forget`.
use backend_wrf.Base.{
  ◌==◌, string_eq, String, Bool, true, false, not, ◌&&◌, ◌||◌, any, all, none, some, List, [], ◌∷◌,
  if◌then◌else◌,
}
use backend_wrf.Table.{Table, find, delete, modify, map_rows, any_row}
use backend_wrf.Pool.{
  Status, downloading, ready, cancelled, prefetch, Entry, Cycle, Pool, Clock, safe_cycle,
  safe_reference,
}
use backend_wrf.Pool.Enqueue.{Answer, done, refused, bad_cycle, bad_reference}

-- `entry.get("status") in {"ready","downloading"}`
abbrev pub is_kept : Status → Bool
is_kept ready = true
is_kept downloading = true
is_kept _ = false

unfoldable pub has_reference : String → Entry → Bool
has_reference r e = any (λ q. q == r) e.references

abbrev pub is_empty : List String → Bool
is_empty [] = true
is_empty (r ∷ rs) = false

-- `refs.pop(reference)`
unfoldable pub without : String → List String → List String
without r [] = []
without r (q ∷ rs) = let rest = without r rs in if q == r then rest else q ∷ rest

-- the body of the loop of `release_reference`
unfoldable pub release : String → Entry → Entry
release r e =
    if not (has_reference r e)
    then e
    else let refs = without r e.references in
      let f : Entry = record e { references = refs } in
      if is_empty refs && not f.legacy_task_reference
      then record f {
        priority = prefetch;
        status = if not f.prefetch_reference && not (is_kept f.status) then cancelled else f.status;
      }
      else f

unfoldable pub release_files : String → Cycle → Cycle
release_files r c = record c { files = map_rows (release r) c.files }

-- `release_reference`
unfoldable pub release_reference : Clock → String → String → Pool → Answer
release_reference now cycle r q =
    if not (safe_cycle cycle)
    then refused bad_cycle
    else if not (safe_reference r)
    then refused bad_reference
    else done
        (record q { cycles = modify cycle (release_files r) q.cycles; updated_at = now.utc_now })

-- `entry.get("references") or entry.get("legacy_task_reference")`
unfoldable pub is_held : Entry → Bool
is_held e = not (is_empty e.references) || e.legacy_task_reference

-- the body of the inner loop of `expire_prefetch`
unfoldable pub expire : Entry → Entry
expire e =
    let f : Entry = record e { prefetch_reference = false } in
    if not (is_held f) && not (is_kept f.status)
    then record f { status = cancelled; retry_at = 0 }
    else f

abbrev pub is_downloading : Status → Bool
is_downloading downloading = true
is_downloading _ = false

-- the body of its outer loop, for a cycle that is not kept
unfoldable pub expire_cycle : Cycle → Cycle
expire_cycle c =
    let d : Cycle = record c { files = map_rows expire c.files } in
    if any_row (λ e. is_held e || is_downloading e.status) d.files
    then d
    else record d { publication = "expired"; publication_error = some ""; active_file = none }

unfoldable pub expire_cycles : List String → Table String Cycle → Table String Cycle
expire_cycles keep [] = []
expire_cycles keep ((id, c) ∷ cycles) =
    (id, if any (λ k. k == id) keep then c else expire_cycle c) ∷ expire_cycles keep cycles

-- `expire_prefetch`
unfoldable pub expire_prefetch : Clock → List String → Pool → Answer
expire_prefetch now keep q =
    if not (all safe_cycle keep)
    then refused bad_cycle
    else done (record q { cycles = expire_cycles keep q.cycles; updated_at = now.utc_now })

-- `forget`
unfoldable pub forget : Clock → String → Pool → Answer
forget now cycle q =
    if not (safe_cycle cycle) then refused bad_cycle else elim (find cycle q.cycles) [
      | none ↦ done q
      | some c ↦ done (record q { cycles = delete cycle q.cycles; updated_at = now.utc_now })
    ]
