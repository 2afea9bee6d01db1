-- ===== src/Store/Operations.antt =====
-- database.py: the operations that download forcing files.
use backend_wrf.Base.{
  ℕ, ◌+◌, ◌≡◌, refl, String, ◌==◌, string_eq, Bool, ◌&&◌, ◌||◌, Option, none, some, [], ◌∷◌,
  if◌then◌else◌,
}
use backend_wrf.Json.{Dict, update}
use backend_wrf.Table.{Table, find, insert, modify, map_rows, any_row}
use backend_wrf.Store.{Store, Operation, Result, ok, err, value_error, integrity_error}

-- `forcing_operation`
unfoldable pub forcing_operation : String → Store → Option Operation
forcing_operation id s = find id s.operations

-- `record_forcing_operation`
unfoldable pub record_forcing_operation : String → Operation → Store → Result Store (Unit {0})
record_forcing_operation id o s = elim (insert id o s.operations) [
  | none ↦ err integrity_error
  | some t ↦ ok tt (record s { operations = t })
]

abbrev pub advanced : String → String → Dict → Operation → Operation
advanced now status detail o = record o {
  status = status;
  updated_at = now;
  detail = update o.detail detail;
}

-- `update_forcing_operation`
unfoldable pub update_forcing_operation :
    String → String → String → Dict → Store → Result Store (Unit {0})
update_forcing_operation now id status detail s = elim (forcing_operation id s) [
  | none ↦ err (value_error "下载操作不存在")
  | some o ↦ ok tt (record s { operations = modify id (advanced now status detail) s.operations })
]

-- `status IN ('submitting','accepted','unknown','cancel_pending','cancel_unknown')`
unfoldable pub holds_reference : String → Bool
holds_reference status =
    status == "submitting"
    || status == "accepted"
    || status == "unknown"
    || status == "cancel_pending"
    || status == "cancel_unknown"

-- the condition of `forcing_download_cycles` and `forcing_download_reference_counts` on a row
unfoldable pub protects : String → String → Operation → Bool
protects source cycle o = o.source == source && holds_reference o.status && o.cycle == cycle

-- `cycle in forcing_download_cycles(source)`
unfoldable pub cycle_held : String → String → Store → Bool
cycle_held source cycle s = any_row (protects source cycle) s.operations

unfoldable pub count_rows : (Operation → Bool) → Table String Operation → ℕ
count_rows p [] = 0
count_rows p ((id, o) ∷ t) = if p o then 1 + count_rows p t else count_rows p t

-- `forcing_download_reference_counts(source).get(cycle, 0)`
unfoldable pub reference_count : String → String → Store → ℕ
reference_count source cycle s = count_rows (protects source cycle) s.operations

pub count_rows-map_rows :
    (p : Operation → Bool) (f : Operation → Operation) (t : Table String Operation)
    → ((o : Operation) → p (f o) ≡ p o)
    → count_rows p (map_rows f t) ≡ count_rows p t
unfolding count_rows map_rows
count_rows-map_rows p f [] h = refl
count_rows-map_rows p f ((id, o) ∷ t) h = rw (h o, count_rows-map_rows p f t h)
