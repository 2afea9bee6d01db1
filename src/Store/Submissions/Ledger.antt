-- ===== src/Store/Submissions/Ledger.antt =====
-- database.py: the submissions as a ledger of keys that are written once, apart from the table.
use backend_wrf.Base.{
  ◌≡◌, String, ◌==◌, string_eq, pair_eq, Bool, false, ◌||◌, Option, none, some, List, [], ◌∷◌,
  if◌then◌else◌,
}
use backend_wrf.Json.{Json}
use backend_wrf.Table.{find, any_row}
use backend_wrf.Table.Laws.{on_some}
use backend_wrf.Store.{Store, Submission, Error, Result, ok, err, value_error, type_error}
use backend_wrf.Store.Submissions.{
  conflict, reserve_submission, accept, accept_submission, get_submission,
}

-- What a client of the three methods asks for, and what it is told.
pub data Ask : Type 0 where
  reserves : String → String → Json → String → Ask
  accepts : String → String → Ask
  looks : String → String → Ask

pub data Said : Type 0 where
  row : Submission → Said
  raised : Error → Said
  done : Said
  seen : Option (String × Bool) → Said

-- The abstract ledger: what stands under a key, and which task ids have been given out.
pub record Ledger : Type 0 where
  pub entry : String × String → Option Submission
  pub given : String → Bool

abbrev pub id_taken : String → Submission → Bool
id_taken id x = x.task_id == id

-- The table holds what the ledger says.
pub record Shows (s : Store) (l : Ledger) : Type 0 where
  pub shown : (k : String × String) → find k s.submissions ≡ l.entry k
  pub ids : (id : String) → any_row (id_taken id) s.submissions ≡ l.given id

abbrev pub seen_of : Option Submission → Option (String × Bool)
seen_of none = none
seen_of (some r) = some (r.task_id, r.accepted)

-- A call that raises leaves the store as it was.
abbrev pub said_by : Store → Result Store Submission → Said × Store
said_by s (ok r t) = (row r, t)
said_by s (err e) = (raised e, s)

module _ (canonical : Json → String) where
  abbrev pub new_row : Json → String → Submission
  new_row q id = record { request_json = canonical q; task_id = id; accepted = false }

  -- An entry is written once, under an id that was never given, and is marked accepted later. A key
  -- that is there answers with its entry, to the same request only.
  abbrev pub enter : Option Submission → String × String → Json → String → Ledger → Said × Ledger
  enter (some v) k q id l =
      if v.request_json == canonical q then (row v, l) else (raised (value_error conflict), l)
  enter none k q id l = if l.given id then (raised type_error, l) else (
    row (new_row q id),
    record {
      entry = λ j. if k == j then some (new_row q id) else l.entry j;
      given = λ i. l.given i || id == i;
    },
  )

  unfoldable pub ledger_step : Ask → Ledger → Said × Ledger
  ledger_step (reserves owner key q id) l = enter (l.entry (owner, key)) (owner, key) q id l
  ledger_step (accepts owner key) l = (
    done,
    record l { entry = λ j. if (owner, key) == j then on_some accept (l.entry j) else l.entry j },
  )
  ledger_step (looks owner key) l = (seen (seen_of (l.entry (owner, key))), l)

  unfoldable pub ledger_run : List Ask → Ledger → List Said × Ledger
  ledger_run [] l = ([], l)
  ledger_run (a ∷ as_later) l =
      let (x, m) = ledger_step a l in let (xs, n) = ledger_run as_later m in (x ∷ xs, n)

  -- The same calls of the store.
  unfoldable pub store_step : Ask → Store → Said × Store
  store_step (reserves owner key q id) s = said_by s (reserve_submission canonical owner key q id s)
  store_step (accepts owner key) s = (done, accept_submission owner key s)
  store_step (looks owner key) s = (seen (get_submission owner key s), s)

  unfoldable pub store_run : List Ask → Store → List Said × Store
  store_run [] s = ([], s)
  store_run (a ∷ as_later) s =
      let (x, t) = store_step a s in let (xs, u) = store_run as_later t in (x ∷ xs, u)

-- the ledger that a table shows
unfoldable pub ledger_of : Store → Ledger
ledger_of s = record {
  entry = λ k. find k s.submissions;
  given = λ id. any_row (id_taken id) s.submissions;
}
