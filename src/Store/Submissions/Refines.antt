-- ===== src/Store/Submissions/Refines.antt =====
-- database.py: how the table of submissions and the ledger of keys go together.
use backend_wrf.Base.{
  ◌≡◌, refl, sym, ap, ◌∙◌, String, ◌==◌, string_eq, pair_eq, eq_iff, Bool, true, false, ◌||◌, inl,
  inr, Option-cases, Bool-cases, none, some, List, [], ◌∷◌, ◌++◌, arith, if◌then◌else◌,
}
use backend_wrf.Json.{Json}
use backend_wrf.Table.{Table, insert_or_ignore, find, insert, modify, any_row}
use backend_wrf.Table.Laws.{find-insert, find-modify}
use backend_wrf.Store.{Store, Submission}
use backend_wrf.Store.Submissions.Ledger.{
  Ask, reserves, accepts, looks, Said, Ledger, Shows, id_taken, new_row, enter, ledger_step,
  ledger_run, said_by, store_step, store_run, ledger_of,
}
use backend_wrf.Store.Submissions.{
  offer, offer_there, compare_request, reserve_submission, accept, accept_submission,
  get_submission,
}

module _ (canonical : Json → String) where
  -- One step of both says the same, and leaves a table that shows the ledger.
  record Agrees (x : Said × Store) (y : Said × Ledger) : Type 0 where
    same : x.0 ≡ y.0
    shows : Shows (x.1) (y.1)

  any_row-last :
      (p : Submission → Bool) (k : String × String) (r : Submission)
      (t : Table (String × String) Submission)
      → any_row p (t ++ (k, r) ∷ []) ≡ (any_row p t || p r)
  unfolding any_row
  any_row-last p k r [] = ground arith
  any_row-last p k r ((j, v) ∷ t) = ground (arith, any_row-last p k r t)

  any_row-modify :
      (id : String) (k : String × String) (t : Table (String × String) Submission)
      → any_row (id_taken id) (modify k accept t) ≡ any_row (id_taken id) t
  unfolding any_row modify
  any_row-modify id k [] = refl
  any_row-modify id k ((j, v) ∷ t) = ground (arith, any_row-modify id k t)

  find-last_row :
      (k j : String × String) (r : Submission) (t : Table (String × String) Submission)
      → find k t ≡ none
      → find j (t ++ (k, r) ∷ []) ≡ (if k == j then some r else find j t)
  unfolding insert
  find-last_row k j r t absent = find-insert k j r t (ground (arith, absent))

  offer_new :
      (k : String × String) (r : Submission) (t : Table (String × String) Submission)
      → find k t ≡ none
      → any_row (id_taken r.task_id) t ≡ false
      → offer k r t ≡ t ++ (k, r) ∷ []
  unfolding offer insert_or_ignore
  offer_new k r t absent free = ground (arith, absent, free)

  offer_given :
      (k : String × String) (r : Submission) (t : Table (String × String) Submission)
      → any_row (id_taken r.task_id) t ≡ true
      → offer k r t ≡ t
  unfolding offer
  offer_given k r t used = ground (arith, used)

  abbrev offered : String × String → Json → String → Store → Store
  offered k q id s = record s { submissions = offer k (new_row canonical q id) s.submissions }

  compared-there :
      (s t : Store) (l : Ledger) (k : String × String) (q : Json) (id : String) (v : Submission)
      → Shows s l
      → t.submissions ≡ s.submissions
      → Agrees
          (said_by s (compare_request (canonical q) (some v) t))
          (enter canonical (some v) k q id l)
  unfolding compare_request
  compared-there s t l k q id v sh e = elim (Bool-cases (v.request_json == canonical q)) [
    | inl same ↦ rw same (record {
      same = refl;
      shows = record {
        shown = λ j. ap (λ x. find j x) e ∙ sh.shown j;
        ids = λ i. ap (λ x. any_row (id_taken i) x) e ∙ sh.ids i;
      };
    })
    | inr other ↦ rw other (record { same = refl; shows = sh })
  ]

  compared-new :
      (s : Store) (l : Ledger) (k : String × String) (q : Json) (id : String)
      → Shows s l
      → find k s.submissions ≡ none
      → Agrees
          (said_by s (
            compare_request
              (canonical q)
              (find k (offered k q id s).submissions)
              (offered k q id s)))
          (enter canonical none k q id l)
  unfolding compare_request
  compared-new s l k q id sh absent = elim (Bool-cases (any_row (id_taken id) s.submissions)) [
    | inl used ↦
        rw
          (
            offer_given k (new_row canonical q id) s.submissions used,
            absent,
            sym (sh.ids id) ∙ used,
          )
          (record { same = refl; shows = sh })
    | inr free ↦ entered free (offer_new k (new_row canonical q id) s.submissions absent free)
  ]
    where
      entered :
          any_row (id_taken id) s.submissions ≡ false
          → offer k (new_row canonical q id) s.submissions
            ≡ s.submissions ++ (k, new_row canonical q id) ∷ []
          → Agrees
              (said_by s (
                compare_request
                  (canonical q)
                  (find k (offered k q id s).submissions)
                  (offered k q id s)))
              (enter canonical none k q id l)
      entered free e =
          let there : find k (offer k (new_row canonical q id) s.submissions)
              ≡ some (new_row canonical q id) =
            ap (λ t. find k t) e
            ∙ ground (
              arith,
              find-last_row k k (new_row canonical q id) s.submissions absent,
              pair_eq.same_iff k k,
            ) in
          rw (there, sym (sh.ids id) ∙ free, (eq_iff (canonical q) (canonical q)).1 refl)
            (record {
              same = refl;
              shows = record {
                shown = λ j.
                    ap (λ t. find j t) e
                    ∙ ground (
                      arith,
                      find-last_row k j (new_row canonical q id) s.submissions absent,
                      sh.shown j,
                    );
                ids = λ i.
                    ap (λ t. any_row (id_taken i) t) e
                    ∙ ground (
                      arith,
                      any_row-last (id_taken i) k (new_row canonical q id) s.submissions,
                      sh.ids i,
                    );
              };
            })

  step-Agrees :
      (a : Ask) (s : Store) (l : Ledger)
      → Shows s l
      → Agrees (store_step canonical a s) (ledger_step canonical a l)
  unfolding store_step ledger_step reserve_submission accept_submission get_submission
  step-Agrees (reserves owner key q id) s l sh =
      elim (Option-cases (find (owner, key) s.submissions)) [
        | inl absent ↦
            rw (sym (sh.shown (owner, key)) ∙ absent) (compared-new s l (owner, key) q id sh absent)
        | inr (v, there) ↦
            let e = offer_there (owner, key) (new_row canonical q id) v s.submissions there in
            rw (ap (λ t. find (owner, key) t) e ∙ there, sym (sh.shown (owner, key)) ∙ there)
              (compared-there s (offered (owner, key) q id s) l (owner, key) q id v sh e)
      ]
  step-Agrees (accepts owner key) s l sh = record {
    same = refl;
    shows = record {
      shown = λ j. ground (arith, find-modify (owner, key) j accept s.submissions, sh.shown j);
      ids = λ i. any_row-modify i (owner, key) s.submissions ∙ sh.ids i;
    };
  }
  step-Agrees (looks owner key) s l sh = record {
    same = ground (arith, sh.shown (owner, key));
    shows = sh;
  }

  run-Agrees :
      (asks : List Ask) (s : Store) (l : Ledger)
      → Shows s l
      → ((store_run canonical asks s).0 ≡ (ledger_run canonical asks l).0)
        × Shows (store_run canonical asks s).1 (ledger_run canonical asks l).1
  unfolding store_run ledger_run
  run-Agrees [] s l sh = (refl, sh)
  run-Agrees (a ∷ asks) s l sh =
      let first = step-Agrees a s l sh in
      let later =
        run-Agrees asks (store_step canonical a s).1 (ledger_step canonical a l).1 first.shows in
      (ground (arith, first.same, later.0), later.1)

-- Any sequence of reservations, acceptances and lookups is answered by the store, errors included, as
-- by a ledger in which an entry is written once, under a key that has none and a task id that was never
-- given, and only its mark of acceptance changes later; and afterwards the table still shows that
-- ledger.
pub store_run-ledger_run :
    (canonical : Json → String) (asks : List Ask) (s : Store)
    → ((store_run canonical asks s).0 ≡ (ledger_run canonical asks (ledger_of s)).0)
      × Shows (store_run canonical asks s).1 (ledger_run canonical asks (ledger_of s)).1
unfolding ledger_of
store_run-ledger_run canonical asks s =
    run-Agrees canonical asks s (ledger_of s) (record { shown = λ k. refl; ids = λ i. refl })
