-- ===== src/Manager/Finish/Complete.antt =====
-- task_manager.py: the end of `_finalize`, where the final status is set and the result is published.
use backend_wrf.Base.{
  ◌≡◌, refl, ap, sym, ◌∙◌, ◌==◌, string_eq, String, Bool, true, false, not, ◌&&◌, ◌||◌, some, inl,
  inr, arith, Bool-cases, Option-cases,
}
use backend_wrf.Json.{obj, Dict, field, empty, update}
use backend_wrf.Store.{Task}
use backend_wrf.Store.Tasks.{Env, Changes, get_task, changed_task}
use backend_wrf.Manager.{Manager, has, put, merge_runtime}
use backend_wrf.Manager.Confirmed.{get_task-put, get_task-merge_runtime}
use backend_wrf.Manager.Finish.{
  Finalizing, goes_on, is_complete, is_partial, is_partial_quality, publish_catalog_result, skipped,
  result_of, final_changes, end_finalize, final_status,
}

-- the task at the end
pub record Finished (enabled : Bool) (reply : Dict) (url id : String) (t : Task)
    (validation manifest : Dict) (m u : Manager) : Type 0 where
  pub row : Task
  pub stored : get_task id u.store ≡ some row
  pub publication : Dict
  pub result : row.result ≡ some (obj (result_of url id t manifest publication))
  pub success :
      (row.status == "succeeded") ≡ is_complete validation && not (is_partial_quality manifest)
  pub otherwise :
      (row.status == "partial_success")
      ≡ not (is_complete validation) || is_partial_quality manifest
  pub published :
      (is_partial validation manifest ≡ true → publication ≡ skipped)
      × (is_partial validation manifest ≡ false
          → publish_catalog_result enabled reply id t m.store ≡ some publication)

stored_after :
    (env : Env) (id : String) (c : Changes) (v : Dict) (m : Manager) (old : Task)
    → get_task id m.store ≡ some old
    → get_task id (put env id c (merge_runtime env id v m)).store
      ≡ some (
          changed_task env.now c
            (record old { runtime = update old.runtime v; updated_at = env.now }))
stored_after env id c v m old there =
    get_task-put env id c (merge_runtime env id v m)
    ∙ rw (get_task-merge_runtime env id v m old there) refl

abbrev at_end : Env → Bool → String → String → Task → Dict → Dict → Manager → Manager
at_end env partial url id t manifest publication m =
    put env id (final_changes partial (result_of url id t manifest publication))
      (merge_runtime env id (field "catalog_publication" (obj publication) empty) m)

named_success :
    (partial complete quality : Bool)
    → not complete || quality ≡ partial
    → (final_status partial == "succeeded") ≡ complete && not quality
named_success partial true true h = ap (λ p. final_status p == "succeeded") (sym h)
named_success partial true false h = ap (λ p. final_status p == "succeeded") (sym h)
named_success partial false quality h = ap (λ p. final_status p == "succeeded") (sym h)

named_partial :
    (partial complete quality : Bool)
    → not complete || quality ≡ partial
    → (final_status partial == "partial_success") ≡ not complete || quality
named_partial true complete quality h = sym h
named_partial false complete quality h = sym h

Finished-at_end :
    (env : Env) (enabled : Bool) (reply : Dict) (url id : String) (t : Task)
    (validation manifest publication : Dict) (m : Manager) (old : Task)
    → get_task id m.store ≡ some old
    → (is_partial validation manifest ≡ true → publication ≡ skipped)
    → (is_partial validation manifest ≡ false
        → publish_catalog_result enabled reply id t m.store ≡ some publication)
    → Finished enabled reply url id t validation manifest m
        (at_end env (is_partial validation manifest) url id t manifest publication m)
unfolding is_partial
Finished-at_end env enabled reply url id t validation manifest publication m old there p q =
    let partial = is_partial validation manifest in
    let c = final_changes partial (result_of url id t manifest publication) in
    let v = field "catalog_publication" (obj publication) empty in
    record {
      row =
          changed_task env.now c
            (record old { runtime = update old.runtime v; updated_at = env.now });
      stored = stored_after env id c v m old there;
      publication = publication;
      result = refl;
      success = named_success partial (is_complete validation) (is_partial_quality manifest) refl;
      otherwise = named_partial partial (is_complete validation) (is_partial_quality manifest) refl;
      published = (p, q);
    }

finished_state : (x : Finalizing) (w u : Manager) → x ≡ goes_on w → x ≡ goes_on u → u ≡ w
finished_state x w u e h = ground (arith, e, h)

-- When `_finalize` comes to its end for a stored task, the task is `succeeded` exactly if the
-- validation is complete and the quality in the manifest is not `partial`, and `partial_success`
-- otherwise. Its result holds the manifest and a publication, which is skipped for a partial result
-- and otherwise the one of `_publish_catalog_result`.
pub end_finalize-Finished :
    (env : Env) (enabled : Bool) (reply : Dict) (url id : String) (t : Task)
    (validation manifest : Dict) (m u : Manager) (old : Task)
    → get_task id m.store ≡ some old
    → end_finalize env enabled reply url id t validation manifest m ≡ goes_on u
    → Finished enabled reply url id t validation manifest m u
unfolding end_finalize
end_finalize-Finished env enabled reply url id t validation manifest m u old there done =
    elim (Bool-cases (has id m.cancelled)) [
      | inl c ↦ absurd (ground (arith, done, c))
      | inr c ↦ elim (Bool-cases (is_partial validation manifest)) [
        | inl p ↦
            let w = at_end env (is_partial validation manifest) url id t manifest skipped m in
            let ends : end_finalize env enabled reply url id t validation manifest m ≡ goes_on w =
              rw (c, p, end_finalize) refl in
            rw (finished_state _ w u ends done) (
              Finished-at_end env enabled reply url id t validation manifest skipped m old there
                (λ _. refl) (λ q. absurd (ground (arith, p, q))))
        | inr p ↦ elim (Option-cases (publish_catalog_result enabled reply id t m.store)) [
          | inl n ↦ absurd (ground (arith, done, c, p, n))
          | inr (publication, e) ↦
              let w = at_end env (is_partial validation manifest) url id t manifest publication m in
              let ends : end_finalize env enabled reply url id t validation manifest m ≡ goes_on w =
                rw (c, e, p, end_finalize) refl in
              rw (finished_state _ w u ends done) (
                Finished-at_end env enabled reply url id t validation manifest publication m old
                  there (λ q. absurd (ground (arith, p, q))) (λ _. e))
        ]
      ]
    ]
