-- ===== src/Manager/Attempts/Ended.antt =====
-- task_manager.py: what the plan of a restart knows of the remote attempt.
use backend_wrf.Base.{
  ◌≡◌, refl, ap, ◌∙◌, String, string_eq, attempt_eq, ℕ_eq, ◌==◌, Bool, true, false, not, ◌&&◌, ◌||◌,
  Option, none, some, inl, inr, arith, if◌then◌else◌, Option-cases,
}
use backend_wrf.Json.{get, truthy?}
use backend_wrf.Store.{Task}
use backend_wrf.Manager.{Manager, launched, wrf_succeeded}
use backend_wrf.Manager.Attempts.{
  get_decorated, is_stopped, Remote, remote_status, can_restart, restart_plan,
}

-- The remote attempt is known to be over, or to have never begun.
unfoldable pub has_ended : Remote → Bool → Task → Bool
has_ended q completed t =
    if completed && wrf_succeeded t.runtime
    then truthy? (get "release_id" t.runtime) && q.verified
    else if q.proves
    then q.terminal
    else q.status == "failed"
      || q.status == "missing" && not (launched t.runtime)
      || q.status == "succeeded" && completed

pub record Planned (q : Remote) (completed : Bool) (t : Task) : Type 0 where
  pub over : is_stopped t.status ≡ true
  pub ended : has_ended q completed t ≡ true

by_proof :
    (completed ok : Bool) (t : Task)
    → can_restart (if ok then "failed" else "unknown") completed t ≡ true
    → ok ≡ true
unfolding can_restart
by_proof completed true t h = refl
by_proof completed false t h = h

by_verification :
    (completed ok : Bool) (t : Task)
    → can_restart (if ok then "succeeded" else "unknown") completed t ≡ true
    → ok ≡ true
unfolding can_restart
by_verification completed true t h = refl
by_verification completed false t h = h

by_status :
    (empty_text : Bool) (s : String) (completed : Bool) (t : Task)
    → can_restart (if empty_text then "unknown" else s) completed t ≡ true
    → can_restart s completed t ≡ true
unfolding can_restart
by_status true s completed t h = absurd (ground (arith, h))
by_status false s completed t h = h

abbrev allowed : Bool → Task → Option String → Bool
allowed completed t none = false
allowed completed t (some s) = can_restart s completed t

-- the three ways to learn the remote status
ended_by :
    (done named verified proves terminal : Bool) (s : String) (completed : Bool) (t : Task)
    → allowed completed t (
        if done
        then (if not named then none else some (if verified then "succeeded" else "unknown"))
        else if proves
        then some (if terminal then "failed" else "unknown")
        else some (if s == "" then "unknown" else s))
      ≡ true
    → (if done then named && verified else if proves then terminal else can_restart s completed t)
      ≡ true
ended_by true true verified proves terminal s completed t h = by_verification completed verified t h
ended_by true false verified proves terminal s completed t h = absurd (ground (arith, h))
ended_by false named verified true terminal s completed t h = by_proof completed terminal t h
ended_by false named verified false terminal s completed t h = by_status (s == "") s completed t h

ended_at :
    (q : Remote) (completed : Bool) (t : Task)
    → allowed completed t (remote_status q completed t) ≡ true
    → has_ended q completed t ≡ true
unfolding remote_status has_ended can_restart
ended_at q completed t h =
    ended_by (completed && wrf_succeeded t.runtime) (truthy? (get "release_id" t.runtime))
      q.verified q.proves q.terminal q.status completed t h

ended_of :
    (q : Remote) (completed : Bool) (t : Task) (status : String)
    → remote_status q completed t ≡ some status
    → can_restart status completed t ≡ true
    → has_ended q completed t ≡ true
ended_of q completed t status e may =
    ended_at q completed t (ap (λ o. allowed completed t o) e ∙ may)

pub planned :
    (q : Remote) (completed : Bool) (id : String) (t : Task) (m : Manager)
    → get_decorated id m ≡ some t
    → restart_plan q completed id m ≡ inr true
    → Planned q completed t
unfolding restart_plan
planned q completed id t m there e = elim (Option-cases (remote_status q completed t)) [
  | inl n ↦ absurd (ground (arith, there, e, n))
  | inr (status, h) ↦ record {
    over = ground (arith, there, e, h);
    ended = ended_of q completed t status h (ground (arith, there, e, h));
  }
]
