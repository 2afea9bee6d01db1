-- ===== src/Pool/Next.antt =====
-- scripts/forcing_pool_queue.py: the file that `_pick_next` returns, in terms of the queue.
use backend_wrf.Base.{ℕ, ◌≡◌, ◌≢◌, refl, ap, String, true, List, [], ◌∷◌, arith, if◌then◌else◌}
use mathlib.Core.Path.{subst}
use backend_wrf.Pool.{Args, Disk, Clock, Entry, Cycle, Pool, safe_cycle, valid}
use backend_wrf.Pool.Pick.{
  Choice, Picked, nothing, to_probe, to_download, visit_file, pick_next, choices, is_task,
}
use backend_wrf.Pool.Order.{Among, here, there, TaskFirst, idle, probes, downloads, pick-TaskFirst}
use backend_wrf.Pool.Due.{
  Due, RowOf, MayStart, Due-choices, MayStart-visit, visit-MayStart, Among-choices,
}

-- a file that stands in the queue and that may start
pub record Startable (args : Args) (disk : Disk) (now : Clock) (q : Pool) (c : Choice)
    : Type 0 where
  pub item : Cycle
  pub entry : Entry
  pub in_queue : RowOf c.cycle item q.cycles
  pub in_cycle : RowOf c.hour entry item.files
  pub may_start : MayStart now (valid args disk c.cycle c.hour) entry
  pub number : c.priority ≡ (if is_task entry.priority then 0 else 1)

abbrev taken : Choice → Picked → Choice
taken c (to_download d) = d
taken c (to_probe id) = c
taken c nothing = c

not-Among : (d : Choice) (cs : List Choice) → Among d cs → cs ≢ []
not-Among d [] m e = elim m [ ]
not-Among d (c ∷ cs) here e = absurd (ground arith)
not-Among d (c ∷ cs) (there m) e = absurd (ground arith)

module _ (args : Args) (disk : Disk) (now : Clock) (q : Pool) where
  Startable-of : (c : Choice) → Due args disk now q.cycles c → Startable args disk now q c
  unfolding visit_file
  Startable-of c d =
      let both =
        MayStart-visit now d.item (valid args disk c.cycle c.hour) _ d.entry c.priority
          d.is_offered in
      record {
        item = d.item;
        entry = d.entry;
        in_queue = d.in_queue;
        in_cycle = d.in_cycle;
        may_start = both.0;
        number = both.1;
      }

  chosen :
      (c : Choice) (p : Picked)
      → TaskFirst (choices args disk now q.cycles) p
      → p ≡ to_download c
      → Among c (choices args disk now q.cycles)
  chosen c nothing (idle n) e = absurd (ground arith)
  chosen c (to_probe id) (probes n) e = absurd (ground arith)
  chosen c (to_download d) (downloads m n) e =
      subst (λ x. Among x (choices args disk now q.cycles)) (ap (taken d) e) m

  -- The file that the worker is told to download stands in the queue; it is not on the disk, its
  -- entry is neither withdrawn nor given up, and its waiting time is over.
  pub pick_next-Startable :
      (c : Choice) → (pick_next args disk now q).0 ≡ to_download c → Startable args disk now q c
  unfolding pick_next
  pick_next-Startable c h =
      Startable-of c (Due-choices args disk now q.cycles c (chosen c _ (pick-TaskFirst _ _) h))

  takes_task :
      (d : Choice) (p : Picked)
      → TaskFirst (choices args disk now q.cycles) p
      → Among d (choices args disk now q.cycles)
      → d.priority ≡ 0
      → (c : Choice) × (p ≡ to_download c) × (c.priority ≡ 0)
  takes_task d nothing (idle e) m z = absurd (not-Among d _ m e)
  takes_task d (to_probe id) (probes n) m z = absurd (n d m z)
  takes_task d (to_download c) (downloads m n) k z = (c, refl, ground (arith, n d k))

  -- If a file that a task asks for may start, in a cycle with a well-formed name, then the worker is
  -- told to download a file, and it is one that a task asks for: no prefetch and no probe comes
  -- first.
  pub pick_next-task_first :
      (cycle : String) (hour : ℕ) (item : Cycle) (e : Entry)
      → safe_cycle cycle ≡ true
      → RowOf cycle item q.cycles
      → RowOf hour e item.files
      → MayStart now (valid args disk cycle hour) e
      → is_task e.priority ≡ true
      → (c : Choice) × ((pick_next args disk now q).0 ≡ to_download c)
        × (s : Startable args disk now q c) × (is_task s.entry.priority ≡ true)
  unfolding pick_next visit_file
  pick_next-task_first cycle hour item e safe r f may asked =
      let d : Choice = record { priority = 0; cycle = cycle; hour = hour } in
      let o = visit-MayStart now item (valid args disk cycle hour) _ e may asked in
      let m = Among-choices args disk now d item e q.cycles safe r f o in
      let (c, h, z) = takes_task d _ (pick-TaskFirst _ _) m refl in
      (c, h, pick_next-Startable c h, task_of (pick_next-Startable c h) z)
    where
      task_of :
          {c : Choice} (s : Startable args disk now q c)
          → c.priority ≡ 0
          → is_task s.entry.priority ≡ true
      task_of s z = ground (arith, s.number)
