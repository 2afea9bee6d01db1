-- ===== src/Pool/Due.antt =====
-- scripts/forcing_pool_queue.py: the choices of `_pick_next` and the files that may start.
use backend_wrf.Base.{
  ℕ, ◌≡◌, ◌≤◌, refl, string_eq, ℕ_eq, String, Bool, true, false, Bool-cases, inl, inr, ◌⊎◌, List,
  [], ◌∷◌, ◌++◌, arith, if◌then◌else◌,
}
use backend_wrf.Table.{Table}
use backend_wrf.Pool.{Args, Disk, Clock, Entry, Cycle, safe_cycle}
use backend_wrf.Pool.Pick.{
  Choice, Visit, passed, probe, offered, visit, visit_file, choices, offers, add_offer, is_task,
  is_retry_wait, is_withdrawn, is_failed,
}
use backend_wrf.Pool.Order.{Among, here, there}

-- A row of a table.
pub data RowOf {ℓ κ} {K : Type ℓ} {V : Type κ} (k : K) (v : V) : Table K V → Type (ℓ ⊔ κ) where
  first : {t : Table K V} → RowOf k v ((k, v) ∷ t)
  after : {row : K × V} {t : Table K V} → RowOf k v t → RowOf k v (row ∷ t)

-- The choice stands for a file of the queue that is offered with its priority.
pub record Due (args : Args) (disk : Disk) (now : Clock) (q : Table String Cycle) (c : Choice)
    : Type 0 where
  pub item : Cycle
  pub entry : Entry
  pub in_queue : RowOf c.cycle item q
  pub in_cycle : RowOf c.hour entry item.files
  pub is_offered : (visit_file args disk now c.cycle item c.hour entry).1 ≡ offered c.priority

Among-add_offer :
    (c : Choice) (id : String) (hour : ℕ) (v : Visit) (cs : List Choice)
    → Among c (add_offer id hour v cs)
    → ((c.cycle ≡ id) × (c.hour ≡ hour) × (v ≡ offered c.priority)) ⊎ Among c cs
unfolding add_offer
Among-add_offer c id hour (offered p) cs here = inl (refl, refl, refl)
Among-add_offer c id hour (offered p) cs (there m) = inr m
Among-add_offer c id hour probe cs m = inr m
Among-add_offer c id hour passed cs m = inr m

Among-append : (c : Choice) (xs ys : List Choice) → Among c (xs ++ ys) → Among c xs ⊎ Among c ys
Among-append c [] ys m = inr m
Among-append c (a ∷ xs) ys here = inl here
Among-append c (a ∷ xs) ys (there m) = elim (Among-append c xs ys m) [
  | inl n ↦ inl (there n)
  | inr n ↦ inr n
]

Among-offers :
    (c : Choice) (id : String) (f : ℕ → Entry → Entry × Visit) (files : Table ℕ Entry)
    → Among c (offers id f files)
    → (c.cycle ≡ id) × (e : Entry) × RowOf c.hour e files × ((f c.hour e).1 ≡ offered c.priority)
unfolding offers
Among-offers c id f [] m = elim m [ ]
Among-offers c id f ((hour, e) ∷ files) m =
    elim (Among-add_offer c id hour ((f hour e).1) (offers id f files) m) [
      | inl (i, h, o) ↦ (i, e, rw h first, rw (h, o))
      | inr n ↦ later_row (Among-offers c id f files n)
    ]
  where
    later_row :
        ((c.cycle ≡ id)
          × (g : Entry) × RowOf c.hour g files
          × ((f c.hour g).1 ≡ offered c.priority))
        → (c.cycle ≡ id)
          × (g : Entry) × RowOf c.hour g ((hour, e) ∷ files)
          × ((f c.hour g).1 ≡ offered c.priority)
    later_row (i, g, r, o) = (i, g, after r, o)

-- a cycle further down
Due-after :
    (args : Args) (disk : Disk) (now : Clock) (row : String × Cycle) (cycles : Table String Cycle)
    (c : Choice)
    → Due args disk now cycles c
    → Due args disk now (row ∷ cycles) c
Due-after args disk now row cycles c d = record {
  item = d.item;
  entry = d.entry;
  in_queue = after d.in_queue;
  in_cycle = d.in_cycle;
  is_offered = d.is_offered;
}

Due-offers :
    (args : Args) (disk : Disk) (now : Clock) (id : String) (item : Cycle)
    (cycles : Table String Cycle) (c : Choice)
    → Among c (offers id (visit_file args disk now id item) item.files)
    → Due args disk now ((id, item) ∷ cycles) c
Due-offers args disk now id item cycles c m =
    of_row (Among-offers c id (visit_file args disk now id item) item.files m)
  where
    of_row :
        ((c.cycle ≡ id)
          × (e : Entry) × RowOf c.hour e item.files
          × ((visit_file args disk now id item c.hour e).1 ≡ offered c.priority))
        → Due args disk now ((id, item) ∷ cycles) c
    of_row (i, e, r, o) = record {
      item = item;
      entry = e;
      in_queue = rw i first;
      in_cycle = r;
      is_offered = rw (i, o);
    }

Among-if :
    (c : Choice) (b : Bool) (xs ys : List Choice)
    → Among c (if b then xs ++ ys else ys)
    → Among c xs ⊎ Among c ys
Among-if c true xs ys m = Among-append c xs ys m
Among-if c false xs ys m = inr m

pub Due-choices :
    (args : Args) (disk : Disk) (now : Clock) (cycles : Table String Cycle) (c : Choice)
    → Among c (choices args disk now cycles)
    → Due args disk now cycles c
unfolding choices
Due-choices args disk now [] c m = elim m [ ]
Due-choices args disk now ((id, item) ∷ cycles) c m =
    elim (Among-if c (safe_cycle id) (offers id (visit_file args disk now id item) item.files)
      (choices args disk now cycles) m) [
        | inl n ↦ Due-offers args disk now id item cycles c n
        | inr n ↦ Due-after args disk now (id, item) cycles c (Due-choices args disk now cycles c n)
      ]

-- What it takes to be offered: the file is not on the disk, its entry is neither withdrawn nor
-- given up, and no wait is left.
pub record MayStart (now : Clock) (on_disk : Bool) (e : Entry) : Type 0 where
  pub missing : on_disk ≡ false
  pub not_withdrawn : is_withdrawn e.status ≡ false
  pub not_failed : is_failed e.status ≡ false
  pub waited : is_retry_wait e.status ≡ true → e.terminal_retry_at ≤ now.epoch_now
  pub due : is_retry_wait e.status ≡ false → e.retry_at ≤ now.epoch_now

pub MayStart-visit :
    (now : Clock) (c : Cycle) (on_disk : Bool) (size : ℕ) (e : Entry) (p : ℕ)
    → (visit now c on_disk size e).1 ≡ offered p
    → MayStart now on_disk e × (p ≡ (if is_task e.priority then 0 else 1))
unfolding visit
MayStart-visit now c on_disk size e p h = (
  record {
    missing = ground arith;
    not_withdrawn = ground arith;
    not_failed = ground arith;
    waited = λ w. ground arith;
    due = λ w. ground arith;
  },
  ground arith,
)

Among-add_offer_old :
    (c : Choice) (id : String) (hour : ℕ) (v : Visit) (cs : List Choice)
    → Among c cs
    → Among c (add_offer id hour v cs)
unfolding add_offer
Among-add_offer_old c id hour (offered p) cs m = there m
Among-add_offer_old c id hour probe cs m = m
Among-add_offer_old c id hour passed cs m = m

Among-append_left : (c : Choice) (xs ys : List Choice) → Among c xs → Among c (xs ++ ys)
Among-append_left c (x ∷ xs) ys here = here
Among-append_left c (x ∷ xs) ys (there m) = there (Among-append_left c xs ys m)
Among-append_left c [] ys m = elim m [ ]

Among-append_right : (c : Choice) (xs ys : List Choice) → Among c ys → Among c (xs ++ ys)
Among-append_right c [] ys m = m
Among-append_right c (x ∷ xs) ys m = there (Among-append_right c xs ys m)

Among-offers_row :
    (c : Choice) (f : ℕ → Entry → Entry × Visit) (e : Entry) (files : Table ℕ Entry)
    → (f c.hour e).1 ≡ offered c.priority
    → RowOf c.hour e files
    → Among c (offers c.cycle f files)
unfolding offers add_offer
Among-offers_row c f e (row ∷ files) o first = rw o here
Among-offers_row c f e ((hour, g) ∷ files) o (after r) =
    Among-add_offer_old c c.cycle hour _ _ (Among-offers_row c f e files o r)
Among-offers_row c f e [] o r = elim r [ ]

Among-if_right :
    (c : Choice) (b : Bool) (xs ys : List Choice)
    → Among c ys
    → Among c (if b then xs ++ ys else ys)
Among-if_right c true xs ys m = Among-append_right c xs ys m
Among-if_right c false xs ys m = m

pub Among-choices :
    (args : Args) (disk : Disk) (now : Clock) (c : Choice) (item : Cycle) (e : Entry)
    → (cycles : Table String Cycle) → safe_cycle c.cycle ≡ true
    → RowOf c.cycle item cycles
    → RowOf c.hour e item.files
    → (visit_file args disk now c.cycle item c.hour e).1 ≡ offered c.priority
    → Among c (choices args disk now cycles)
unfolding choices
Among-choices args disk now c item e (row ∷ cycles) safe first r o = rw safe (
    Among-append_left c _ _
      (Among-offers_row c (visit_file args disk now c.cycle item) e item.files o r))
Among-choices args disk now c item e ((id, other) ∷ cycles) safe (after q) r o =
    Among-if_right c (safe_cycle id) _ _ (Among-choices args disk now c item e cycles safe q r o)
Among-choices args disk now c item e [] safe q r o = elim q [ ]

pub visit-MayStart :
    (now : Clock) (c : Cycle) (on_disk : Bool) (size : ℕ) (e : Entry)
    → MayStart now on_disk e
    → is_task e.priority ≡ true
    → (visit now c on_disk size e).1 ≡ offered 0
unfolding visit
visit-MayStart now c on_disk size e may asked = elim (Bool-cases (is_retry_wait e.status)) [
  | inl w ↦ ground (arith, may.missing, may.not_withdrawn, may.not_failed, may.waited w)
  | inr w ↦ ground (arith, may.missing, may.not_withdrawn, may.not_failed, may.due w)
]
