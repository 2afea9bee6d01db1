-- ===== src/Forcing/Request/Range.antt =====
-- forcing_policy.py: what `request_download` asks of the client.
use backend_wrf.Base.{
  ℕ, suc, zero, ◌+◌, ◌-◌, ◌*◌, ◌/◌, ◌%◌, ◌≤◌, ◌<◌, ◌≡◌, ◌↔◌, refl, String, ◌==◌, string_eq, ℕ_eq,
  eq_iff, length, all, Bool, true, false, Option, ◌⊎◌, none, some, List, [], ◌∷◌, any, nat_eq,
  arith,
}
use backend_wrf.Json.{Dict}
use backend_wrf.Store.{Store, Operation, Result, ok, err}
use backend_wrf.Forcing.{is_cycle, Call, trigger_download}
use backend_wrf.Text.{codes, is_key_char}
use backend_wrf.Forcing.Request.{
  is_key, key_ok, Request, step_of, count_up, hours_of, check_request, reserve_download,
  send_download, identity, request_download,
}

-- `h in hours`
abbrev pub listed : ℕ → List ℕ → Bool
listed h hours = any (λ x. nat_eq x h) hours

listed-count_up_one :
    (n from h : ℕ) → (listed h (count_up n from 1) ≡ true) ↔ ((from ≤ h) × (h < from + n))
unfolding count_up
listed-count_up_one zero from h = (λ e. absurd (cc), λ e. absurd (omega arith))
listed-count_up_one (suc n) from h = (
  λ e. ground (arith, (listed-count_up_one n (from + 1) h).0),
  λ e. ground (arith, (listed-count_up_one n (from + 1) h).1),
)

listed-count_up_three :
    (n from h : ℕ)
    → from % 3 ≡ 0
    → (listed h (count_up n from 3) ≡ true) ↔ ((from ≤ h) × (h < from + n * 3) × (h % 3 ≡ 0))
unfolding count_up
listed-count_up_three zero from h d = (λ e. absurd (cc), λ e. absurd (omega arith))
listed-count_up_three (suc n) from h d = (
  λ e. ground (arith, (listed-count_up_three n (from + 3) h (omega arith)).0),
  λ e. ground (arith, (listed-count_up_three n (from + 3) h (omega arith)).1),
)

hours_of_one :
    (first last h : ℕ)
    → first ≤ last
    → (listed h (hours_of first last 1) ≡ true) ↔ ((first ≤ h) × (h ≤ last) × (h % 1 ≡ 0))
unfolding hours_of
hours_of_one first last h a =
    let l = listed-count_up_one ((last - first) / 1 + 1) first h in
    (λ e. omega (arith, l.0 e), λ e. l.1 (omega arith))

hours_of_three :
    (first last h : ℕ)
    → first ≤ last
    → first % 3 ≡ 0
    → last % 3 ≡ 0
    → (listed h (hours_of first last 3) ≡ true) ↔ ((first ≤ h) × (h ≤ last) × (h % 3 ≡ 0))
unfolding hours_of
hours_of_three first last h a b c =
    let l = listed-count_up_three ((last - first) / 3 + 1) first h b in
    (λ e. omega (arith, l.0 e), λ e. l.1 (omega arith))

-- The hours of a checked window are those from `first` to `last` that the source publishes.
pub listed-hours_of :
    (source : String) (first last h : ℕ)
    → first ≤ last
    → first % step_of source ≡ 0
    → last % step_of source ≡ 0
    → (listed h (hours_of first last (step_of source)) ≡ true)
      ↔ ((first ≤ h) × (h ≤ last) × (h % step_of source ≡ 0))
unfolding step_of
listed-hours_of source first last h a b c = split (source == "gfs") refl
  where
    split :
        (t : Bool)
        → (source == "gfs") ≡ t
        → (listed h (hours_of first last (step_of source)) ≡ true)
          ↔ ((first ≤ h) × (h ≤ last) × (h % step_of source ≡ 0))
    split true e = rw e (hours_of_one first last h a)
    split false e = rw e (hours_of_three first last h a (rw e at b) (rw e at c))

-- The window of a request that passed the checks.
pub record Window (q : Request) (first last : ℕ) : Type 0 where
  pub first_given : q.first ≡ some first
  pub last_given : q.last ≡ some last
  pub ordered : first ≤ last
  pub within : last ≤ 72
  pub first_aligned : first % step_of q.source ≡ 0
  pub last_aligned : last % step_of q.source ≡ 0
  pub known_source : (q.source ≡ "gfs") ⊎ (q.source ≡ "ecmwf")
  pub cycle_form : is_cycle q.cycle ≡ true
  pub key_form :
      (k : String)
      → q.key ≡ some k
      → (1 ≤ length (codes k)) × (length (codes k) ≤ 128) × (all is_key_char (codes k) ≡ true)

key_ok_elim :
    (o : Option String)
    → key_ok o ≡ true
    → (k : String) → o ≡ some k
    → (1 ≤ length (codes k)) × (length (codes k) ≤ 128) × (all is_key_char (codes k) ≡ true)
unfolding key_ok is_key
key_ok_elim none h k e = absurd (cc)
key_ok_elim (some j) h k e = ground arith

pub check_request-Window :
    (q : Request) (first last : Option ℕ) {a b : ℕ}
    → q.first ≡ first
    → q.last ≡ last
    → check_request q first last ≡ ok (a, b) tt
    → Window q a b
unfolding check_request
check_request-Window q none last f l h = absurd (ground arith)
check_request-Window q (some a) none f l h = absurd (ground arith)
check_request-Window q (some c) (some d) {a} {b} f l h = record {
  first_given = ground arith;
  last_given = ground arith;
  ordered = ground arith;
  within = ground arith;
  first_aligned = ground arith;
  last_aligned = ground arith;
  known_source = ground (arith, eq_iff q.source "gfs", eq_iff q.source "ecmwf");
  cycle_form = ground arith;
  key_form = λ k e. key_ok_elim q.key (ground arith) k e;
}

module _ (uuid5 : String → String → String) where
  -- A request that calls the client gave a window within f000 to f072 on the hours of GFS or ECMWF, a
  -- cycle of the right form and, if any, a key of 1 to 128 letters, digits, dots, underscores, colons
  -- and dashes. It calls the client once, and asks exactly for the hours of its window that the source
  -- publishes: each of them for GFS, each third for ECMWF.
  pub request_download_call :
      (now fresh : String) (q : Request) (reply : Option Dict) (world : Store → Store) (s t : Store)
      {o : Option Operation} {c : Call} {cs : List Call}
      → request_download uuid5 now fresh q reply world s ≡ ok (o, c ∷ cs) t
      → (first : ℕ) × (last : ℕ) × (hours : List ℕ) × Window q first last
        × (c ≡ trigger_download q.source q.cycle last hours (identity uuid5 q fresh))
        × (cs ≡ [])
        × ((h : ℕ)
            → (listed h hours ≡ true) ↔ ((first ≤ h) × (h ≤ last) × (h % step_of q.source ≡ 0)))
  unfolding request_download
  request_download_call now fresh q reply world s t {o} {c} {cs} h =
      split (check_request q q.first q.last) refl
    where
      id : String
      id = identity uuid5 q fresh

      sent :
          (first last : ℕ) (u : Store)
          → send_download now id q first last reply world u ≡ ok (o, c ∷ cs) t
          → Window q first last
          → (first : ℕ) × (last : ℕ) × (hours : List ℕ) × Window q first last
            × (c ≡ trigger_download q.source q.cycle last hours id)
            × (cs ≡ [])
            × ((h : ℕ)
                → (listed h hours ≡ true) ↔ ((first ≤ h) × (h ≤ last) × (h % step_of q.source ≡ 0)))
      sent first last u e w = (
        first,
        last,
        hours_of first last (step_of q.source),
        w,
        unfold send_download in ground arith,
        unfold send_download in ground arith,
        λ x. listed-hours_of q.source first last x w.ordered w.first_aligned w.last_aligned,
      )

      reserve :
          (first last : ℕ)
          → Window q first last
          → (r : Result Store (Option Operation)) → reserve_download now id q first last s ≡ r
          → check_request q q.first q.last ≡ ok (first, last) tt
          → (first : ℕ) × (last : ℕ) × (hours : List ℕ) × Window q first last
            × (c ≡ trigger_download q.source q.cycle last hours id)
            × (cs ≡ [])
            × ((h : ℕ)
                → (listed h hours ≡ true) ↔ ((first ≤ h) × (h ≤ last) × (h % step_of q.source ≡ 0)))
      reserve first last w (err e) p k = absurd (ground arith)
      reserve first last w (ok (some b) u) p k = absurd (ground arith)
      reserve first last w (ok none u) p k = sent first last u (ground arith) w

      split :
          (r : Result (Unit {0}) (ℕ × ℕ))
          → check_request q q.first q.last ≡ r
          → (first : ℕ) × (last : ℕ) × (hours : List ℕ) × Window q first last
            × (c ≡ trigger_download q.source q.cycle last hours id)
            × (cs ≡ [])
            × ((h : ℕ)
                → (listed h hours ≡ true) ↔ ((first ≤ h) × (h ≤ last) × (h % step_of q.source ≡ 0)))
      split (err e) p = absurd (ground arith)
      split (ok (a, b) tt) p =
          reserve a b (check_request-Window q q.first q.last refl refl p)
            (reserve_download now id q a b s) refl p
