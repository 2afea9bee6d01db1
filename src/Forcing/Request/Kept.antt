-- ===== src/Forcing/Request/Kept.antt =====
-- forcing_policy.py: the operation that `request_download` reserves, its owner and its window.
use backend_wrf.Base.{
  ℕ, ◌≡◌, ◌↔◌, refl, ◌∙◌, String, string_eq, ℕ_eq, eq_iff, nat_eq_iff, true, Option, Option-cases,
  Bool-cases, inl, inr, none, some, List, arith,
}
use backend_wrf.Json.{Dict}
use backend_wrf.Table.{Table, insert}
use backend_wrf.Table.Laws.{find-modify, find-insert}
use backend_wrf.Store.{Store, Operation, Result, ok, err}
use backend_wrf.Store.Operations.{
  forcing_operation, advanced, update_forcing_operation, record_forcing_operation,
}
use backend_wrf.Forcing.{Call}
use backend_wrf.Forcing.Request.{
  Request, same_range, reserve_download, send_download, settle_download, new_operation, doubt,
}

-- The operation is of the request's owner and asks for its cycle and window.
pub record Covers (q : Request) (first last : ℕ) (o : Operation) : Type 0 where
  pub same_owner : o.owner_sub ≡ q.actor
  pub same_source : o.source ≡ q.source
  pub same_cycle : o.cycle ≡ q.cycle
  pub same_first : o.start_hour ≡ first
  pub same_last : o.end_hour ≡ last

pub same_range-iff_Covers :
    (q : Request) (first last : ℕ) (o : Operation)
    → (same_range q first last o ≡ true) ↔ Covers q first last o
unfolding same_range
same_range-iff_Covers q first last o =
    let a = eq_iff o.owner_sub q.actor in
    let b = eq_iff o.source q.source in
    let c = eq_iff o.cycle q.cycle in
    let d = nat_eq_iff o.start_hour first in
    let e = nat_eq_iff o.end_hour last in
    (λ h. ground (arith, a, b, c, d, e), λ h. ground (arith, a, b, c, d, e))

-- Other threads neither remove the operation `id` nor change whose it is and what it asks for.
abbrev pub KeepsRange : String → (Store → Store) → Type 0
KeepsRange id world =
    (u : Store) (b : Operation)
    → forcing_operation id u ≡ some b
    → (c : Operation) × (forcing_operation id (world u) ≡ some c)
      × (c.owner_sub ≡ b.owner_sub)
      × (c.source ≡ b.source)
      × (c.cycle ≡ b.cycle)
      × (c.start_hour ≡ b.start_hour)
      × (c.end_hour ≡ b.end_hour)

-- The operation `id` is there and covers the request.
pub record Kept (id : String) (q : Request) (first last : ℕ) (t : Store) : Type 0 where
  pub operation : Operation
  pub there : forcing_operation id t ≡ some operation
  pub covers : Covers q first last operation

update-Kept :
    (now id status : String) (d : Dict) (q : Request) (first last : ℕ) (u t : Store)
    → Kept id q first last u
    → update_forcing_operation now id status d u ≡ ok tt t
    → Kept id q first last t
unfolding update_forcing_operation forcing_operation
update-Kept now id status d q first last u t k h =
    let c = k.covers in
    let e = find-modify id id (advanced now status d) u.operations in
    record {
      operation = advanced now status d k.operation;
      there = ground (arith, e, eq_iff id id, k.there);
      covers = record {
        same_owner = c.same_owner;
        same_source = c.same_source;
        same_cycle = c.same_cycle;
        same_first = c.same_first;
        same_last = c.same_last;
      };
    }

settle-Kept :
    (now id : String) (reply : Option Dict) (q : Request) (first last : ℕ) (u t : Store)
    → Kept id q first last u
    → settle_download now id reply u ≡ ok tt t
    → Kept id q first last t
unfolding settle_download
settle-Kept now id none q first last u t k h =
    update-Kept now id "unknown" doubt q first last u t k h
settle-Kept now id (some d) q first last u t k h =
    update-Kept now id "accepted" d q first last u t k h

world-Kept :
    (id : String) (world : Store → Store) (q : Request) (first last : ℕ) (u : Store)
    → KeepsRange id world
    → Kept id q first last u
    → Kept id q first last (world u)
world-Kept id world q first last u keeps k =
    let (c, e, owner, source, cycle, start, end) = keeps u k.operation k.there in
    record {
      operation = c;
      there = e;
      covers = record {
        same_owner = owner ∙ k.covers.same_owner;
        same_source = source ∙ k.covers.same_source;
        same_cycle = cycle ∙ k.covers.same_cycle;
        same_first = start ∙ k.covers.same_first;
        same_last = end ∙ k.covers.same_last;
      };
    }

pub send-Kept :
    (now id : String) (q : Request) (first last : ℕ) (reply : Option Dict) (world : Store → Store)
    (u t : Store) {a : Option Operation × List Call}
    → KeepsRange id world
    → Kept id q first last u
    → send_download now id q first last reply world u ≡ ok a t
    → Kept id q first last t
unfolding send_download
send-Kept now id q first last reply world u t keeps k h =
    settle-Kept now id reply q first last (world u) t (world-Kept id world q first last u keeps k)
      (settled (settle_download now id reply (world u)) refl)
  where
    settled :
        (r : Result Store (Unit {0}))
        → settle_download now id reply (world u) ≡ r
        → settle_download now id reply (world u) ≡ ok tt t
    settled (err e) p = absurd (ground arith)
    settled (ok tt v) p = ground arith

record-Kept :
    (now id : String) (q : Request) (first last : ℕ) (s u : Store)
    → record_forcing_operation id (new_operation now q first last) s ≡ ok tt u
    → Kept id q first last u
unfolding record_forcing_operation new_operation forcing_operation
record-Kept now id q first last s u h = inserted (insert id row s.operations) refl
  where
    row : Operation
    row = new_operation now q first last

    inserted :
        (o : Option (Table String Operation))
        → insert id row s.operations ≡ o
        → Kept id q first last u
    inserted none p = absurd (ground arith)
    inserted (some t) p = record {
      operation = row;
      there = ground (arith, find-insert id id row s.operations p, eq_iff id id);
      covers = record {
        same_owner = refl;
        same_source = refl;
        same_cycle = refl;
        same_first = refl;
        same_last = refl;
      };
    }

pub reserve-Kept :
    (now id : String) (q : Request) (first last : ℕ) (s u : Store) (o : Option Operation)
    → reserve_download now id q first last s ≡ ok o u
    → Kept id q first last u
unfolding reserve_download
reserve-Kept now id q first last s u o h = elim (Option-cases (forcing_operation id s)) [
  | inl absent ↦
      record-Kept now id q first last s u
        (recorded (record_forcing_operation id (new_operation now q first last) s) refl absent)
  | inr (b, there) ↦ elim (Bool-cases (same_range q first last b)) [
    | inl e ↦ record {
      operation = b;
      there = ground (arith, there, e);
      covers = (same_range-iff_Covers q first last b).0 e;
    }
    | inr e ↦ absurd (ground (arith, there, e))
  ]
]
  where
    recorded :
        (r : Result Store (Unit {0}))
        → record_forcing_operation id (new_operation now q first last) s ≡ r
        → forcing_operation id s ≡ none
        → record_forcing_operation id (new_operation now q first last) s ≡ ok tt u
    recorded (err e) p absent = absurd (ground arith)
    recorded (ok tt v) p absent = ground arith
