-- ===== src/Forcing/Request/Repeat.antt =====
-- forcing_policy.py: `request_download` when its key has been used before.
use backend_wrf.Base.{
  ℕ, ◌≡◌, refl, sym, ap, ◌∙◌, String, string_eq, ℕ_eq, Option, Bool-cases, inl, inr, none, some,
  List, [], arith, if◌then◌else◌,
}
use mathlib.Core.Path.{subst}
use backend_wrf.Json.{Dict}
use backend_wrf.Store.{Store, Operation, Result, Error, ok, err, value_error}
use backend_wrf.Store.Operations.{forcing_operation}
use backend_wrf.Forcing.{Call}
use backend_wrf.Forcing.Request.{
  Request, check_request, same_range, reserve_download, identity, request_download, other_range,
}
use backend_wrf.Forcing.Request.Kept.{
  Covers, Kept, KeepsRange, same_range-iff_Covers, reserve-Kept, send-Kept,
}
use backend_wrf.Forcing.Request.Range.{Window, check_request-Window}

-- The two requests ask for the same files.
pub record Agree (q q' : Request) : Type 0 where
  pub source : q'.source ≡ q.source
  pub cycle : q'.cycle ≡ q.cycle
  pub first : q'.first ≡ q.first
  pub last : q'.last ≡ q.last

check_agrees :
    (q q' : Request) (first last : Option ℕ)
    → q'.source ≡ q.source
    → q'.cycle ≡ q.cycle
    → q'.key ≡ q.key
    → check_request q' first last ≡ check_request q first last
unfolding check_request
check_agrees q q' none last s c k = ground arith
check_agrees q q' (some a) none s c k = ground arith
check_agrees q q' (some a) (some b) s c k = ground arith

check_request-Agree :
    (q q' : Request)
    → Agree q q'
    → q'.key ≡ q.key
    → check_request q' q'.first q'.last ≡ check_request q q.first q.last
check_request-Agree q q' a k =
    ap (λ x. check_request q' x q'.last) a.first
    ∙ ap (λ x. check_request q' q.first x) a.last
    ∙ check_agrees q q' q.first q.last a.source a.cycle k

-- What the second request does in the store that the first one left, `b` being its operation.
pub data Repeated (q q' : Request) (b : Operation) (t : Store)
    (r : Result Store (Option Operation × List Call)) : Type 0 where
  same_request : Agree q q' → r ≡ ok (some b, []) t → Repeated q q' b t r
  other_request : ¬ (Agree q q') → (e : Error) → r ≡ err e → Repeated q q' b t r

module _ (uuid5 : String → String → String) where
  first-Kept :
      (now fresh : String) (q : Request) (reply : Option Dict) (world : Store → Store) (s t : Store)
      (first last : ℕ) {a : Option Operation × List Call}
      → KeepsRange (identity uuid5 q fresh) world
      → check_request q q.first q.last ≡ ok (first, last) tt
      → request_download uuid5 now fresh q reply world s ≡ ok a t
      → Kept (identity uuid5 q fresh) q first last t
  unfolding request_download
  first-Kept now fresh q reply world s t first last {a} keeps c h =
      reserve (reserve_download now id q first last s) refl
    where
      id : String
      id = identity uuid5 q fresh

      reserve :
          (r : Result Store (Option Operation))
          → reserve_download now id q first last s ≡ r
          → Kept id q first last t
      reserve (err e) p = absurd (ground (arith, c))
      reserve (ok (some b) u) p =
          let k = reserve-Kept now id q first last s u (some b) p in
          let e : u ≡ t = ground (arith, c) in subst (Kept id q first last) e k
      reserve (ok none u) p =
          send-Kept now id q first last reply world u t {a = a} keeps
            (reserve-Kept now id q first last s u none p) (ground (arith, c))

  second_answer :
      (now fresh : String) (q : Request) (reply : Option Dict) (world : Store → Store) (t : Store)
      (first last : ℕ) (b : Operation)
      → check_request q q.first q.last ≡ ok (first, last) tt
      → forcing_operation (identity uuid5 q fresh) t ≡ some b
      → request_download uuid5 now fresh q reply world t
        ≡ (if same_range q first last b then ok (some b, []) t else err (value_error other_range))
  unfolding request_download
  second_answer now fresh q reply world t first last b checked there =
      rw (checked, request_download)
        (unfold reserve_download in rw (there, reserve_download) (ground arith))

  second_refused :
      (now fresh : String) (q : Request) (reply : Option Dict) (world : Store → Store) (t : Store)
      (e : Error)
      → check_request q q.first q.last ≡ err e
      → request_download uuid5 now fresh q reply world t ≡ err e
  unfolding request_download
  second_refused now fresh q reply world t e refused = rw (refused, request_download) refl

  same_identity :
      (q q' : Request) (fresh fresh' k : String)
      → q.key ≡ some k
      → q'.key ≡ some k
      → q'.actor ≡ q.actor
      → identity uuid5 q' fresh' ≡ identity uuid5 q fresh
  unfolding identity
  same_identity q q' fresh fresh' k a b c = ground arith

  repeat-Repeated :
      (now' fresh' : String) (q q' : Request) (reply' : Option Dict) (world' : Store → Store)
      (t : Store) (first last : ℕ) (b : Operation)
      → q'.key ≡ q.key
      → q'.actor ≡ q.actor
      → check_request q q.first q.last ≡ ok (first, last) tt
      → Covers q first last b
      → forcing_operation (identity uuid5 q' fresh') t ≡ some b
      → Repeated q q' b t (request_download uuid5 now' fresh' q' reply' world' t)
  repeat-Repeated now' fresh' q q' reply' world' t first last b key actor checked covers there =
      split (check_request q' q'.first q'.last) refl
    where
      w : Window q first last
      w = check_request-Window q q.first q.last refl refl checked

      agrees : (first' last' : ℕ) → Window q' first' last' → Covers q' first' last' b → Agree q q'
      agrees first' last' w' c = record {
        source = sym c.same_source ∙ covers.same_source;
        cycle = sym c.same_cycle ∙ covers.same_cycle;
        first = ground (arith, w.first_given, w'.first_given, c.same_first, covers.same_first);
        last = ground (arith, w.last_given, w'.last_given, c.same_last, covers.same_last);
      }

      covered : (first' last' : ℕ) → Window q' first' last' → Agree q q' → Covers q' first' last' b
      covered first' last' w' a = record {
        same_owner = covers.same_owner ∙ sym actor;
        same_source = covers.same_source ∙ sym a.source;
        same_cycle = covers.same_cycle ∙ sym a.cycle;
        same_first = ground (arith, w.first_given, w'.first_given, a.first, covers.same_first);
        same_last = ground (arith, w.last_given, w'.last_given, a.last, covers.same_last);
      }

      split :
          (r : Result (Unit {0}) (ℕ × ℕ))
          → check_request q' q'.first q'.last ≡ r
          → Repeated q q' b t (request_download uuid5 now' fresh' q' reply' world' t)
      split (err e) p =
          other_request (λ a. absurd (ground (arith, check_request-Agree q q' a key, checked, p))) e
            (second_refused now' fresh' q' reply' world' t e p)
      split (ok (first', last') tt) p =
          let w' = check_request-Window q' q'.first q'.last refl refl p in
          let i = same_range-iff_Covers q' first' last' b in
          let answer = second_answer now' fresh' q' reply' world' t first' last' b p there in
          elim (Bool-cases (same_range q' first' last' b)) [
            | inl e ↦ same_request (agrees first' last' w' (i.0 e)) (ground (arith, answer, e))
            | inr e ↦
                other_request (λ a. absurd (ground (arith, i.1 (covered first' last' w' a), e)))
                  (value_error other_range) (ground (arith, answer, e))
          ]

  -- A request with a key that returned leaves its operation under the owner and the key, although other
  -- threads work on the store meanwhile, which keep the owner and the window of the operation. A second
  -- request of that owner with that key then raises, unless it names the same source, cycle and hours:
  -- then it calls no client, changes nothing and returns that operation.
  pub request_download_repeat :
      (now fresh now' fresh' k : String) (q q' : Request) (reply reply' : Option Dict)
      (world world' : Store → Store) (s t : Store) {a : Option Operation × List Call}
      → q.key ≡ some k
      → q'.key ≡ some k
      → q'.actor ≡ q.actor
      → KeepsRange (identity uuid5 q fresh) world
      → request_download uuid5 now fresh q reply world s ≡ ok a t
      → (b : Operation) × (forcing_operation (identity uuid5 q fresh) t ≡ some b)
        × Repeated q q' b t (request_download uuid5 now' fresh' q' reply' world' t)
  unfolding request_download
  request_download_repeat now fresh now' fresh' k q q' reply reply' world world' s t {a} key key'
        actor keeps h =
      split (check_request q q.first q.last) refl
    where
      split :
          (r : Result (Unit {0}) (ℕ × ℕ))
          → check_request q q.first q.last ≡ r
          → (b : Operation) × (forcing_operation (identity uuid5 q fresh) t ≡ some b)
            × Repeated q q' b t (request_download uuid5 now' fresh' q' reply' world' t)
      split (err e) p = absurd (ground arith)
      split (ok (first, last) tt) p =
          let kept = first-Kept now fresh q reply world s t first last keeps p h in
          (
            kept.operation,
            kept.there,
            repeat-Repeated now' fresh' q q' reply' world' t first last kept.operation
                (key' ∙ sym key) actor p kept.covers
                (ap (λ x. forcing_operation x t) (same_identity q q' fresh fresh' k key key' actor)
                  ∙ kept.there),
          )
