-- ===== src/Queue.antt =====
-- deletion_queue.py: `DeletionQueue`, the identifiers that wait for the one deletion worker or that
-- it is working on, in order. The thread pool is not part of the program: whether it takes a job is
-- an argument, and a job that ends, however it ends, removes its identifier.
pub mod Tests
use backend_wrf.Base.{
  ℕ, suc, ◌+◌, ◌≡◌, ◌≤◌, refl, String, ◌==◌, string_eq, eq_iff, Bool, true, false, not, ◌&&◌, ◌||◌,
  leb, List, [], ◌∷◌, ◌++◌, length, length-append, any, arith, if◌then◌else◌, Bool-cases, inl, inr,
}

unfoldable pub is_queued : String → List String → Bool
is_queued id order = any (λ q. q == id) order

-- `order.index(identifier)`
unfoldable pub index : String → List String → ℕ
index id [] = 0
index id (q ∷ order) = let rest = index id order in if q == id then 0 else suc rest

-- `position`
unfoldable pub position : String → List String → ℕ
position id order = if is_queued id order then index id order else 0

-- `order.remove(identifier)`: the first one
unfoldable pub remove : String → List String → List String
remove id [] = []
remove id (q ∷ order) = let rest = remove id order in if q == id then order else q ∷ rest

pub data Submitted : Type 0 where
  queued : List String → Submitted
  full : Submitted
  rejected : List String → Submitted

-- `submit`, `taken` telling whether the thread pool takes the job
unfoldable pub submit : Bool → String → List String → Submitted
submit taken id order =
    if is_queued id order
    then queued order
    else if leb 8 (length order)
    then full
    else if taken
    then queued (order ++ id ∷ [])
    else rejected (remove id (order ++ id ∷ []))

abbrev pub distinct : List String → Bool
distinct [] = true
distinct (q ∷ order) = not (any (λ r. r == q) order) && distinct order

pub data QueueStep (s t : List String) : Type 0 where
  submitted : (id : String) (taken : Bool) → submit taken id s ≡ queued t → QueueStep s t
  refused : (id : String) (taken : Bool) → submit taken id s ≡ rejected t → QueueStep s t
  finished : (id : String) → t ≡ remove id s → QueueStep s t

pub data QueueSteps (s : List String) : List String → Type 0 where
  start : QueueSteps s s
  next : {t u : List String} → QueueSteps s t → QueueStep t u → QueueSteps s u

any-append :
    (r : String) (xs : List String) (id : String)
    → any (λ q. q == r) (xs ++ id ∷ []) ≡ (any (λ q. q == r) xs || id == r)
any-append r [] id = ground arith
any-append r (x ∷ xs) id = ground (arith, any-append r xs id)

distinct-append :
    (xs : List String) (id : String)
    → distinct xs ≡ true
    → is_queued id xs ≡ false
    → distinct (xs ++ id ∷ []) ≡ true
unfolding is_queued
distinct-append [] id d w = refl
distinct-append (x ∷ xs) id d w =
    ground (arith, any-append x xs id, distinct-append xs id, eq_iff x id, eq_iff id x)

any-remove :
    (r id : String) (xs : List String)
    → any (λ q. q == r) xs ≡ false
    → any (λ q. q == r) (remove id xs) ≡ false
unfolding remove
any-remove r id [] n = refl
any-remove r id (x ∷ xs) n = ground (arith, any-remove r id xs)

distinct-remove :
    (id : String) (xs : List String) → distinct xs ≡ true → distinct (remove id xs) ≡ true
unfolding remove
distinct-remove id [] d = refl
distinct-remove id (x ∷ xs) d = ground (arith, any-remove x id xs, distinct-remove id xs)

length-remove : (id : String) (xs : List String) → length (remove id xs) ≤ length xs
unfolding remove
length-remove id [] = ground arith
length-remove id (x ∷ xs) = ground (arith, length-remove id xs)

remove-append :
    (id : String) (xs : List String) → is_queued id xs ≡ false → remove id (xs ++ id ∷ []) ≡ xs
unfolding remove is_queued
remove-append id [] w = ground (arith, eq_iff id id)
remove-append id (x ∷ xs) w = ground (arith, remove-append id xs)

abbrev pub IsSound : List String → Type 0
IsSound s = (distinct s ≡ true) × (length s ≤ 8)

QueueStep-IsSound : (s t : List String) → QueueStep s t → IsSound s → IsSound t
unfolding submit
QueueStep-IsSound s t (submitted id taken h) n = (
  ground (arith, h, n.0, distinct-append s id),
  ground (arith, h, n.1, length-append s (id ∷ [])),
)
QueueStep-IsSound s t (refused id taken h) n =
    (ground (arith, h, n.0, remove-append id s), ground (arith, h, n.1, remove-append id s))
QueueStep-IsSound s t (finished id e) n =
    rw e (distinct-remove id s (n.0), ground (arith, n.1, length-remove id s))

-- Whatever is submitted and however jobs end, a queue that starts empty holds no identifier twice
-- and never more than eight.
pub QueueSteps-IsSound : (t : List String) → QueueSteps [] t → IsSound t
QueueSteps-IsSound t start = (refl, ground arith)
QueueSteps-IsSound t (next steps step) = QueueStep-IsSound _ t step (QueueSteps-IsSound _ steps)

index-append :
    (id : String) (xs : List String)
    → is_queued id xs ≡ false
    → index id (xs ++ id ∷ []) ≡ length xs
unfolding index is_queued
index-append id [] w = ground (arith, eq_iff id id)
index-append id (x ∷ xs) w = ground (arith, index-append id xs)

-- A job that the queue takes anew stands behind exactly the jobs that were there: its position is
-- their number.
pub position-submit :
    (id : String) (taken : Bool) (s t : List String)
    → is_queued id s ≡ false
    → submit taken id s ≡ queued t
    → position id t ≡ length s
unfolding submit position is_queued
position-submit id taken s t w h =
    ground (arith, h, w, index-append id s, any-append id s id, eq_iff id id)
