-- ===== src/Manager/Cancel/Turns.antt =====
-- task_manager.py: the order in which `_dispatch_pending` offers the tasks.
use backend_wrf.Base.{
  ℕ, ◌<◌, ◌≡◌, refl, ap, ◌∙◌, ◌==◌, string_eq, eq_iff, String, true, false, ◌||◌, List, [], ◌∷◌,
  inl, inr, arith, if◌then◌else◌, Bool-cases,
}
use mathlib.Core.List.{Perm}
use mathlib.Core.List.Perm
use backend_wrf.Text.{codes}
use backend_wrf.Table.{Table}
use backend_wrf.Store.{Task}
use backend_wrf.Pool.Pick.{text_lt}
use backend_wrf.Manager.Cancel.{Turn, before_turn, insert_turn, turns}

-- the tasks that wait, in the order of the rows
pub waiting : Table String Task → List Turn
waiting [] = []
waiting ((id, t) ∷ tasks) =
    let rest = waiting tasks in
    if t.status == "queued" || t.status == "reconciling" then (t.created_at, id) ∷ rest else rest

-- Python's order of texts, on their code points.
pub data Precedes : List ℕ → List ℕ → Type 0 where
  ends : (c : ℕ) (t : List ℕ) → Precedes [] (c ∷ t)
  differs : (c d : ℕ) (s t : List ℕ) → c < d → Precedes (c ∷ s) (d ∷ t)
  agrees : (c : ℕ) (s t : List ℕ) → Precedes s t → Precedes (c ∷ s) (c ∷ t)

-- The second turn was not created before the first, nor at the same time under a smaller id.
abbrev pub NotSooner : Turn → Turn → Type 0
NotSooner a b =
    (¬ (Precedes (codes b.0) (codes a.0))) × (b.0 ≡ a.0 → ¬ (Precedes (codes b.1) (codes a.1)))

pub IsOrdered : List Turn → Type 0
IsOrdered [] = Unit {0}
IsOrdered (a ∷ []) = Unit {0}
IsOrdered (a ∷ b ∷ later) = NotSooner a b × IsOrdered (b ∷ later)

text_lt-Precedes : {s t : List ℕ} → Precedes s t → text_lt s t ≡ true
unfolding text_lt
text_lt-Precedes (ends c t) = refl
text_lt-Precedes (differs c d s t h) = ground arith
text_lt-Precedes (agrees c s t p) = ground (arith, text_lt-Precedes p)

-- no turn comes before the one it follows
InTurn : List Turn → Type 0
InTurn [] = Unit {0}
InTurn (a ∷ []) = Unit {0}
InTurn (a ∷ b ∷ later) = (before_turn b a ≡ false) × InTurn (b ∷ later)

NotSooner-of_before_turn : (a b : Turn) → before_turn b a ≡ false → NotSooner a b
unfolding before_turn
NotSooner-of_before_turn a b h = (
  λ p. absurd (ground (arith, h, text_lt-Precedes p)),
  λ e p. absurd (ground (arith, h, text_lt-Precedes p, (eq_iff (b.0) (a.0)).1 e)),
)

IsOrdered-of_InTurn : (l : List Turn) → InTurn l → IsOrdered l
unfolding InTurn IsOrdered
IsOrdered-of_InTurn [] o = tt
IsOrdered-of_InTurn (a ∷ []) o = tt
IsOrdered-of_InTurn (a ∷ b ∷ l) o =
    (NotSooner-of_before_turn a b (o.0), IsOrdered-of_InTurn (b ∷ l) (o.1))

text_lt_asym : (s t : List ℕ) → text_lt s t ≡ true → text_lt t s ≡ false
unfolding text_lt
text_lt_asym [] [] h = refl
text_lt_asym [] (d ∷ t) h = refl
text_lt_asym (c ∷ s) [] h = absurd (ground (arith, h))
text_lt_asym (c ∷ s) (d ∷ t) h = ground (arith, h, text_lt_asym s t)

text_lt_irrefl : (s : List ℕ) → text_lt s s ≡ false
text_lt_irrefl s = elim (Bool-cases (text_lt s s)) [ inl h ↦ text_lt_asym s s h | inr h ↦ h ]

text_lt_same : (x y : String) → (x == y) ≡ true → text_lt (codes x) (codes y) ≡ false
text_lt_same x y e =
    ap (λ z. text_lt (codes z) (codes y)) ((eq_iff x y).0 e) ∙ text_lt_irrefl (codes y)

before_turn_asym : (a b : Turn) → before_turn a b ≡ true → before_turn b a ≡ false
unfolding before_turn
before_turn_asym a b h = ground (
  arith,
  h,
  eq_iff (a.0) (b.0),
  eq_iff (b.0) (a.0),
  text_lt_same (a.0) (b.0),
  text_lt_same (b.0) (a.0),
  text_lt_asym (codes (a.0)) (codes (b.0)),
  text_lt_asym (codes (a.1)) (codes (b.1)),
)

Perm-insert_turn : (a : Turn) (l : List Turn) → Perm (insert_turn a l) (a ∷ l)
unfolding insert_turn
Perm-insert_turn a [] = Perm.refl (a ∷ [])
Perm-insert_turn a (b ∷ l) = elim (Bool-cases (before_turn b a)) [
  | inl e ↦ rw (e, insert_turn) (Perm.trans (Perm.cons b (Perm-insert_turn a l)) (Perm.swap a b l))
  | inr e ↦ rw (e, insert_turn) (Perm.refl (a ∷ b ∷ l))
]

Perm-turns : (tasks : Table String Task) → Perm (turns tasks) (waiting tasks)
unfolding turns waiting
Perm-turns [] = Perm.refl []
Perm-turns ((id, t) ∷ tasks) =
    elim (Bool-cases (t.status == "queued" || t.status == "reconciling")) [
      | inl e ↦
          rw (e, turns, waiting)
            (Perm.trans (Perm-insert_turn (t.created_at, id) (turns tasks))
              (Perm.cons (t.created_at, id) (Perm-turns tasks)))
      | inr e ↦ rw (e, turns, waiting) (Perm-turns tasks)
    ]

-- behind a turn that does not come later
InTurn-insert_after :
    (b a : Turn) (l : List Turn)
    → before_turn a b ≡ false
    → InTurn (b ∷ l)
    → InTurn (b ∷ insert_turn a l)
unfolding InTurn insert_turn
InTurn-insert_after b a [] e o = (e, tt)
InTurn-insert_after b a (c ∷ l) e o = elim (Bool-cases (before_turn c a)) [
  | inl h ↦ rw (h, insert_turn) (o.0, InTurn-insert_after c a l (before_turn_asym c a h) (o.1))
  | inr h ↦ rw (h, insert_turn) (e, (h, o.1))
]

InTurn-insert_turn : (a : Turn) (l : List Turn) → InTurn l → InTurn (insert_turn a l)
unfolding InTurn insert_turn
InTurn-insert_turn a [] o = tt
InTurn-insert_turn a (b ∷ l) o = elim (Bool-cases (before_turn b a)) [
  | inl h ↦ rw (h, insert_turn) (InTurn-insert_after b a l (before_turn_asym b a h) o)
  | inr h ↦ rw (h, insert_turn) (h, o)
]

InTurn-turns : (tasks : Table String Task) → InTurn (turns tasks)
unfolding turns InTurn
InTurn-turns [] = tt
InTurn-turns ((id, t) ∷ tasks) =
    elim (Bool-cases (t.status == "queued" || t.status == "reconciling")) [
      | inl e ↦
          rw (e, turns) (InTurn-insert_turn (t.created_at, id) (turns tasks) (InTurn-turns tasks))
      | inr e ↦ rw (e, turns) (InTurn-turns tasks)
    ]

-- The turns of `_dispatch_pending` are the rows of the queued and the reconciling tasks, each once. Of two
-- that follow one another the second was not created before the first, nor at the same time under a
-- smaller id, in the order of Python's texts.
pub turns-IsOrdered :
    (tasks : Table String Task) → Perm (turns tasks) (waiting tasks) × IsOrdered (turns tasks)
turns-IsOrdered tasks = (Perm-turns tasks, IsOrdered-of_InTurn (turns tasks) (InTurn-turns tasks))
