-- ===== src/Runtime/QueueOrder.antt =====
-- The order of the run queue is a total preorder, so the queue is sorted by it.
use mathlib.Core.List.{Perm}
use mathlib.Core.Path.{subst}
use xyn.Base.{
  String, ◌<◌, ◌≤◌, ◌⊎◌, inl, inr, List, [], ◌∷◌, ltb, ◌==◌, Bool-cases, ℕ, ◌≡◌, Bool, true, false,
  Option, none, some, arith,
}
use xyn.Base.Sort.{All, All-mono, IsSorted, sort_by-IsSorted, sort_by-perm, sort_by}
use xyn.Base.Table.{select}
use xyn.Runtime.Models.{Run, RunStatus, queued}
use xyn.Runtime.Session.{Db}
use xyn.Runtime.Queue.{waiting, then_by, then_by_nulls_last, queue_order, queued_runs}

then_by-total :
    (a b : ℕ) (p q : Bool) → (p ≡ false → q ≡ true) → then_by a b p ≡ false → then_by b a q ≡ true
unfolding then_by
then_by-total a b p q k h = ground arith

then_by_trans :
    (a b c : ℕ) (p q r : Bool)
    → (p ≡ true → q ≡ true → r ≡ true)
    → then_by a b p ≡ true
    → then_by b c q ≡ true
    → then_by a c r ≡ true
unfolding then_by
then_by_trans a b c p q r k h i = ground arith

nulls_last-total :
    (a b : Option ℕ) (p q : Bool)
    → (p ≡ false → q ≡ true)
    → then_by_nulls_last a b p ≡ false
    → then_by_nulls_last b a q ≡ true
unfolding then_by_nulls_last
nulls_last-total none none p q k h = k h
nulls_last-total none (some b) p q k h = ground arith
nulls_last-total (some a) none p q k h = cc
nulls_last-total (some a) (some b) p q k h = then_by-total a b p q k h

nulls_last_trans :
    (a b c : Option ℕ) (p q r : Bool)
    → (p ≡ true → q ≡ true → r ≡ true)
    → then_by_nulls_last a b p ≡ true
    → then_by_nulls_last b c q ≡ true
    → then_by_nulls_last a c r ≡ true
unfolding then_by_nulls_last
nulls_last_trans none none none p q r k h i = k h i
nulls_last_trans none none (some c) p q r k h i = cc
nulls_last_trans none (some b) c p q r k h i = cc
nulls_last_trans (some a) none none p q r k h i = ground arith
nulls_last_trans (some a) none (some c) p q r k h i = cc
nulls_last_trans (some a) (some b) none p q r k h i = ground arith
nulls_last_trans (some a) (some b) (some c) p q r k h i = then_by_trans a b c p q r k h i

queue_order-total : (x y : Run) → queue_order x y ≡ false → queue_order y x ≡ true
unfolding queue_order
queue_order-total x y = then_by-total x.priority y.priority _ _ (
    nulls_last-total x.queued_at y.queued_at _ _
      (then_by-total x.created_at y.created_at _ _ (λ h. ground arith)))

queue_order_trans :
    (x y z : Run) → queue_order x y ≡ true → queue_order y z ≡ true → queue_order x z ≡ true
unfolding queue_order
queue_order_trans x y z = then_by_trans x.priority y.priority z.priority _ _ _ (
    nulls_last_trans x.queued_at y.queued_at z.queued_at _ _ _
      (then_by_trans x.created_at y.created_at z.created_at _ _ _ (λ h i. ground arith)))

-- `a` is smaller than `b`, or they are equal and the rest holds.
abbrev pub Before : ℕ → ℕ → Type 0 → Type 0
Before a b Rest = (a < b) ⊎ ((a ≡ b) × Rest)

-- A time comes before no time.
abbrev pub BeforeNullsLast : Option ℕ → Option ℕ → Type 0 → Type 0
BeforeNullsLast none none Rest = Rest
BeforeNullsLast none (some b) Rest = ⊥
BeforeNullsLast (some a) none Rest = Unit
BeforeNullsLast (some a) (some b) Rest = Before a b Rest

-- `x` may stand before `y`: by priority, then by the time of queueing, with the runs that have none
-- last, then by the time of creation, then by identifier.
abbrev pub Precedes : Run → Run → Type 0
Precedes x y =
    Before x.priority y.priority
      (BeforeNullsLast x.queued_at y.queued_at (Before x.created_at y.created_at (x.id ≤ y.id)))

-- Every run precedes all the runs behind it.
abbrev pub IsInOrder : List Run → Type 0
IsInOrder [] = Unit
IsInOrder (x ∷ xs) = All (Precedes x) xs × IsInOrder xs

then_by-Before :
    (a b : ℕ) (p : Bool) (R : Type 0) → (p ≡ true → R) → then_by a b p ≡ true → Before a b R
unfolding then_by
then_by-Before a b p R k h = elim (Bool-cases (ltb a b)) [
  | inl l ↦ inl (ground arith)
  | inr l ↦ elim (Bool-cases (a == b)) [
    | inl e ↦ inr (ground arith, k (rw (l, e) at h))
    | inr e ↦ cc (rw (l, e) at h)
  ]
]

nulls_last-Before :
    (a b : Option ℕ) (p : Bool) (R : Type 0)
    → (p ≡ true → R)
    → then_by_nulls_last a b p ≡ true
    → BeforeNullsLast a b R
unfolding then_by_nulls_last
nulls_last-Before none none p R k h = k h
nulls_last-Before none (some b) p R k h = cc
nulls_last-Before (some a) none p R k h = tt
nulls_last-Before (some a) (some b) p R k h = then_by-Before a b p R k h

queue_order-Precedes : (x y : Run) → queue_order x y ≡ true → Precedes x y
unfolding queue_order
queue_order-Precedes x y = then_by-Before x.priority y.priority _ _ (
    nulls_last-Before x.queued_at y.queued_at _ _
      (then_by-Before x.created_at y.created_at _ _ (λ h. ground arith)))

IsSorted-IsInOrder : (xs : List Run) → IsSorted queue_order xs → IsInOrder xs
IsSorted-IsInOrder [] h = tt
IsSorted-IsInOrder (x ∷ xs) h =
    (All-mono _ _ xs (λ y. queue_order-Precedes x y) h.0, IsSorted-IsInOrder xs h.1)

-- A queued run that names a worker type.
unfoldable pub is_waiting : RunStatus → Option String → Bool
is_waiting queued (some worker_type) = true
is_waiting _ _ = false

waiting-is_waiting : (run : Run) → waiting run ≡ is_waiting run.status run.worker_type
unfolding waiting is_waiting
waiting-is_waiting run = ground arith

-- The queue holds exactly the queued runs that name a worker type, each once per row, and every run in
-- it precedes all the runs behind it: by priority, then by the time of queueing with those without one
-- last, then by the time of creation, then by identifier.
pub queued_runs-IsInOrder :
    (db : Db)
    → IsInOrder (queued_runs db)
      × Perm (queued_runs db) (select (λ run. is_waiting run.status run.worker_type) db.runs)
unfolding queued_runs
queued_runs-IsInOrder db = (
  IsSorted-IsInOrder _
      (sort_by-IsSorted queue_order queue_order-total queue_order_trans (select waiting db.runs)),
  subst (λ p. Perm (sort_by queue_order (select waiting db.runs)) (select p db.runs))
      (λ i run. waiting-is_waiting run i) (sort_by-perm queue_order (select waiting db.runs)),
)
