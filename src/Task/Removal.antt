-- ===== src/Task/Removal.antt =====
-- Taking a task out of the run queue.
use cane.Common.{
  ℕ, ◌≡◌, ◌≢◌, refl, Bool, true, false, ◌||◌, List, [], ◌∷◌, ◌++◌, ◌==◌, if◌then◌else◌, arith, some,
}
use cane.Task.Memory.{Sched, update}
use cane.Task.{remove_task_from_runqueue}
use cane.Task.Ring.{has, ◌∉◌, Distinct, Linked, Ring, last-has, Linked-set_next, Linked-set_prev}
use cane.Task.Links.{Ring-unlink, Ring-unlink_head, Distinct-split, Linked-split, has-append}
use cane.Task.Queue.{IsQueue, AllLive, head_or_null, live-has}

-- the neighbours of a task in a ring of at least two
pub record Neighbours (next prev : ℕ → ℕ) (t : ℕ) (rest : List ℕ) : Type 0 where
  pub before : has (prev t) rest ≡ true
  pub after : has (next t) rest ≡ true

pub neighbours :
    (next prev : ℕ → ℕ) (pre : List ℕ) (t : ℕ) (post : List ℕ)
    → Distinct (pre ++ (t ∷ post))
    → Ring next prev (pre ++ (t ∷ post))
    → pre ++ post ≢ []
    → Neighbours next prev t (pre ++ post)
neighbours next prev [] t [] d r more = absurd (more refl)
neighbours next prev [] t (y ∷ ys) d (n, p, l) more = record {
  before = last-has next prev y ys t l;
  after = ground arith;
}
neighbours next prev (x ∷ xs) t post d r more =
    let (h, k) = Linked-split next prev x xs t post x r in
    record {
      before = rw (has-append (prev t) (x ∷ xs) post) (ground (arith, last-has next prev x xs t h));
      after = rw (has-append (next t) (x ∷ xs) post) (after_lem post k);
    }
  where
    after_lem :
        (post : List ℕ)
        → Linked next prev t post x
        → has (next t) (x ∷ xs) || has (next t) post ≡ true
    after_lem [] (n, p) = ground arith
    after_lem (y ∷ ys) (n, p, l) = ground arith

pub alone : (next prev : ℕ → ℕ) (t : ℕ) → Ring next prev (t ∷ []) → next t ≡ t
alone next prev t r = r.0

pub AllLive-remove :
    (live : ℕ → Bool) (pre : List ℕ) (t : ℕ) (post : List ℕ)
    → AllLive live (pre ++ (t ∷ post))
    → AllLive live (pre ++ post) × (live t ≡ true)
AllLive-remove live [] t post (l, ls) = (ls, l)
AllLive-remove live (x ∷ pre) t post (l, ls) =
    let (a, b) = AllLive-remove live pre t post ls in ((l, a), b)

-- the state after `unlink` and the two writes that follow it
abbrev pub unlinked : Sched → ℕ → Sched
unlinked s t = record s {
  runqueue = if s.runqueue == t then s.next t else s.runqueue;
  next = update (update s.next (s.prev t) (s.next t)) t 0;
  prev = update (update s.prev (s.next t) (s.prev t)) t 0;
}

-- what `unlink` needs of the pointers
pub record Linkable (s : Sched) (t : ℕ) : Type 0 where
  pub alive : s.live t ≡ true
  pub before : s.live (s.prev t) ≡ true
  pub after : s.live (s.next t) ≡ true
  pub before_ne : s.prev t ≢ t
  pub after_ne : s.next t ≢ t
  pub not_null : t ≢ 0

remove_step :
    {s : Sched} (t : ℕ)
    → Linkable s t
    → s.runqueue ≢ 0
    → remove_task_from_runqueue t s ≡ some (tt, unlinked s t)
unfolding remove_task_from_runqueue
remove_step t ok some_task = ground arith

ne_of_has : (a t : ℕ) (xs : List ℕ) → has a xs ≡ true → t ∉ xs → a ≢ t
ne_of_has a t xs h out e = let h' : has t xs ≡ true = rw e at h in cc

pub head-ne :
    (pre : List ℕ) (t : ℕ) (post : List ℕ)
    → 0 ∉ pre ++ (t ∷ post)
    → head_or_null (pre ++ (t ∷ post)) ≢ 0
head-ne [] t post h = ground arith
head-ne (x ∷ pre) t post h = ground arith

pub not_null_at :
    (pre : List ℕ) (t : ℕ) (post : List ℕ) → 0 ∉ pre ++ (t ∷ post) → (t ≢ 0) × (0 ∉ pre ++ post)
not_null_at [] t post h = (ground arith, ground arith)
not_null_at (x ∷ pre) t post h =
    let (a, b) = not_null_at pre t post (ground arith) in (a, ground arith)

pub linkable :
    {s : Sched} (pre : List ℕ) (t : ℕ) (post : List ℕ)
    → IsQueue s (pre ++ (t ∷ post))
    → pre ++ post ≢ []
    → Linkable s t
linkable {s} pre t post ok more =
    let nb = neighbours s.next s.prev pre t post ok.distinct ok.ring more in
    let (rest, alive) = AllLive-remove s.live pre t post ok.alive in
    let (d, out, g, apart) = Distinct-split pre t post ok.distinct in
    record {
      alive = alive;
      before = live-has s.live (s.prev t) (pre ++ post) rest nb.before;
      after = live-has s.live (s.next t) (pre ++ post) rest nb.after;
      before_ne = ne_of_has (s.prev t) t (pre ++ post) nb.before out;
      after_ne = ne_of_has (s.next t) t (pre ++ post) nb.after out;
      not_null = (not_null_at pre t post ok.not_null).0;
    }

-- Clearing the links of a task outside the ring changes nothing on the ring.
Ring-clear :
    (next prev : ℕ → ℕ) (t : ℕ) (q : List ℕ)
    → t ∉ q
    → Ring next prev q
    → Ring (update next t 0) (update prev t 0) q
Ring-clear next prev t [] out r = tt
Ring-clear next prev t (x ∷ q) out r =
    Linked-set_prev (update next t 0) prev t 0 x q x out (Linked-set_next next prev t 0 x q x out r)

pub unlinked-IsQueue :
    {s : Sched} (pre : List ℕ) (t : ℕ) (post : List ℕ)
    → IsQueue s (pre ++ (t ∷ post))
    → pre ++ post ≢ []
    → IsQueue (unlinked s t) (pre ++ post)
unlinked-IsQueue {s} [] t [] ok more = absurd (more refl)
unlinked-IsQueue {s} [] t (y ∷ ys) ok more =
    let (n, r) = Ring-unlink_head s.next s.prev t y ys ok.distinct ok.ring in
    record {
      distinct = ok.distinct.1;
      alive = ok.alive.1;
      not_null = (not_null_at [] t (y ∷ ys) ok.not_null).1;
      ring = Ring-clear _ _ t (y ∷ ys) ok.distinct.0 (rw n r);
      head = ground (arith, ok.head);
    }
unlinked-IsQueue {s} (x ∷ xs) t post ok more =
    let (d, out, g, apart) = Distinct-split (x ∷ xs) t post ok.distinct in
    record {
      distinct = d;
      alive = (AllLive-remove s.live (x ∷ xs) t post ok.alive).0;
      not_null = (not_null_at (x ∷ xs) t post ok.not_null).1;
      ring =
          Ring-clear _ _ t (x ∷ xs ++ post) out
            (Ring-unlink s.next s.prev x xs t post ok.distinct ok.ring);
      head = ground (arith, ok.head);
    }

-- the state after `remove_task_from_runqueue`, where `q` is what stays
abbrev pub removed : Sched → ℕ → List ℕ → Sched
removed s t [] = record s {
  runqueue = 0;
  tasks_exist = false;
  next = update s.next t 0;
  prev = update s.prev t 0;
}
removed s t (x ∷ q) = unlinked s t

remove_last :
    {s : Sched} (t : ℕ)
    → IsQueue s (t ∷ [])
    → remove_task_from_runqueue t s ≡ some (tt, removed s t [])
unfolding remove_task_from_runqueue
remove_last t ok = ground (arith, ok.alive, ok.ring, ok.head, ok.not_null)

-- `pre` is empty or not, and so is what stays.
pub remove_task-removed :
    {s : Sched} (pre : List ℕ) (t : ℕ) (post : List ℕ)
    → IsQueue s (pre ++ (t ∷ post))
    → (remove_task_from_runqueue t s ≡ some (tt, removed s t (pre ++ post)))
      × IsQueue (removed s t (pre ++ post)) (pre ++ post)
remove_task-removed {s} [] t [] ok = (
  remove_last t ok,
  record { distinct = tt; alive = tt; not_null = refl; ring = tt; head = refl },
)
remove_task-removed {s} [] t (y ∷ ys) ok =
    let more : y ∷ ys ≢ [] = λ e. cc in
    (
      remove_step t (linkable [] t (y ∷ ys) ok more)
          (λ e. head-ne [] t (y ∷ ys) ok.not_null (ground (arith, ok.head))),
      unlinked-IsQueue [] t (y ∷ ys) ok more,
    )
remove_task-removed {s} (x ∷ xs) t post ok =
    let more : x ∷ xs ++ post ≢ [] = λ e. cc in
    (
      remove_step t (linkable (x ∷ xs) t post ok more)
          (λ e. head-ne (x ∷ xs) t post ok.not_null (ground (arith, ok.head))),
      unlinked-IsQueue (x ∷ xs) t post ok more,
    )

-- What removal leaves alone, and the links that it clears.
pub removed_lem :
    (s : Sched) (t : ℕ) (q : List ℕ)
    → ((removed s t q).next t ≡ 0)
      × ((removed s t q).prev t ≡ 0)
      × ((removed s t q).live ≡ s.live)
      × ((removed s t q).tasks ≡ s.tasks)
      × ((removed s t q).current_task ≡ s.current_task)
      × ((removed s t q).events ≡ s.events)
removed_lem s t [] = (ground arith, ground arith, refl, refl, refl, refl)
removed_lem s t (x ∷ q) = (ground arith, ground arith, refl, refl, refl, refl)

removed-tasks_exist :
    (s : Sched) (t : ℕ) (q : List ℕ)
    → 0 ∉ q
    → (removed s t q).tasks_exist ≡ (if head_or_null q == 0 then false else s.tasks_exist)
removed-tasks_exist s t [] out = refl
removed-tasks_exist s t (x ∷ q) out = ground arith

-- `remove_task_from_runqueue` of a queued task does not fault, takes exactly that task out, clears
-- its links, and clears `tasks_exist` exactly when the queue becomes empty.
pub remove_task-IsQueue :
    {s : Sched} (pre : List ℕ) (t : ℕ) (post : List ℕ)
    → IsQueue s (pre ++ (t ∷ post))
    → (s' : Sched) × (remove_task_from_runqueue t s ≡ some (tt, s'))
      × IsQueue s' (pre ++ post)
      × (s'.next t ≡ 0)
      × (s'.prev t ≡ 0)
      × (s'.tasks_exist ≡ (if head_or_null (pre ++ post) == 0 then false else s.tasks_exist))
remove_task-IsQueue {s} pre t post ok =
    let (e, q) = remove_task-removed pre t post ok in
    let l = removed_lem s t (pre ++ post) in
    (removed s t (pre ++ post), e, q, l.0, l.1, removed-tasks_exist s t (pre ++ post) q.not_null)
