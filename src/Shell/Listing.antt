-- ===== src/Shell/Listing.antt =====
-- Which tasks `cmd_tasks` of kernel/shell/shell.c lists.
use cane.Common.{
  ℕ, zero, suc, ◌+◌, ◌<◌, ◌≤◌, ◌≡◌, refl, Bool, true, false, arith, Option, some, List, [], ◌∷◌,
  ◌++◌, ◌==◌, length, length-append, ap,
}
use cane.Common.Partial.{◌>>=◌}
use cane.Task.Memory.{Sched}
use cane.Task.Ring.{◌∉◌, Linked, Ring}
use cane.Task.Links.{Linked-append, Linked-split, Distinct-split, has-append}
use cane.Task.Queue.{IsQueue, AllLive}
use cane.Task.Removal.{AllLive-remove, not_null_at}
use cane.Shell.Tasks.{task_line, tasks_end, tasks_loop, cmd_tasks, tasks_title}

-- The lines of the tasks, then the total.
abbrev pub listing : Sched → List ℕ → (total : ℕ) → Option (List ℕ)
listing s [] total = tasks_end total
listing s (t ∷ tasks) total =
    task_line (s.tasks t) >>= λ line. listing s tasks total >>= λ rest. some (line ++ rest)

tasks_loop-listing :
    (xs : List ℕ) (fuel : ℕ) (s : Sched) (c a count total : ℕ)
    → Linked s.next s.prev a xs c
    → s.live a ≡ true
    → AllLive s.live xs
    → c ∉ xs
    → 0 ∉ xs
    → length xs < fuel
    → count + suc (length xs) ≡ total
    → tasks_loop fuel s c a count ≡ listing s (a ∷ xs) total
unfolding tasks_loop
tasks_loop-listing xs zero s c a count total l live lives apart nonzero enough sum =
    absurd (omega arith)
tasks_loop-listing [] (suc fuel) s c a count total l live lives apart nonzero enough sum =
    let e : (s.next a == c) ≡ true = ground (arith, l.0) in
    let n : count + 1 ≡ total = omega arith in rw (live, e, n)
tasks_loop-listing (x ∷ xs) (suc fuel) s c a count total l live lives apart nonzero enough sum =
    let e : (x == c) ≡ false = ground arith in
    let z : (x == 0) ≡ false = ground arith in
    rw (
      live,
      l.0,
      e,
      z,
      tasks_loop-listing xs fuel s c x (count + 1) total l.2 lives.0 lives.1 (ground arith)
          (ground arith) (omega arith) (omega arith),
    )

append-nil : (xs : List ℕ) → xs ++ [] ≡ xs
append-nil [] = refl
append-nil (x ∷ xs) = ap (λ ys. x ∷ ys) (append-nil xs)

AllLive-append :
    (live : ℕ → Bool) (xs ys : List ℕ) → AllLive live xs → AllLive live ys → AllLive live (xs ++ ys)
AllLive-append live [] ys a b = b
AllLive-append live (x ∷ xs) ys (l, a) b = (l, AllLive-append live xs ys a b)

AllLive-swap :
    (live : ℕ → Bool) (xs ys : List ℕ) → AllLive live (xs ++ ys) → AllLive live (ys ++ xs)
AllLive-swap live xs ys a = let (l, r) = halves live xs ys a in AllLive-append live ys xs r l
  where
    halves :
        (live : ℕ → Bool) (xs ys : List ℕ)
        → AllLive live (xs ++ ys)
        → AllLive live xs × AllLive live ys
    halves live [] ys a = (tt, a)
    halves live (x ∷ xs) ys (l, a) = let (b, c) = halves live xs ys a in ((l, b), c)

has-swap : (a : ℕ) (xs ys : List ℕ) → a ∉ xs ++ ys → a ∉ ys ++ xs
has-swap a xs ys h = ground (arith, has-append a xs ys, has-append a ys xs)

-- The ring, from the current task on.
Linked-turned :
    (next prev : ℕ → ℕ) (pre : List ℕ) (c : ℕ) (post : List ℕ)
    → Ring next prev (pre ++ (c ∷ post))
    → Linked next prev c (post ++ pre) c
Linked-turned next prev [] c post r = rw (append-nil post) r
Linked-turned next prev (x ∷ xs) c post r =
    let (first, last) = Linked-split next prev x xs c post x r in
    Linked-append next prev c post x xs c last first

-- With the current task queued and fuel for each queued task, `cmd_tasks` follows the ring once round:
-- it prints a line for each queued task, the current one first and then in the order of their turns,
-- and the length of the queue as the total. It has no result only where a line or the total
-- cannot be printed.
pub cmd_tasks-listing :
    {s : Sched} (pre post : List ℕ) (fuel : ℕ)
    → IsQueue s (pre ++ (s.current_task ∷ post))
    → length (pre ++ (s.current_task ∷ post)) ≤ fuel
    → cmd_tasks fuel s ≡ (
        listing s (s.current_task ∷ (post ++ pre)) (length (pre ++ (s.current_task ∷ post)))
        >>= λ rest. some (tasks_title ++ rest))
unfolding cmd_tasks
cmd_tasks-listing {s} pre post fuel ok enough =
    let c = s.current_task in
    let (alive, here) = AllLive-remove s.live pre c post ok.alive in
    let (nonzero, rest_nonzero) = not_null_at pre c post ok.not_null in
    let z : (c == 0) ≡ false = ground arith in
    let size = length-append pre (c ∷ post) in
    let size' = length-append post pre in
    let walk =
      tasks_loop-listing (post ++ pre) fuel s c c 0 (length (pre ++ (c ∷ post)))
        (Linked-turned s.next s.prev pre c post ok.ring) here (AllLive-swap s.live pre post alive)
        (has-swap c pre post (Distinct-split pre c post ok.distinct).1)
        (has-swap 0 pre post rest_nonzero) (omega arith) (omega arith) in
    rw (z, walk)
