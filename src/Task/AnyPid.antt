-- ===== src/Task/AnyPid.antt =====
-- `kill_task` of kernel/task/task.c for any positive pid, queued or not.
use cane.Common.{
  ℕ, suc, ◌≤◌, ◌≡◌, ◌≢◌, refl, true, false, List, [], ◌∷◌, ◌++◌, ◌==◌, some, arith, ◌∙◌, Bool-cases,
  inl, inr, length, length-append,
}
use cane.Common.Int.{ℤ, pos}
use cane.Task.Memory.{Sched, Task}
use cane.Task.{kill_task}
use cane.Task.Ring.{has}
use cane.Task.Links.{has-append}
use cane.Task.Queue.{IsQueue}
use cane.Task.Fairness.{has-split}
use cane.Task.Kill.{first_with, kill_task-refused, kill_task-IsQueue}

-- The current task is still queued, no other task has come in, and the names are as they were.
pub record Survives (s s' : Sched) (q q' : List ℕ) : Type 0 where
  pub queue : IsQueue s' q'
  pub shorter : length q' ≤ length q
  pub current : s'.current_task ≡ s.current_task
  pub queued : has s.current_task q' ≡ true
  pub names : (a : ℕ) → (s'.tasks a).comm ≡ (s.tasks a).comm

pub Survives-refl :
    {s : Sched} {q : List ℕ} → IsQueue s q → has s.current_task q ≡ true → Survives s s q q
Survives-refl ok here = record {
  queue = ok;
  shorter = omega arith;
  current = refl;
  queued = here;
  names = λ a. refl;
}

pub Survives-trans :
    {a b c : Sched} {p q r : List ℕ} → Survives a b p q → Survives b c q r → Survives a c p r
Survives-trans v w = record {
  queue = w.queue;
  shorter = omega (arith, v.shorter, w.shorter);
  current = w.current ∙ v.current;
  queued = (rw v.current at w.queued);
  names = λ a. w.names a ∙ v.names a;
}

first_with-has :
    (tasks : ℕ → Task) (pid : ℕ) (q : List ℕ)
    → (first_with tasks pid q == 0) ≡ false
    → has (first_with tasks pid q) q ≡ true
unfolding first_with
first_with-has tasks pid [] some_task = cc
first_with-has tasks pid (x ∷ q) some_task = elim (Bool-cases ((tasks x).pid == pid)) [
  | inl e ↦ ground (arith)
  | inr e ↦ ground (arith, first_with-has tasks pid q)
]

kill_queued :
    {s : Sched} (q : List ℕ) (t fuel n : ℕ)
    → IsQueue s q
    → length q ≤ fuel
    → has s.current_task q ≡ true
    → first_with s.tasks (suc n) q ≡ t
    → has t q ≡ true
    → t ≢ s.current_task
    → (r : ℤ) × (s' : Sched) × (q' : List ℕ) × (kill_task fuel (pos (suc n)) s ≡ some (r, s'))
      × Survives s s' q q'
kill_queued {s} q t fuel n ok enough here first queued other =
    let (pre, post, e) = has-split t q queued in
    let (s', run, ok', dead, exist, events, current, names) =
      kill_task-IsQueue pre t post fuel n (rw e at ok) (rw e at enough) (rw e at first) other in
    (
      pos 0,
      s',
      pre ++ post,
      run,
      record {
        queue = ok';
        shorter = rw e (omega (arith, length-append pre post, length-append pre (t ∷ post)));
        current = current;
        queued = ground (
          arith,
          has-append s.current_task pre post,
          has-append s.current_task pre (t ∷ post),
          (rw e at here),
        );
        names = names;
      },
    )

-- With the current task queued and fuel for the queue, `kill_task` of any positive pid returns; the
-- current task stays queued, and the queue well formed.
pub kill_task-Survives :
    {s : Sched} (q : List ℕ) (fuel n : ℕ)
    → IsQueue s q
    → length q ≤ fuel
    → has s.current_task q ≡ true
    → (r : ℤ) × (s' : Sched) × (q' : List ℕ) × (kill_task fuel (pos (suc n)) s ≡ some (r, s'))
      × Survives s s' q q'
kill_task-Survives {s} q fuel n ok enough here =
    let t = first_with s.tasks (suc n) q in
    elim (Bool-cases (t == 0)) [
      | inl none_with ↦ (
        _,
        s,
        q,
        kill_task-refused q fuel n ok enough (inl (ground arith)),
        Survives-refl ok here,
      )
      | inr found ↦ elim (Bool-cases (t == s.current_task)) [
        | inl is_current ↦ (
          _,
          s,
          q,
          kill_task-refused q fuel n ok enough (inr (ground arith)),
          Survives-refl ok here,
        )
        | inr other ↦
            kill_queued q t fuel n ok enough here refl (first_with-has s.tasks (suc n) q found)
              (ground arith)
      ]
    ]
