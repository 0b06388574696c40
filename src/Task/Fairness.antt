-- ===== src/Task/Fairness.antt =====
-- `schedule` called again and again: every queued task gets its turn.
use cane.Common.{
  ℕ, zero, suc, ◌+◌, ◌<◌, ◌≡◌, refl, true, arith, List, [], ◌∷◌, ◌++◌, ◌==◌, none, some, ap, sym,
  ◌∙◌, length, length-append, Bool-cases, Option-cases, inl, inr,
}
use cane.Task.Memory.{Sched, M, Event}
use cane.Task.{schedule}
use cane.Task.Ring.{has}
use cane.Task.Links.{has-append}
use cane.Task.Queue.{IsQueue, head_or_null}
use cane.Task.Schedule.{successor, schedule-successor}

-- `turns` calls of `schedule`, one after the other
abbrev pub rounds : ℕ → M (Unit {0})
rounds zero s = some (tt, s)
rounds (suc turns) s = elim (schedule s) [ none ↦ none | some (done, s') ↦ rounds turns s' ]

-- After `turns` calls the current task is `t`, and the queue is as it was.
pub record Turned (s : Sched) (q : List ℕ) (turns t : ℕ) : Type 0 where
  pub after : Sched
  pub run : rounds turns s ≡ some (tt, after)
  pub current : after.current_task ≡ t
  pub queue : IsQueue after q

append_one : (pre : List ℕ) (c : ℕ) (post : List ℕ) → (pre ++ (c ∷ [])) ++ post ≡ pre ++ (c ∷ post)
append_one [] c post = refl
append_one (x ∷ pre) c post = ap (λ xs. x ∷ xs) (append_one pre c post)

-- One call, with the state that it leaves.
record OneTurn (s : Sched) (q : List ℕ) (t : ℕ) : Type 0 where
  after : Sched
  run : schedule s ≡ some (tt, after)
  current : after.current_task ≡ t
  queue : IsQueue after q

one_turn :
    {s : Sched} (pre : List ℕ) (c : ℕ) (post : List ℕ)
    → IsQueue s (pre ++ (c ∷ post))
    → s.current_task ≡ c
    → OneTurn s (pre ++ (c ∷ post)) (successor pre c post)
one_turn {s} pre c post ok cur = elim (Bool-cases (successor pre c post == c)) [
  | inl alone ↦ record {
    after = s;
    run = schedule-successor pre c post ok cur ∙ rw alone;
    current = ground arith;
    queue = ok;
  }
  | inr other ↦ record {
    after = record s {
      current_task = successor pre c post;
      events = Event.switch_to c (successor pre c post) ∷ s.events;
    };
    run = schedule-successor pre c post ok cur ∙ rw other;
    current = refl;
    queue = record {
      distinct = ok.distinct;
      alive = ok.alive;
      not_null = ok.not_null;
      ring = ok.ring;
      head = ok.head;
    };
  }
]

Turned-none : {s : Sched} {q : List ℕ} {t : ℕ} → IsQueue s q → s.current_task ≡ t → Turned s q 0 t
Turned-none {s} ok cur = record { after = s; run = refl; current = cur; queue = ok }

Turned-more :
    {s : Sched} {q : List ℕ} {turns t u : ℕ} (one : OneTurn s q u)
    → Turned one.after q turns t
    → Turned s q (suc turns) t
Turned-more {s} {turns} one rest = record {
  after = rest.after;
  run = rw (rounds, one.run) rest.run;
  current = rest.current;
  queue = rest.queue;
}

Turned-join :
    {s : Sched} {q : List ℕ} {t u : ℕ} (turns more : ℕ) (first : Turned s q turns u)
    → Turned first.after q more t
    → Turned s q (turns + more) t
Turned-join {s} {q} {t} {u} turns more first rest = record {
  after = rest.after;
  run = rounds-join turns more s first.after rest.after first.run rest.run;
  current = rest.current;
  queue = rest.queue;
}
  where
    rounds-join :
        (turns more : ℕ) (s s1 s2 : Sched)
        → rounds turns s ≡ some (tt, s1)
        → rounds more s1 ≡ some (tt, s2)
        → rounds (turns + more) s ≡ some (tt, s2)
    rounds-join zero more s s1 s2 e f =
        let none_more : 0 + more ≡ more = omega arith in
        let here : s ≡ s1 = cc in rw (none_more, here) f
    rounds-join (suc turns) more s s1 s2 e f =
        let one_less : suc turns + more ≡ suc (turns + more) = omega arith in
        elim (Option-cases (schedule s)) [
          | inl fault ↦ absurd (ground (arith, (rw (rounds, fault) at e)))
          | inr ((done, s'), go) ↦
              rw (one_less, rounds, go) (rounds-join turns more s' s1 s2 (rw (rounds, go) at e) f)
        ]

-- Forward in the queue: to a task after the current one.
forward :
    (between : List ℕ) (s : Sched) (q pre : List ℕ) (c t : ℕ) (rest : List ℕ)
    → q ≡ pre ++ (c ∷ (between ++ (t ∷ rest)))
    → IsQueue s q
    → s.current_task ≡ c
    → Turned s q (suc (length between)) t
forward [] s q pre c t rest e ok cur =
    let one = one_turn pre c (t ∷ rest) (rw e at ok) cur in
    rw e (Turned-more one (Turned-none one.queue one.current))
forward (y ∷ between) s q pre c t rest e ok cur =
    let one = one_turn pre c (y ∷ (between ++ (t ∷ rest))) (rw e at ok) cur in
    rw e (
      Turned-more one (
        forward between one.after _ (pre ++ (c ∷ [])) y t rest
          (sym (append_one pre c (y ∷ (between ++ (t ∷ rest))))) one.queue one.current))

-- Round the end of the queue: to its head.
to_head :
    (post : List ℕ) (s : Sched) (q pre : List ℕ) (c : ℕ)
    → q ≡ pre ++ (c ∷ post)
    → IsQueue s q
    → s.current_task ≡ c
    → Turned s q (suc (length post)) (head_or_null q)
to_head [] s q pre c e ok cur =
    let one = one_turn pre c [] (rw e at ok) cur in
    rw e (Turned-more one (Turned-none one.queue one.current))
to_head (y ∷ post) s q pre c e ok cur =
    let one = one_turn pre c (y ∷ post) (rw e at ok) cur in
    rw e (
      Turned-more one (
        to_head post one.after _ (pre ++ (c ∷ [])) y (sym (append_one pre c (y ∷ post))) one.queue
          one.current))

pub has-split :
    (t : ℕ) (q : List ℕ)
    → has t q ≡ true
    → (pre : List ℕ) × (post : List ℕ) × (q ≡ pre ++ (t ∷ post))
has-split t [] h = cc
has-split t (x ∷ q) h = elim (Bool-cases (t == x)) [
  | inl e ↦ let e' : x ≡ t = ground arith in ([], q, rw e')
  | inr e ↦
      let rest = has-split t q (ground arith) in (x ∷ rest.0, rest.1, ap (λ xs. x ∷ xs) rest.2)
]

append_append :
    (a : List ℕ) (t : ℕ) (r more : List ℕ) → (a ++ (t ∷ r)) ++ more ≡ a ++ (t ∷ (r ++ more))
append_append [] t r more = refl
append_append (x ∷ a) t r more = ap (λ xs. x ∷ xs) (append_append a t r more)

-- Back round the end of the queue: to a task before the current one.
backward :
    {s : Sched} (q a : List ℕ) (t : ℕ) (r : List ℕ) (c : ℕ) (post : List ℕ)
    → q ≡ a ++ (t ∷ (r ++ (c ∷ post)))
    → q ≡ (a ++ (t ∷ r)) ++ (c ∷ post)
    → IsQueue s q
    → s.current_task ≡ c
    → Turned s q (suc (length post) + length a) t
backward {s} q [] t r c post e e' ok cur =
    let first = to_head post s q (t ∷ r) c e' ok cur in
    let here : head_or_null q ≡ t = rw e in
    Turned-join (suc (length post)) 0 first (Turned-none first.queue (first.current ∙ here))
backward {s} q (x ∷ a) t r c post e e' ok cur =
    let first = to_head post s q (x ∷ (a ++ (t ∷ r))) c e' ok cur in
    let here : head_or_null q ≡ x = rw e in
    Turned-join (suc (length post)) (suc (length a)) first
      (forward a first.after q [] x t (r ++ (c ∷ post)) e first.queue (first.current ∙ here))

-- With the current task queued, every queued task becomes the current task after fewer calls of
-- `schedule` than there are queued tasks, and the queue is as it was: while `schedule` is called, no task waits for ever.
pub schedule-Turned :
    {s : Sched} (q : List ℕ) (c t : ℕ)
    → IsQueue s q
    → s.current_task ≡ c
    → has c q ≡ true
    → has t q ≡ true
    → (turns : ℕ) × (turns < length q) × Turned s q turns t
schedule-Turned {s} q c t ok cur c_in t_in =
    let (pre, post, e) = has-split c q c_in in
    let size : length q ≡ length pre + suc (length post) =
      ap length e ∙ length-append pre (c ∷ post) in
    elim (Bool-cases (t == c)) [
      | inl same ↦ (0, omega (arith, size), Turned-none ok (cur ∙ ground arith))
      | inr other ↦ elim (Bool-cases (has t post)) [
        | inl after ↦
            let (b, r, f) = has-split t post after in
            (
              suc (length b),
              omega (arith, size, ap length f, length-append b (t ∷ r)),
              forward b s q pre c t r (rw f at e) ok cur,
            )
        | inr not_after ↦
            let (a, r, f) =
              has-split t pre (ground (arith, has-append t pre (c ∷ post), (rw e at t_in))) in
            let g : q ≡ (a ++ (t ∷ r)) ++ (c ∷ post) = rw f at e in
            (
              suc (length post) + length a,
              omega (arith, size, ap length f, length-append a (t ∷ r)),
              backward q a t r c post (g ∙ append_append a t r (c ∷ post)) g ok cur,
            )
      ]
    ]
