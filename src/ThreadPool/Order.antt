-- ===== src/ThreadPool/Order.antt =====
-- src/threadpool.cpp and src/threadpool.h: tasks are taken once, in the order of `push`.
use libnap.Base.{
  ℕ, List, [], ◌∷◌, ◌++◌, Option, some, none, Bool, true, false, ◌≡◌, refl, sym, ap, ◌∙◌,
  append_assoc, if◌then◌else◌,
}
use Prim.{Unit, tt}
use mathlib.Core.Path.{subst}
use libnap.ThreadPool.{
  Pool, fresh_pool, wake_on, wake, check_stop, emplace, notify_all, rouse_one, Work, wakes,
  finishes, Step, works, checks, emplaces, notifies_one, notifies_none, goes_on, stops,
  notifies_all, Steps, done, next,
}

-- The tasks that a `push` has put into the queue are those that workers took, and those in it.
abbrev InOrder : Pool → Type 0
InOrder s = s.pushed ≡ s.taken ++ s.tasks

abbrev AfterInOrder : Option Pool → Type 0
AfterInOrder none = Unit
AfterInOrder (some t) = InOrder t

wake_on-InOrder :
    (i : ℕ) (s : Pool) (stop : Bool) (tasks : List ℕ)
    → s.tasks ≡ tasks
    → InOrder s
    → InOrder (wake_on i s stop tasks)
unfolding wake_on
wake_on-InOrder i s true [] e h = h
wake_on-InOrder i s false [] e h = h
wake_on-InOrder i s true (task ∷ rest) e h =
    h ∙ ap (λ l. s.taken ++ l) e ∙ sym (append_assoc s.taken (task ∷ []) rest)
wake_on-InOrder i s false (task ∷ rest) e h =
    h ∙ ap (λ l. s.taken ++ l) e ∙ sym (append_assoc s.taken (task ∷ []) rest)

check_stop-InOrder : (task : ℕ) (s : Pool) → InOrder s → AfterInOrder (check_stop task s)
unfolding check_stop
check_stop-InOrder task s h =
    elim s.stop
      as (λ b. AfterInOrder (if b then none else some (record s { checked = task ∷ s.checked }))) [
        | true ↦ tt
        | false ↦ h
      ]

Work-InOrder : {s t : Pool} → Work s t → InOrder s → InOrder t
unfolding wake rouse_one
Work-InOrder (wakes {s} i free) h = wake_on-InOrder i s s.stop s.tasks refl h
Work-InOrder (finishes i task busy) h = h

Step-InOrder : {s t : Pool} → Step s t → InOrder s → InOrder t
unfolding emplace notify_all rouse_one
Step-InOrder (works w) h = Work-InOrder w h
Step-InOrder (checks {s} task checked) h = subst AfterInOrder checked (check_stop-InOrder task s h)
Step-InOrder (emplaces {s} task before after seen) h =
    ap (λ l. l ++ task ∷ []) h ∙ append_assoc s.taken s.tasks (task ∷ [])
Step-InOrder (notifies_one i n some_left sleeps) h = h
Step-InOrder (notifies_none n some_left awake) h = h
Step-InOrder (goes_on i sleeps) h = h
Step-InOrder stops h = h
Step-InOrder (notifies_all stopped) h = h

Steps-InOrder : {s t : Pool} → Steps s t → InOrder s → InOrder t
Steps-InOrder done h = h
Steps-InOrder (next step more) h = Steps-InOrder more (Step-InOrder step h)

-- Whatever the threads have done since the construction, in any order: the tasks that `push` has
-- put into the queue, in that order, are those that workers have taken, in the order that they took
-- them, and then those that are still in the queue. So none is lost, taken twice or overtaken.
pub fifo_lem :
    (threads : ℕ) {s : Pool} → Steps (fresh_pool threads) s → s.pushed ≡ s.taken ++ s.tasks
fifo_lem threads steps = Steps-InOrder steps (unfold fresh_pool in refl)
