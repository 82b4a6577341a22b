-- ===== src/ThreadPool/Join.antt =====
-- src/threadpool.cpp, the destructor: after `notify_all` no worker sleeps, and all of them return.
use libnap.Base.{
  ℕ, zero, suc, ◌+◌, ◌*◌, List, [], ◌∷◌, Option, some, none, Bool, true, false, ◌≡◌, ◌⊎◌, inl, inr,
  refl, sym, ap, ◌∙◌, arith, get_elem?, set, length, if◌then◌else◌,
}
use Prim.{Unit, tt}
use mathlib.Core.Path.{subst}
use libnap.ThreadPool.{
  Worker, testing, asleep, running, returned, Pool, fresh_pool, wake_on, wake, check_stop, emplace,
  rouse, rouse_all, notify_all, rouse_one, IsAwake, AllAwake, Work, wakes, finishes, Step, works,
  checks, emplaces, notifies_one, notifies_none, goes_on, stops, notifies_all, Steps, done, next,
}

set-AllAwake :
    (ws : List Worker) (i : ℕ) (v : Worker) → IsAwake v → AllAwake ws → AllAwake (set ws i v)
set-AllAwake [] i v ok h = tt
set-AllAwake (w ∷ ws) zero v ok h = (ok, h.1)
set-AllAwake (w ∷ ws) (suc i) v ok h = (h.0, set-AllAwake ws i v ok h.1)

rouse-IsAwake : (w : Worker) → IsAwake (rouse w)
unfolding rouse
rouse-IsAwake testing = tt
rouse-IsAwake asleep = tt
rouse-IsAwake (running task) = tt
rouse-IsAwake returned = tt

rouse_all-AllAwake : (ws : List Worker) → AllAwake (rouse_all ws)
unfolding rouse_all
rouse_all-AllAwake [] = tt
rouse_all-AllAwake (w ∷ ws) = (rouse-IsAwake w, rouse_all-AllAwake ws)

-- The workers are to return, and none of them sleeps.
pub record Ending (s : Pool) : Type 0 where
  pub stopped : s.stop ≡ true
  pub awake : AllAwake s.workers

-- What holds from the construction on.
abbrev Roused : Pool → Type 0
Roused s = s.notified ≡ true → Ending s

wake_on-Ending :
    (i : ℕ) (s : Pool) (stop : Bool) (tasks : List ℕ)
    → s.stop ≡ stop
    → Ending s
    → Ending (wake_on i s stop tasks)
unfolding wake_on
wake_on-Ending i s true [] e h = record {
  stopped = h.stopped;
  awake = set-AllAwake s.workers i returned tt h.awake;
}
wake_on-Ending i s false [] e h = absurd (cc (e, h.stopped))
wake_on-Ending i s true (task ∷ rest) e h = record {
  stopped = h.stopped;
  awake = set-AllAwake s.workers i (running task) tt h.awake;
}
wake_on-Ending i s false (task ∷ rest) e h = record {
  stopped = h.stopped;
  awake = set-AllAwake s.workers i (running task) tt h.awake;
}

rouse_one-Ending : (i : ℕ) (s : Pool) → Ending s → Ending (rouse_one i s)
unfolding rouse_one
rouse_one-Ending i s h = record {
  stopped = h.stopped;
  awake = set-AllAwake s.workers i testing tt h.awake;
}

Work-Ending : {s t : Pool} → Work s t → Ending s → Ending t
unfolding wake
Work-Ending (wakes {s} i free) h = wake_on-Ending i s s.stop s.tasks refl h
Work-Ending (finishes {s} i task busy) h = rouse_one-Ending i s h

wake_on-notified :
    (i : ℕ) (s : Pool) (stop : Bool) (tasks : List ℕ)
    → (wake_on i s stop tasks).notified ≡ s.notified
unfolding wake_on
wake_on-notified i s true [] = refl
wake_on-notified i s false [] = refl
wake_on-notified i s true (task ∷ rest) = refl
wake_on-notified i s false (task ∷ rest) = refl

Work-notified : {s t : Pool} → Work s t → t.notified ≡ s.notified
unfolding wake rouse_one
Work-notified (wakes {s} i free) = wake_on-notified i s s.stop s.tasks
Work-notified (finishes i task busy) = refl

abbrev AfterRoused : Option Pool → Type 0
AfterRoused none = Unit
AfterRoused (some t) = Roused t

check_stop-Roused : (task : ℕ) (s : Pool) → Roused s → AfterRoused (check_stop task s)
unfolding check_stop
check_stop-Roused task s h =
    elim s.stop
      as (λ b. AfterRoused (if b then none else some (record s { checked = task ∷ s.checked }))) [
        | true ↦ tt
        | false ↦ λ n. record { stopped = (h n).stopped; awake = (h n).awake }
      ]

Step-Roused : {s t : Pool} → Step s t → Roused s → Roused t
unfolding emplace notify_all rouse_one
Step-Roused (works w) h = λ n. Work-Ending w (h (sym (Work-notified w) ∙ n))
Step-Roused (checks {s} task checked) h = subst AfterRoused checked (check_stop-Roused task s h)
Step-Roused (emplaces task before after seen) h =
    λ n. record { stopped = (h n).stopped; awake = (h n).awake }
Step-Roused (notifies_one {s} i n some_left sleeps) h =
    λ m. record { stopped = (h m).stopped; awake = set-AllAwake s.workers i testing tt (h m).awake }
Step-Roused (notifies_none n some_left awake) h =
    λ m. record { stopped = (h m).stopped; awake = awake }
Step-Roused (goes_on {s} i sleeps) h =
    λ m. record { stopped = (h m).stopped; awake = set-AllAwake s.workers i testing tt (h m).awake }
Step-Roused stops h = λ n. record { stopped = refl; awake = (h n).awake }
Step-Roused (notifies_all {s} stopped) h =
    λ n. record { stopped = stopped; awake = rouse_all-AllAwake s.workers }

Steps-Roused : {s t : Pool} → Steps s t → Roused s → Roused t
Steps-Roused done h = h
Steps-Roused (next step more) h = Steps-Roused more (Step-Roused step h)

-- The steps that are left to a worker, and to all of them, two for each task.
abbrev pub weight : Worker → ℕ
weight testing = 1
weight asleep = 0
weight (running task) = 2
weight returned = 0

abbrev pub weights : List Worker → ℕ
weights [] = 0
weights (w ∷ ws) = weight w + weights ws

abbrev pub left : Pool → ℕ
left s = 2 * length s.tasks + weights s.workers

abbrev pub AllReturned : List Worker → Type 0
AllReturned [] = Unit
AllReturned (w ∷ ws) = (w ≡ returned) × AllReturned ws

weights-set :
    (ws : List Worker) (i : ℕ) (v w : Worker)
    → get_elem? ws i ≡ some w
    → weights (set ws i v) + weight w ≡ weights ws + weight v
weights-set [] i v w h = absurd (cc h)
weights-set (x ∷ ws) zero v w h =
    let same : weight x ≡ weight w = ap (λ (o : Option Worker). weight_of o) h in
    omega (arith, same)
  where
    weight_of : Option Worker → ℕ
    weight_of none = 0
    weight_of (some x) = weight x
weights-set (x ∷ ws) (suc i) v w h = omega (arith, weights-set ws i v w h)

wake_on-left :
    (i : ℕ) (s : Pool) (stop : Bool) (tasks : List ℕ)
    → s.stop ≡ true
    → s.stop ≡ stop
    → s.tasks ≡ tasks
    → get_elem? s.workers i ≡ some testing
    → left (wake_on i s stop tasks) + 1 ≡ left s
unfolding wake_on
wake_on-left i s true [] h e same free =
    omega (arith, weights-set s.workers i returned testing free)
wake_on-left i s false [] h e same free = absurd (cc (h, e))
wake_on-left i s true (task ∷ rest) h e same free =
    omega (arith, weights-set s.workers i (running task) testing free, ap length same)
wake_on-left i s false (task ∷ rest) h e same free = absurd (cc (h, e))

Work-left : {s t : Pool} → Work s t → s.stop ≡ true → left t + 1 ≡ left s
unfolding wake rouse_one
Work-left (wakes {s} i free) h = wake_on-left i s s.stop s.tasks h refl refl free
Work-left (finishes {s} i task busy) h =
    omega (arith, weights-set s.workers i testing (running task) busy)

-- A worker that has not returned, and is awake.
busy_worker :
    (ws : List Worker)
    → AllAwake ws
    → AllReturned ws
      ⊎ ((i : ℕ) × ((get_elem? ws i ≡ some testing)
            ⊎ ((task : ℕ) × (get_elem? ws i ≡ some (running task)))))
busy_worker [] h = inl tt
busy_worker (testing ∷ ws) h = inr (0, inl refl)
busy_worker (asleep ∷ ws) h = absurd h.0
busy_worker (running task ∷ ws) h = inr (0, inr (task, refl))
busy_worker (returned ∷ ws) h = elim (busy_worker ws h.1) [
  | inl all ↦ inl (refl, all)
  | inr one ↦ inr (suc one.0, one.1)
]

-- So many steps of the workers.
pub data Works : ℕ → Pool → Pool → Type 0 where
  rest : {s : Pool} → Works 0 s s
  first : {n : ℕ} {s t u : Pool} → Work s t → Works n t u → Works (suc n) s u

-- The state `t` that the workers have come to by `k` steps from `s`.
pub record Joining (k : ℕ) (s t : Pool) : Type 0 where
  pub fewer : k + left t ≡ left s
  pub goes : AllReturned t.workers ⊎ ((u : Pool) × Work t u)

joining : {k : ℕ} {s t : Pool} → Works k s t → Ending s → Joining k s t
joining (rest {s}) h = record {
  fewer = omega arith;
  goes = elim (busy_worker s.workers h.awake) [
    | inl all ↦ inl all
    | inr one ↦ inr (step one.0 one.1)
  ];
}
  where
    step :
        (i : ℕ)
        → (get_elem? s.workers i ≡ some testing)
          ⊎ ((task : ℕ) × (get_elem? s.workers i ≡ some (running task)))
        → (u : Pool) × Work s u
    step i (inl free) = (wake i s, wakes i free)
    step i (inr busy) = (rouse_one i s, finishes i busy.0 busy.1)
joining (first w more) h =
    let later = joining more (Work-Ending w h) in
    record { fewer = omega (arith, later.fewer, Work-left w h.stopped); goes = later.goes }

-- After the destructor's `notify_all`, whatever the threads did before, and in whatever order the
-- workers go on, while no other task is put in: each step of a worker takes one from the number of
-- steps that are left, and as long as not all workers have returned, one of them can make a step.
-- So none of them sleeps for ever, and all have returned when that number is used up.
pub join_lem :
    (threads : ℕ) {s t : Pool} (k : ℕ)
    → Steps (fresh_pool threads) s
    → s.notified ≡ true
    → Works k s t
    → Joining k s t
unfolding fresh_pool
join_lem threads k steps notified run =
    joining run (Steps-Roused steps (λ n. absurd (cc n)) notified)
