-- ===== src/ThreadPool.antt =====
-- src/threadpool.cpp and src/threadpool.h: the queue, the workers, the condition variable and `stop`
-- as a step relation. A task is a number, a step is what a thread does while it holds the lock, or
-- without it, and the order of the threads is the order of the steps. `taken` and `pushed` record
-- what has happened.
pub mod Order
pub mod Join
mod Examples
use libnap.Base.{
  ℕ, suc, ◌+◌, List, [], ◌∷◌, ◌++◌, Option, some, none, Bool, true, false, ◌≡◌, get_elem?, set,
  replicate, if◌then◌else◌,
}
use Prim.{Unit}

-- Where a worker is in its loop: where it gets the lock to test the condition of the wait, asleep
-- in the wait, at `task()`, or behind `return`.
pub data Worker : Type 0 where
  testing : Worker
  asleep : Worker
  running : ℕ → Worker
  returned : Worker

-- `checked` are the calls of `push` that have read `stop` and not yet locked, `notices` counts
-- those that have put in their task and not yet called `notify_one`, and `notified` is whether the
-- destructor has called `notify_all`.
pub record Pool : Type 0 where
  pub workers : List Worker
  pub tasks : List ℕ
  pub stop : Bool
  pub checked : List ℕ
  pub notices : ℕ
  pub notified : Bool
  pub pushed : List ℕ
  pub taken : List ℕ

-- `ThreadPool(threads)`
unfoldable pub fresh_pool : ℕ → Pool
fresh_pool threads = record {
  workers = replicate threads testing;
  tasks = [];
  stop = false;
  checked = [];
  notices = 0;
  notified = false;
  pushed = [];
  taken = [];
}

-- What a worker does with the lock: while the condition does not hold it sleeps, and else it
-- returns, or takes the task.
unfoldable pub wake_on : ℕ → Pool → Bool → List ℕ → Pool
wake_on i s true [] = record s { workers = set s.workers i returned }
wake_on i s false [] = record s { workers = set s.workers i asleep }
wake_on i s stop (task ∷ rest) = record s {
  workers = set s.workers i (running task);
  tasks = rest;
  taken = s.taken ++ task ∷ [];
}

unfoldable pub wake : ℕ → Pool → Pool
wake i s = wake_on i s s.stop s.tasks

-- `push`: the test of `stop`, which throws, and what is under the lock.
unfoldable pub check_stop : ℕ → Pool → Option Pool
check_stop task s = if s.stop then none else some (record s { checked = task ∷ s.checked })

unfoldable pub emplace : ℕ → List ℕ → Pool → Pool
emplace task others s = record s {
  checked = others;
  tasks = s.tasks ++ task ∷ [];
  notices = suc s.notices;
  pushed = s.pushed ++ task ∷ [];
}

-- `notify_all`, and one sleeper that goes on.
unfoldable pub rouse : Worker → Worker
rouse testing = testing
rouse asleep = testing
rouse (running task) = running task
rouse returned = returned

unfoldable pub rouse_all : List Worker → List Worker
rouse_all [] = []
rouse_all (w ∷ ws) = rouse w ∷ rouse_all ws

unfoldable pub notify_all : Pool → Pool
notify_all s = record s { workers = rouse_all s.workers; notified = true }

unfoldable pub rouse_one : ℕ → Pool → Pool
rouse_one i s = record s { workers = set s.workers i testing }

abbrev pub IsAwake : Worker → Type 0
IsAwake testing = Unit
IsAwake asleep = ⊥
IsAwake (running task) = Unit
IsAwake returned = Unit

abbrev pub AllAwake : List Worker → Type 0
AllAwake [] = Unit
AllAwake (w ∷ ws) = IsAwake w × AllAwake ws

-- The steps of the workers that are not asleep.
pub data Work : Pool → Pool → Type 0 where
  wakes : {s : Pool} (i : ℕ) → get_elem? s.workers i ≡ some testing → Work s (wake i s)
  finishes :
      {s : Pool} (i task : ℕ) → get_elem? s.workers i ≡ some (running task) → Work s (rouse_one i s)

-- The steps of all threads. `notify_one` wakes a sleeper, if there is one; a sleeper may also go on
-- without a call. `stops` and `notifies_all` are the destructor.
pub data Step : Pool → Pool → Type 0 where
  works : {s t : Pool} → Work s t → Step s t
  checks : {s t : Pool} (task : ℕ) → check_stop task s ≡ some t → Step s t
  emplaces :
      {s : Pool} (task : ℕ) (before after : List ℕ)
      → s.checked ≡ before ++ task ∷ after
      → Step s (emplace task (before ++ after) s)
  notifies_one :
      {s : Pool} (i n : ℕ)
      → s.notices ≡ suc n
      → get_elem? s.workers i ≡ some asleep
      → Step s (record (rouse_one i s) { notices = n })
  notifies_none :
      {s : Pool} (n : ℕ)
      → s.notices ≡ suc n
      → AllAwake s.workers
      → Step s (record s { notices = n })
  goes_on : {s : Pool} (i : ℕ) → get_elem? s.workers i ≡ some asleep → Step s (rouse_one i s)
  stops : {s : Pool} → Step s (record s { stop = true })
  notifies_all : {s : Pool} → s.stop ≡ true → Step s (notify_all s)

pub data Steps : Pool → Pool → Type 0 where
  done : {s : Pool} → Steps s s
  next : {s t u : Pool} → Step s t → Steps t u → Steps s u
