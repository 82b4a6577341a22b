-- ===== src/ThreadPool/Examples.antt =====
-- A pool of src/threadpool.cpp with one worker and one task.
use libnap.Base.{[], ◌∷◌, ◌++◌, none, true, false, ◌≡◌, refl}
use libnap.ThreadPool.{
  testing, running, Pool, fresh_pool, wake_on, wake, check_stop, emplace, rouse, rouse_all,
  notify_all, rouse_one, wakes, works, checks, emplaces, notifies_one, stops, notifies_all, Steps,
  done, next,
}
use libnap.ThreadPool.Order.{fifo_lem}
use libnap.ThreadPool.Join.{rest, first, Joining, join_lem}

abbrev taken_one : Pool
taken_one = record {
  workers = running 7 ∷ [];
  tasks = [];
  stop = false;
  checked = [];
  notices = 0;
  notified = false;
  pushed = 7 ∷ [];
  taken = 7 ∷ [];
}

-- The worker falls asleep, a call of `push` wakes it, and it takes the task.
one_task : Steps (fresh_pool 1) taken_one
unfolding fresh_pool check_stop emplace wake wake_on rouse_one
one_task = next (works (wakes 0 refl)) (
    next (checks 7 refl) (
      next (emplaces 7 [] [] refl)
        (next (notifies_one 0 0 refl refl) (next (works (wakes 0 refl)) done))))

fifo_lem_example : taken_one.pushed ≡ taken_one.taken ++ taken_one.tasks
fifo_lem_example = fifo_lem 1 one_task

-- The worker sleeps, and the destructor wakes it.
abbrev roused : Pool
roused = record {
  workers = testing ∷ [];
  tasks = [];
  stop = true;
  checked = [];
  notices = 0;
  notified = true;
  pushed = [];
  taken = [];
}

destroyed : Steps (fresh_pool 1) roused
unfolding fresh_pool wake wake_on notify_all rouse_all rouse
destroyed = next (works (wakes 0 refl)) (next stops (next (notifies_all refl) done))

join_lem_example : Joining 1 roused (wake 0 roused)
join_lem_example = join_lem 1 1 destroyed refl (first (wakes 0 refl) rest)

refuses : check_stop 4 roused ≡ none
unfolding check_stop
refuses = refl
