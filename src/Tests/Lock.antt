-- ===== src/Tests/Lock.antt =====
-- The lock of main/gdb_if.cpp in concrete runs.
use blackmagic_espidf.Base.{ℕ, ◌≡◌, refl, none, some, arith}
use blackmagic_espidf.Base.Int.{pos}
use blackmagic_espidf.Lock.{lock, breaklock, restorelock}
use blackmagic_espidf.Lock.Tasks.{running, broken, construct_lock, construct_break}
use blackmagic_espidf.Lock.Thrown.{
  Threads, thread, update_thread, init_threads, act, move, raise, Reached, start, later,
  thrown-exclusive, restorelock-restores, leaked-keeps,
}

-- An exception leaves the lock of task 1; it breaks what is left of it, and task 2 locks.
abbrev locked_threads : Threads
locked_threads = record {
  mutex = record { holder = some 1; lockcount = pos 1 };
  threads = update_thread init_threads.threads 1 (thread (running 1) 0);
}

abbrev raised_threads : Threads
raised_threads = record {
  mutex = locked_threads.mutex;
  threads = update_thread locked_threads.threads 1 (thread (running 0) 1);
}

abbrev waiting_threads : Threads
waiting_threads = record {
  mutex = record { holder = none; lockcount = pos 0 };
  threads = update_thread raised_threads.threads 1 (thread (broken (pos 1) 0) 1);
}

abbrev other_threads : Threads
other_threads = record {
  mutex = record { holder = some 2; lockcount = pos 1 };
  threads = update_thread waiting_threads.threads 2 (thread (running 1) 0);
}

Reached-raised : Reached raised_threads
unfolding lock
Reached-raised = later (later start (act 1 (move (construct_lock refl)))) (act 1 (raise 1 0))

Reached-other : Reached other_threads
unfolding lock breaklock
Reached-other =
    later (later Reached-raised (act 1 (move construct_break))) (act 2 (move (construct_lock refl)))

thrown-exclusive_example : ◌≡◌ {A = ℕ} 2 2
thrown-exclusive_example = thrown-exclusive Reached-other 2 2 (omega arith) (omega arith)

leaked-keeps_example :
    (lock 2 raised_threads.mutex ≡ none)
    × (breaklock 1 raised_threads.mutex ≡ (pos 1, record { holder = none; lockcount = pos 0 }))
    × (restorelock 1 (breaklock 1 raised_threads.mutex).0 (breaklock 1 raised_threads.mutex).1
        ≡ some raised_threads.mutex)
leaked-keeps_example = leaked-keeps Reached-raised 1 0 refl 2 (omega arith)

-- Task 1 locks behind the lock that it has left, and breaks both.
abbrev again_threads : Threads
again_threads = record {
  mutex = record { holder = some 1; lockcount = pos 2 };
  threads = update_thread raised_threads.threads 1 (thread (running 1) 1);
}

abbrev broken_threads : Threads
broken_threads = record {
  mutex = record { holder = none; lockcount = pos 0 };
  threads = update_thread again_threads.threads 1 (thread (broken (pos 2) 1) 1);
}

Reached-broken : Reached broken_threads
unfolding lock breaklock
Reached-broken =
    later (later Reached-raised (act 1 (move (construct_lock refl)))) (act 1 (move construct_break))

restorelock-restores_example :
    restorelock 1 (pos 2) broken_threads.mutex
    ≡ some (record { holder = some 1; lockcount = pos 2 })
restorelock-restores_example = restorelock-restores Reached-broken 1 1 1 (pos 2) refl

restorelock-waits : restorelock 1 (pos 1) other_threads.mutex ≡ none
unfolding restorelock
restorelock-waits = refl
