-- ===== src/Sched/Tests.antt =====
-- The scheduler with three processes.
use best_os.Common.{
  ℕ, ◌+◌, ◌≤◌, length, ◌+◌, ◌≡◌, refl, arith, true, false, some, [], ◌∷◌, length, get_or,
}
use best_os.Vec.Lists.{list_ptrs}
use best_os.Sched.{Sched, beyond, ran, sched_remove}
use best_os.Sched.Rounds.{IsRunning, ticks, rounds, position, running, rounds_lem}
use best_os.Sched.Remove.{sched_remove-last}

abbrev three : Sched
three = record {
  current_pid = 3;
  current_tick = 0;
  index = 3;
  current_task = 30;
  processes = 10 ∷ 20 ∷ 30 ∷ [];
  started = true;
  lock = false;
}

three-IsRunning : IsRunning three
three-IsRunning = record {
  free = refl;
  some_process = omega arith;
  few = omega arith;
  inside = omega arith;
}

-- After the last process the first is next, and then the second.
rounds_lem_example :
    rounds 2 three
    ≡ ran
        (get_or three.processes (position (length three.processes) (three.index + 1)) 0)
        (running three (position (length three.processes) (three.index + 1)))
rounds_lem_example = rounds_lem 1 three three-IsRunning refl (omega arith)

-- The third process leaves at its last tick.
abbrev leaving : Sched
leaving = record three { current_tick = 4 }

sched_remove-last_example :
    (t : Sched) × (sched_remove list_ptrs 30 leaving ≡ some t)
    × (t.processes ≡ 10 ∷ 20 ∷ [])
    × ((m : ℕ) → m ≤ 5 → (u : Sched) × (ticks m t ≡ ran 30 u) × (u.index ≡ length u.processes + 1))
    × (ticks 6 t ≡ beyond)
sched_remove-last_example =
    sched_remove-last list_ptrs (10 ∷ 20 ∷ []) 30 5 leaving refl
      (λ e. ground arith, (λ e. ground arith, tt)) refl (omega arith) (omega arith) refl refl refl
