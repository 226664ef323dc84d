-- ===== src/Tasks/Tests.antt =====
-- Examples for the scheduler of kernel.c: three live tasks, in the slots 0, 2 and 5.
use os_research_lab.Base.{
  ℕ, suc, ◌-◌, ◌≤◌, ◌<◌, ◌==◌, List, [], ◌∷◌, some, none, true, false, length, get_or, ◌≡◌, ◌⊎◌,
  refl, arith, if◌then◌else◌,
}
use os_research_lab.Tasks.{
  Task, Scheduler, max_tasks, no_task, can_run, next_task, is_free, task_create,
}
use os_research_lab.Tasks.Fair.{yields, yields-runs}
use os_research_lab.Tasks.Laws.{behind, Idle, Fails, next_task_lem, task_create_lem}

abbrev live : ℕ → Task
live entry = record { sp = some 1000; entry = some entry }

abbrev exited : ℕ → Task
exited entry = record { sp = none; entry = some entry }

abbrev three : List Task
three = live 1 ∷ exited 2 ∷ live 3 ∷ no_task ∷ no_task ∷ live 4 ∷ []

abbrev scheduler : Scheduler
scheduler = record { tasks = three; cur = some 2 }

next_task_lem_example :
    ((next_task three 2 ≡ none) × Idle three 2 5)
    ⊎ ((k : ℕ) × (suc k < max_tasks)
        × (next_task three 2 ≡ some (behind 2 (suc k)))
        × (can_run three (behind 2 (suc k)) ≡ true)
        × Idle three 2 k)
next_task_lem_example = next_task_lem three 2 (omega arith)

-- The task in slot 5 runs within five yields from slot 2, each of which saves 900.
yields-runs_example :
    (n : ℕ) × (n ≤ 5)
    × ((yields (λ (i : ℕ). 900) n (record { tasks = three; cur = some 2 })).cur ≡ some 5)
yields-runs_example = yields-runs (λ i. 900) three 2 5 (omega arith) (omega arith) refl

task_create_lem_example :
    ((task_create scheduler 2 8192 ≡ none) × Fails is_free three)
    ⊎ ((i : ℕ) × (s' : Scheduler) × (task_create scheduler 2 8192 ≡ some s')
        × (i < length three)
        × (can_run three i ≡ false)
        × (s'.cur ≡ some 2)
        × ((q : ℕ)
            → get_or s'.tasks q no_task ≡ (
                if q == i
                then record { sp = some (8192 - 64); entry = some 2 }
                else get_or three q no_task)))
task_create_lem_example = task_create_lem scheduler 2 8192
