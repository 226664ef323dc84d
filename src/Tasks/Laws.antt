-- ===== src/Tasks/Laws.antt =====
-- jordyOS/kernel.c: the laws of the scheduler, one operation at a time.
use os_research_lab.Base.{
  ℕ, zero, suc, ◌+◌, ◌-◌, ◌%◌, ◌≤◌, ◌<◌, List, [], ◌∷◌, some, none, Bool, true, false, not, ◌&&◌,
  ◌||◌, ◌==◌, ◌!=◌, length, get_or, set, get_or-set, Bool-cases, ◌≡◌, ◌⊎◌, inl, inr, refl, ap, ◌∙◌,
  arith, if◌then◌else◌,
}
use os_research_lab.Tasks.{
  Task, Scheduler, max_tasks, no_task, can_run, search, next_task, first_slot, is_own, is_free,
  else_slot, task_create,
}

-- The slot `k` places behind `n`, going round.
abbrev pub behind : ℕ → ℕ → ℕ
behind n k = (n + k) % max_tasks

-- The tasks at most `k` places behind `p` cannot run.
abbrev pub Idle : List Task → ℕ → ℕ → Type 0
Idle tasks p zero = Unit {0}
Idle tasks p (suc k) = (can_run tasks (behind p (suc k)) ≡ false) × Idle tasks p k

-- Past `k` idle places the search stops at the first task that can run, or back at `p`.
search_lem :
    (tasks : List Task) (left p i : ℕ)
    → p < max_tasks
    → i < max_tasks
    → max_tasks ≤ left + i
    → Idle tasks p i
    → (j : ℕ) × (j < max_tasks)
      × (search tasks left (behind p (suc i)) p ≡ behind p (suc j))
      × Idle tasks p j
      × ((can_run tasks (behind p (suc j)) ≡ true) ⊎ (suc j ≡ max_tasks))
unfolding search
search_lem tasks zero p i a b c idle = absurd (omega arith)
search_lem tasks (suc left) p i a b c idle =
    let n = behind p (suc i) in
    elim (Bool-cases (not (can_run tasks n) && (n != p))) [
      | inr stops ↦ (i, b, rw (search, stops), idle, ground arith)
      | inl goes ↦
          let step : (n + 1) % max_tasks ≡ behind p (suc (suc i)) = omega arith in
          let (j, low, found, all, end) =
            search_lem tasks left p (suc i) a (ground arith) (omega arith) (ground arith, idle) in
          (j, low, rw (search, goes) (ap (λ (q : ℕ). search tasks left q p) step ∙ found), all, end)
    ]

-- `yield` is round robin with no fuel run out: from a task it switches to the nearest later slot,
-- going round, whose task can run, past only slots that cannot; and it stays exactly when no other
-- slot can run.
pub next_task_lem :
    (tasks : List Task) (p : ℕ)
    → p < max_tasks
    → ((next_task tasks p ≡ none) × Idle tasks p 5)
      ⊎ ((k : ℕ) × (suc k < max_tasks)
          × (next_task tasks p ≡ some (behind p (suc k)))
          × (can_run tasks (behind p (suc k)) ≡ true)
          × Idle tasks p k)
unfolding next_task
next_task_lem tasks p h =
    let (j, low, found, idle, end) =
      search_lem tasks max_tasks p 0 h (omega arith) (omega arith) tt in
    elim (Bool-cases (not (can_run tasks (behind p (suc j))) || (behind p (suc j) == p))) [
      | inl stays ↦
          let five : j ≡ 5 = ground arith in inl (rw (next_task, found, stays), rw five at idle)
      | inr goes ↦ inr (j, ground arith, rw (next_task, found, goes), ground arith, idle)
    ]

abbrev pub Fails : (Task → Bool) → List Task → Type 0
Fails test [] = Unit {0}
Fails test (t ∷ tasks) = (test t ≡ false) × Fails test tasks

-- A search gives an index whose task satisfies the test, or no task does.
first_slot_lem :
    (test : Task → Bool) (tasks : List Task)
    → ((first_slot test tasks ≡ none) × Fails test tasks)
      ⊎ ((i : ℕ) × (first_slot test tasks ≡ some i)
          × (i < length tasks)
          × (test (get_or tasks i no_task) ≡ true))
unfolding first_slot
first_slot_lem test [] = inl (refl, tt)
first_slot_lem test (t ∷ tasks) = elim (Bool-cases (test t)) [
  | inl here ↦ inr (0, rw (first_slot, here), omega arith, here)
  | inr past ↦ elim (first_slot_lem test tasks) [
    | inl (nowhere, fails) ↦ inl (rw (first_slot, past, nowhere), (past, fails))
    | inr (i, found, low, holds) ↦ inr (suc i, rw (first_slot, past, found), omega arith, holds)
  ]
]

-- The slot that a new task takes.
slot_lem :
    (fn : ℕ) (tasks : List Task)
    → ((else_slot (first_slot (is_own fn) tasks) (first_slot is_free tasks) ≡ none)
        × Fails is_free tasks)
      ⊎ ((i : ℕ) × (else_slot (first_slot (is_own fn) tasks) (first_slot is_free tasks) ≡ some i)
          × (i < length tasks)
          × (can_run tasks i ≡ false))
slot_lem fn tasks = elim (first_slot_lem (is_own fn) tasks) [
  | inr (i, found, low, holds) ↦ inr (i, rw found, low, ground arith)
  | inl (nowhere, fails) ↦ elim (first_slot_lem is_free tasks) [
    | inl (nowhere', fails') ↦ inl (rw (nowhere, nowhere'), fails')
    | inr (i, found, low, holds) ↦ inr (i, rw (nowhere, found), low, ground arith)
  ]
]

-- `task_create` fails when no slot is free, and otherwise puts the
-- task, ready to run with its eight words of stack, into one slot whose task could not run, and
-- changes no other slot nor the current task.
pub task_create_lem :
    (s : Scheduler) (fn top : ℕ)
    → ((task_create s fn top ≡ none) × Fails is_free s.tasks)
      ⊎ ((i : ℕ) × (s' : Scheduler) × (task_create s fn top ≡ some s')
          × (i < length s.tasks)
          × (can_run s.tasks i ≡ false)
          × (s'.cur ≡ s.cur)
          × ((q : ℕ)
              → get_or s'.tasks q no_task ≡ (
                  if q == i
                  then record { sp = some (top - 64); entry = some fn }
                  else get_or s.tasks q no_task)))
unfolding task_create
task_create_lem s fn top = elim (slot_lem fn s.tasks) [
  | inl (nowhere, fails) ↦ inl (rw (task_create, nowhere), fails)
  | inr (i, found, low, free) ↦
      let new : Task = record { sp = some (top - 64); entry = some fn } in
      inr (
        i,
        record s { tasks = set s.tasks i new },
        rw (task_create, found),
        low,
        free,
        refl,
        λ q. ground (arith, get_or-set s.tasks i q new no_task),
      )
]
