-- ===== src/Tasks.antt =====
-- jordyOS/kernel.c: the cooperative scheduler, `yield`, `task_create` and `sys_exit_task`. What the
-- assembly of `ctx_switch` stores as the old task's stack pointer is an argument, `saved`; polling
-- the network card, which `yield` does first, changes nothing here.
pub mod Fair
pub mod Laws
mod Tests
use os_research_lab.Base.{
  ℕ, zero, suc, ◌+◌, ◌-◌, ◌%◌, List, [], ◌∷◌, Option, some, none, Bool, true, false, not, ◌&&◌,
  ◌||◌, ◌==◌, ◌!=◌, get_or, set, if◌then◌else◌,
}
use mathlib.Core.Option

abbrev pub max_tasks : ℕ
max_tasks = 6

-- `task_t`; a null pointer is `none`.
pub record Task : Type 0 where
  pub sp : Option ℕ
  pub entry : Option ℕ

-- `tasks` and `cur`, where `none` is -1.
pub record Scheduler : Type 0 where
  pub tasks : List Task
  pub cur : Option ℕ

abbrev pub no_task : Task
no_task = record { sp = none; entry = none }

abbrev pub is_set : Option ℕ → Bool
is_set none = false
is_set (some p) = true

abbrev pub can_run : List Task → ℕ → Bool
can_run tasks n = is_set (get_or tasks n no_task).sp

-- `while (tasks[n].sp == NULL && n != p) n = (n + 1) % MAX_TASKS` with fuel.
unfoldable pub search : List Task → ℕ → ℕ → ℕ → ℕ
search tasks zero n p = n
search tasks (suc left) n p =
    let later = search tasks left ((n + 1) % max_tasks) p in
    if not (can_run tasks n) && (n != p) then later else n

-- The task that `yield` switches to, if it switches.
unfoldable pub next_task : List Task → ℕ → Option ℕ
unfolding search
next_task tasks p =
    let n = search tasks max_tasks ((p + 1) % max_tasks) p in
    if not (can_run tasks n) || (n == p) then none else some n

-- The old task's pointer is stored in its slot, or in a dummy when the task has exited.
abbrev pub switched : List Task → ℕ → ℕ → ℕ → Scheduler
switched tasks p saved n = record {
  tasks =
      if can_run tasks p
      then set tasks p (record (get_or tasks p no_task) { sp = some saved })
      else tasks;
  cur = some n;
}

abbrev pub yield_from : List Task → ℕ → ℕ → Option ℕ → Scheduler
yield_from tasks p saved none = record { tasks = tasks; cur = some p }
yield_from tasks p saved (some n) = switched tasks p saved n

abbrev pub yield_at : List Task → ℕ → Option ℕ → Scheduler
yield_at tasks saved none = record { tasks = tasks; cur = none }
yield_at tasks saved (some p) = yield_from tasks p saved (next_task tasks p)

unfoldable pub yield : Scheduler → ℕ → Scheduler
yield s saved = yield_at s.tasks saved s.cur

-- `if (cur != -1) tasks[cur].sp = NULL`
abbrev pub stopped : List Task → Option ℕ → List Task
stopped tasks none = tasks
stopped tasks (some p) = set tasks p (record (get_or tasks p no_task) { sp = none })

unfoldable pub sys_exit_task : Scheduler → ℕ → Scheduler
unfolding yield
sys_exit_task s saved = yield (record s { tasks = stopped s.tasks s.cur }) saved

-- The index of the first task that satisfies a test.
unfoldable pub first_slot : (Task → Bool) → List Task → Option ℕ
first_slot test [] = none
first_slot test (t ∷ tasks) =
    let rest = Option.map suc (first_slot test tasks) in if test t then some 0 else rest

-- `tasks[i].entry == NULL || tasks[i].entry == fn`
abbrev pub is_entry : Option ℕ → ℕ → Bool
is_entry none fn = true
is_entry (some e) fn = e == fn

abbrev pub is_own : ℕ → Task → Bool
is_own fn t = not (is_set t.sp) && is_entry t.entry fn

abbrev pub is_free : Task → Bool
is_free t = not (is_set t.sp)

abbrev pub else_slot : Option ℕ → Option ℕ → Option ℕ
else_slot none other = other
else_slot (some i) other = some i

-- Eight words lie between the new task's stack pointer and the end of its stack.
abbrev pub filled : Scheduler → ℕ → ℕ → Option ℕ → Option Scheduler
filled s fn top none = none
filled s fn top (some i) =
    some (record s { tasks = set s.tasks i (record { sp = some (top - 64); entry = some fn }) })

-- `task_create` with a stack that ends at `top`; `none` prints that no slot is free.
unfoldable pub task_create : Scheduler → ℕ → ℕ → Option Scheduler
unfolding first_slot
task_create s fn top =
    filled s fn top (else_slot (first_slot (is_own fn) s.tasks) (first_slot is_free s.tasks))
