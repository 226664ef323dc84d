-- ===== src/Tasks/Fair.antt =====
-- jordyOS/kernel.c: the scheduler over many yields.
use os_research_lab.Base.{
  ℕ, zero, suc, ◌+◌, ◌-◌, ◌≤◌, ◌<◌, List, some, true, false, ◌==◌, get_or, set, get_or-set, length,
  ltb, ◌&&◌, ◌%◌, sym, Bool-cases, ◌≡◌, inl, inr, refl, ap, ◌∙◌, arith,
}
use os_research_lab.Tasks.{
  Task, Scheduler, max_tasks, no_task, can_run, next_task, switched, yield_from, yield,
}
use os_research_lab.Tasks.Laws.{behind, Idle, next_task_lem}

-- The scheduler after `n` yields, the first of which saves the stack pointer `saved 0`.
abbrev pub yields : (ℕ → ℕ) → ℕ → Scheduler → Scheduler
yields saved zero s = s
yields saved (suc n) s = yields (λ (i : ℕ). saved (suc i)) n (yield s (saved 0))

-- Saving the pointer of a task that can run leaves which tasks can run.
can_run-set :
    (tasks : List Task) (p sp q : ℕ)
    → can_run tasks p ≡ true
    → can_run (set tasks p (record (get_or tasks p no_task) { sp = some sp })) q ≡ can_run tasks q
can_run-set tasks p sp q h =
    let v : Task = record (get_or tasks p no_task) { sp = some sp } in
    elim (Bool-cases ((p == q) && ltb p (length tasks))) [
      | inl here ↦
          let same : p ≡ q = ground arith in
          rw (get_or-set tasks p q v no_task, here) (sym (ap (can_run tasks) (sym same) ∙ h))
      | inr other ↦ rw (get_or-set tasks p q v no_task, other) refl
    ]

-- A switch leaves which tasks can run.
can_run-switched :
    (tasks : List Task) (p sp n q : ℕ) → can_run (switched tasks p sp n).tasks q ≡ can_run tasks q
can_run-switched tasks p sp n q = elim (Bool-cases (can_run tasks p)) [
  | inl live ↦ rw live (can_run-set tasks p sp q live)
  | inr dead ↦ rw dead refl
]

-- No place among idle ones can run.
can_run-Idle :
    (tasks : List Task) (p k d : ℕ)
    → Idle tasks p k
    → d < k
    → can_run tasks (behind p (suc d)) ≡ false
can_run-Idle tasks p zero d idle low = absurd (omega arith)
can_run-Idle tasks p (suc k) d (here, idle) low = elim (Bool-cases (d == k)) [
  | inl same ↦
      let same' : k ≡ d = ground arith in
      ap (λ (i : ℕ). can_run tasks (behind p (suc i))) (sym same') ∙ here
  | inr before ↦ can_run-Idle tasks p k d idle (ground arith)
]

-- A yield that finds a later task switches to it.
yield-next :
    (tasks : List Task) (p sp m : ℕ)
    → next_task tasks p ≡ some m
    → yield (record { tasks = tasks; cur = some p }) sp ≡ switched tasks p sp m
unfolding yield
yield-next tasks p sp m next = ap (yield_from tasks p sp) next

-- The slot `d + 1` places behind the current one runs after at most `d + 1` yields.
yields-behind :
    (saved : ℕ → ℕ) (fuel d p : ℕ) (tasks : List Task)
    → d < fuel
    → suc d < max_tasks
    → p < max_tasks
    → can_run tasks (behind p (suc d)) ≡ true
    → (n : ℕ) × (n ≤ suc d)
      × ((yields saved n (record { tasks = tasks; cur = some p })).cur ≡ some (behind p (suc d)))
yields-behind saved zero d p tasks a b c h = absurd (omega arith)
yields-behind saved (suc fuel) d p tasks a b c h = elim (next_task_lem tasks p c) [
  | inl (stays, idle) ↦ let idle_there = can_run-Idle tasks p 5 d idle (omega arith) in ground arith
  | inr (k, low, next, runs, idle) ↦ elim (Bool-cases (d == k)) [
    | inl same ↦
        let same' : d ≡ k = ground arith in
        (
          1,
          omega arith,
          ap (λ (s : Scheduler). s.cur) (yield-next tasks p (saved 0) (behind p (suc k)) next)
              ∙ ap (λ (i : ℕ). some (behind p (suc i))) (sym same'),
        )
    | inr other ↦ elim (Bool-cases (ltb d k)) [
      | inl less ↦ let idle_there = can_run-Idle tasks p k d idle (ground arith) in ground arith
      | inr more ↦
          let p' = behind p (suc k) in
          let d' = d - suc k in
          let later : k < d = ground arith in
          let there : behind p' (suc d') ≡ behind p (suc d) = omega arith in
          let (n, few, found) =
            yields-behind (λ i. saved (suc i)) fuel d' p' (switched tasks p (saved 0) p').tasks
              (omega arith) (omega arith) (omega arith)
              (can_run-switched tasks p (saved 0) p' (behind p' (suc d'))
                ∙ ap (can_run tasks) there
                ∙ h) in
          (
            suc n,
            omega arith,
            ap (λ (s : Scheduler). (yields (λ i. saved (suc i)) n s).cur)
                  (yield-next tasks p (saved 0) p' next)
                ∙ found
                ∙ ap some there,
          )
    ]
  ]
]

-- While no task is created and none exits, a task that can run is the current one after at most five
-- yields, wherever in the table it stands and whatever stack pointers are saved.
pub yields-runs :
    (saved : ℕ → ℕ) (tasks : List Task) (p q : ℕ)
    → p < max_tasks
    → q < max_tasks
    → can_run tasks q ≡ true
    → (n : ℕ) × (n ≤ 5) × ((yields saved n (record { tasks = tasks; cur = some p })).cur ≡ some q)
yields-runs saved tasks p q a b h = elim (Bool-cases (p == q)) [
  | inl here ↦ let same : p ≡ q = ground arith in (0, omega arith, ap some same)
  | inr away ↦
      let d = (q + 5 - p) % max_tasks in
      let there : q ≡ behind p (suc d) = ground arith in
      let near : suc d < max_tasks = ground arith in
      let (n, few, runs) =
        yields-behind saved 6 d p tasks (omega arith) near a (ap (can_run tasks) (sym there) ∙ h) in
      (n, omega arith, runs ∙ ap some (sym there))
]
