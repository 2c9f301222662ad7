-- ===== src/Ipc/Connection/Budget.antt =====
-- The permits of ipc/connection.rs that `accept` takes and gives back.
use omarchy_harbormaster.Common.{
  ℕ, ◌+◌, ◌-◌, ◌<◌, ◌≡◌, ◌⊎◌, refl, ap, sym, ◌∙◌, subst, Result, ok, err, arith, leb, Bool-cases,
  inl, inr,
}
use omarchy_harbormaster.Ipc.{IpcError}
use omarchy_harbormaster.Ipc.Connection.{
  Connection, ConnectionBudget, acquire, release, accept, accept_with, accepted,
}

-- A permit that is taken and dropped leaves the budget as it was.
release-acquire :
    (budget : ConnectionBudget) → release (record budget { active = budget.active + 1 }) ≡ budget
unfolding release
release-acquire budget =
    ap (λ (n : ℕ). record budget { active = n }) {x = budget.active + 1 - 1} {y = budget.active}
      (omega arith)

-- Whether there is a permit.
acquire-cases :
    (budget : ConnectionBudget)
    → ((budget.active < budget.limit)
        × (acquire budget ≡ (ok tt, record budget { active = budget.active + 1 })))
      ⊎ (acquire budget ≡ (err IpcError.resource_exhausted, budget))
unfolding acquire
acquire-cases budget = elim (Bool-cases (leb budget.limit budget.active)) [
  | inl full ↦ inr (ground (arith, full))
  | inr room ↦ inl (ground (arith, room), ground (arith, room))
]

-- What `accept` can come to.
abbrev Accepts :
    ℕ
    → ℕ
    → ConnectionBudget
    → ConnectionBudget
    → Result IpcError Connection × ConnectionBudget × ConnectionBudget
    → Type 0
Accepts now deadline budget manager out =
    ((budget.active < budget.limit)
      × (manager.active < manager.limit)
      × (out ≡ (
        ok (accepted now deadline),
        record budget { active = budget.active + 1 },
        record manager { active = manager.active + 1 },
      )))
    ⊎ ((e : IpcError) × (out ≡ (err e, budget, manager)))

accept_with-Accepts :
    (now deadline : ℕ) (setup : Result IpcError (Unit {0})) (budget manager : ConnectionBudget)
    → budget.active < budget.limit
    → manager.active < manager.limit
    → Accepts now deadline budget manager (
        accept_with now deadline setup manager
          (ok tt, record budget { active = budget.active + 1 })
          (ok tt, record manager { active = manager.active + 1 }))
unfolding accept_with
accept_with-Accepts now deadline (ok _) budget manager room manager_room =
    inl (room, manager_room, refl)
accept_with-Accepts now deadline (err e) budget manager room manager_room =
    inr (e, λ i. (err e, release-acquire budget i, release-acquire manager i))

-- Accepting takes one permit of each budget, both of which had room; a failure of any kind takes
-- none.
pub accept_exact :
    (now deadline : ℕ) (setup : Result IpcError (Unit {0})) (budget manager : ConnectionBudget)
    → Accepts now deadline budget manager (accept now deadline setup budget manager)
unfolding accept accept_with
accept_exact now deadline setup budget manager = elim (acquire-cases budget) [
  | inr full ↦ inr (
    IpcError.resource_exhausted,
    ap (λ a. accept_with now deadline setup manager a (acquire manager)) full,
  )
  | inl (room, taken) ↦ elim (acquire-cases manager) [
    | inr full ↦ inr (
      IpcError.resource_exhausted,
      (λ i. accept_with now deadline setup manager (taken i) (full i))
          ∙ ap (λ (b : ConnectionBudget). (err IpcError.resource_exhausted, b, manager))
              (release-acquire budget),
    )
    | inl (manager_room, manager_taken) ↦
        subst (Accepts now deadline budget manager)
          (sym (λ i. accept_with now deadline setup manager (taken i) (manager_taken i)))
          (accept_with-Accepts now deadline setup budget manager room manager_room)
  ]
]
