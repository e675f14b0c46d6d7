-- ===== src/Scheduling/Keys.antt =====
-- The keys of `minTaskMember`, as the loops of BuildPodGroup write them.
use fusioninfer.Prelude.{ℕ, zero, suc, ◌+◌, ◌≤◌, ◌<◌, ◌≡◌, ◌≢◌, ◌∙◌, refl, arith, String, some}
use fusioninfer.Prelude.Int.{ℤ, pos}
use fusioninfer.Prelude.Dict.{Dict, lookup, lookup-insert_ne, lookup-insert_self}
use fusioninfer.Prelude.Decimal.{dashed-decimal_inj}
use native.Mathlib.Decide.{dec_lt}
use fusioninfer.Scheduling.{generate_task_name}
use fusioninfer.Scheduling.Build.{add_tasks}

-- A task name determines the role and the replica.
pub generate_task_name_inj :
    (r r' : String) (i j : ℕ)
    → generate_task_name r (pos i) ≡ generate_task_name r' (pos j)
    → (r ≡ r') × (i ≡ j)
unfolding generate_task_name
generate_task_name_inj r r' i j e = dashed-decimal_inj r r' i j e

module _ (name : String) (nodes : ℤ) where
  -- The loop writes the keys of its role from `i` on, and no other.
  pub lookup-add_tasks_other :
      (key : String) (k i : ℕ) (m : ℤ) (d : Dict ℤ)
      → ((j : ℕ) → i ≤ j → key ≢ generate_task_name name (pos j))
      → lookup key (add_tasks name nodes k i m d).1 ≡ lookup key d
  unfolding add_tasks
  lookup-add_tasks_other key zero i m d h = refl
  lookup-add_tasks_other key (suc k) i m d h =
      lookup-add_tasks_other key k (suc i) _ _ (λ j lt. h j (omega arith))
      ∙ lookup-insert_ne key (generate_task_name name (pos i)) nodes d (h i (omega arith))

  earlier-ne : (i j : ℕ) → i < j → generate_task_name name (pos i) ≢ generate_task_name name (pos j)
  earlier-ne i j lt e = absurd (omega (arith, (generate_task_name_inj name name i j e).1))

  pub lookup-add_tasks_self :
      (k i j : ℕ) (m : ℤ) (d : Dict ℤ)
      → i ≤ j
      → j < i + k
      → lookup (generate_task_name name (pos j)) (add_tasks name nodes k i m d).1 ≡ some nodes
  unfolding add_tasks
  lookup-add_tasks_self zero i j m d lo hi = absurd (omega arith)
  lookup-add_tasks_self (suc k) i j m d lo hi = elim (dec_lt i j) [
    | yes later ↦ lookup-add_tasks_self k (suc i) j _ _ later (omega arith)
    | no now ↦
        let now_eq : j ≡ i = omega arith in
        rw now_eq (
          lookup-add_tasks_other (generate_task_name name (pos i)) k (suc i) _ _ (earlier-ne i)
          ∙ lookup-insert_self (generate_task_name name (pos i)) nodes d)
  ]
