-- ===== src/Cluster/Tasks/Counting.antt =====
-- internal/controller/stroomcluster_controller.go: nodes with active tasks are counted.
use stroom_k8s_operator.Base.{
  String, ◌≡◌, refl, sym, ◌⊎◌, true, false, List, [], ◌∷◌, Bool-cases, inl, inr, arith, string_eq,
}
use stroom_k8s_operator.Base.Int.{ℤ, pos, ltb_ℤ}
use stroom_k8s_operator.Base.Dict.{Dict, insert}
use stroom_k8s_operator.Base.State.{Result, ok, err, Result-cases}
use stroom_k8s_operator.Kube.Env.{SqlValue}
use stroom_k8s_operator.Cluster.Tasks.{collect_tasks, collected, scan_count, record_count}
use stroom_k8s_operator.Cluster.Deletion.{is_empty}

-- A row that reports a node with active tasks.
abbrev pub IsBusyRow : Result (String × ℤ) → Type 0
IsBusyRow (ok counted) = ltb_ℤ (pos 0) counted.1 ≡ true
IsBusyRow (err e) = ⊥

-- Some node has active tasks.
abbrev pub HasTasks : List (List SqlValue) → Type 0
HasTasks [] = ⊥
HasTasks (row ∷ rows) = IsBusyRow (scan_count row) ⊎ HasTasks rows

abbrev pub IsBusy : Result (List (List SqlValue)) → Type 0
IsBusy (ok rows) = HasTasks rows
IsBusy (err e) = Unit

-- A count that is not an empty map.
abbrev pub IsUndrained : Result (Dict String ℤ) → Type 0
IsUndrained (ok tasks) = is_empty tasks ≡ false
IsUndrained (err e) = Unit

insert-is_empty : (k : String) (v : ℤ) (d : Dict String ℤ) → is_empty (insert k v d) ≡ false
unfolding insert
insert-is_empty k v [] = refl
insert-is_empty k v ((j, u) ∷ d) = ground arith

record_count-more :
    (counted : String × ℤ) (d : Dict String ℤ)
    → (ltb_ℤ (pos 0) counted.1 ≡ true) ⊎ (is_empty d ≡ false)
    → is_empty (record_count counted d) ≡ false
record_count-more counted d (inl busy) = rw busy (insert-is_empty counted.0 counted.1 d)
record_count-more counted d (inr more) = elim (Bool-cases (ltb_ℤ (pos 0) counted.1)) [
  | inl busy ↦ rw busy (insert-is_empty counted.0 counted.1 d)
  | inr idle ↦ rw idle more
]

busy_count :
    (r : Result (String × ℤ)) (counted : String × ℤ)
    → IsBusyRow r
    → r ≡ ok counted
    → ltb_ℤ (pos 0) counted.1 ≡ true
busy_count (ok found) counted busy e = let same : found ≡ counted = cc in rw (sym same) busy
busy_count (err x) counted busy e = absurd busy

collect_tasks-more :
    (rows : List (List SqlValue)) (d : Dict String ℤ)
    → HasTasks rows ⊎ (is_empty d ≡ false)
    → IsUndrained (collect_tasks rows d)
unfolding collect_tasks
collect_tasks-more [] d (inl h) = absurd h
collect_tasks-more [] d (inr more) = more
collect_tasks-more (row ∷ rows) d h = elim (Result-cases (scan_count row)) [
  | inr (e, broken) ↦ rw (broken, collect_tasks) tt
  | inl (counted, scanned) ↦
      rw (scanned, collect_tasks)
        (elim h [
          | inl (inl busy) ↦
              collect_tasks-more rows _
                (inr (record_count-more counted d (inl (busy_count _ counted busy scanned))))
          | inl (inr later) ↦ collect_tasks-more rows _ (inl later)
          | inr more ↦ collect_tasks-more rows _ (inr (record_count-more counted d (inr more)))
        ])
]

pub collected-IsUndrained :
    (r : Result (List (List SqlValue))) → IsBusy r → IsUndrained (collected r)
collected-IsUndrained (ok rows) busy = collect_tasks-more rows [] (inl busy)
collected-IsUndrained (err e) busy = tt
