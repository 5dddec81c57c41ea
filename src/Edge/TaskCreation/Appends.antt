-- ===== src/Edge/TaskCreation/Appends.antt =====
-- The rows that CreateTask adds (edge_server/src/database/sqlite_db.cpp).
use mathlib.Core.List.{append-nil, append_assoc}
use amr_warehouse_collaborat.Prelude.{
  String, refl, All, ◌≡◌, ap, sym, ◌∙◌, some, List, [], ◌∷◌, ◌++◌, arith, Option-cases, inl, inr,
}
use amr_warehouse_collaborat.Edge.Types.{TaskGoods, TransportTask}
use amr_warehouse_collaborat.Edge.Schema.{Tables, StatusRow}
use amr_warehouse_collaborat.Edge.Sql.{done}
use amr_warehouse_collaborat.Edge.TaskCreation.{
  insert_task, insert_goods, new_status, insert_status, goods_tables, create_tables,
}
use amr_warehouse_collaborat.Edge.TaskCreation.Balance.{
  insert_task-inv, insert_goods-inv, insert_status-inv, insert_task_event-inv,
}

-- Rows of quantities of the task were added, and allocations are as before.
pub record AddsStatuses (task_id : String) (t t' : Tables) : Type 0 where
  pub added : List StatusRow
  pub of_task : All (λ r. r.task_id ≡ task_id) added
  pub statuses : t'.statuses ≡ t.statuses ++ added
  pub allocations : t'.allocations ≡ t.allocations

goods_tables-AddsStatuses :
    (task : TransportTask) (goods : List TaskGoods) (t t' : Tables)
    → goods_tables task goods t ≡ some t'
    → AddsStatuses task.task_id t t'
unfolding goods_tables new_status
goods_tables-AddsStatuses task [] t t' h =
    let (ledger, tasks) = insert_task_event-inv _ _ _ _ _ t t' h in
    record {
      added = [];
      of_task = tt;
      statuses = ledger.0 ∙ sym (append-nil t.statuses);
      allocations = ledger.1;
    }
goods_tables-AddsStatuses task (g ∷ rest) t t' h =
    elim (Option-cases (done (insert_goods task.task_id g) t)) [
      | inl e ↦ absurd (ground arith)
      | inr (u, e) ↦ elim (Option-cases (done (insert_status task.task_id task.updated_at g) u)) [
        | inl m ↦ absurd (ground arith)
        | inr (v, m) ↦
            let later = goods_tables-AddsStatuses task rest v t' (ground arith) in
            let (rows, allocs, ok, new) = insert_status-inv task.task_id task.updated_at g u v m in
            let same = insert_goods-inv task.task_id g t u e in
            let fresh = new_status task.task_id task.updated_at g in
            record {
              added = fresh ∷ later.added;
              of_task = (refl, later.of_task);
              statuses =
                  later.statuses
                  ∙ ap (λ l. l ++ later.added) (rows ∙ ap (λ l. l ++ fresh ∷ []) same.0)
                  ∙ append_assoc t.statuses (fresh ∷ []) later.added;
              allocations = later.allocations ∙ allocs ∙ same.1;
            }
      ]
    ]

pub create_tables-AddsStatuses :
    (task : TransportTask) (t t' : Tables)
    → create_tables task t ≡ some t'
    → AddsStatuses task.task_id t t'
create_tables-AddsStatuses task t t' h = elim (Option-cases (done (insert_task task) t)) [
  | inl e ↦ absurd (ground arith)
  | inr (u, e) ↦
      let same = insert_task-inv task t u e in
      let later = goods_tables-AddsStatuses task task.goods u t' (ground arith) in
      record {
        added = later.added;
        of_task = later.of_task;
        statuses = later.statuses ∙ ap (λ l. l ++ later.added) same.0;
        allocations = later.allocations ∙ same.1;
      }
]
