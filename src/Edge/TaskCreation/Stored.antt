-- ===== src/Edge/TaskCreation/Stored.antt =====
-- What CreateTask leaves in tbl_task, tbl_task_goods and tbl_task_goods_status.
use amr_warehouse_collaborat.Prelude.{
  ◌≡◌, ◌∙◌, String, ◌==◌, eq_refl, true, false, some, List, [], ◌∷◌, ◌++◌, any, find, arith,
  Option-cases, inl, inr,
}
use amr_warehouse_collaborat.Edge.Types.{TaskGoods, TransportTask}
use amr_warehouse_collaborat.Edge.Rows.{insert_row}
use amr_warehouse_collaborat.Edge.Rows.Laws.{find-append_none}
use amr_warehouse_collaborat.Edge.Schema.{Tables, TaskRow, task_check, task_clash}
use amr_warehouse_collaborat.Edge.Sql.{done}
use amr_warehouse_collaborat.Edge.TaskCreation.{
  task_row, insert_task, insert_goods, insert_status, insert_task_event, goods_tables,
  create_tables,
}

insert_task-inv :
    (task : TransportTask) (t t' : Tables)
    → done (insert_task task) t ≡ some t'
    → (t'.tasks ≡ t.tasks ++ task_row task ∷ [])
      × (task_check (task_row task) ≡ true)
      × (any (task_clash (task_row task)) t.tasks ≡ false)
unfolding done insert_task insert_row
insert_task-inv task t t' h = ground arith

insert_goods-tasks :
    (task_id : String) (g : TaskGoods) (t t' : Tables)
    → done (insert_goods task_id g) t ≡ some t'
    → t'.tasks ≡ t.tasks
unfolding done insert_goods insert_row
insert_goods-tasks task_id g t t' h = ground arith

insert_status-tasks :
    (task_id now : String) (g : TaskGoods) (t t' : Tables)
    → done (insert_status task_id now g) t ≡ some t'
    → t'.tasks ≡ t.tasks
unfolding done insert_status insert_row
insert_status-tasks task_id now g t t' h = ground arith

insert_task_event-tasks :
    (task_id state reason source timestamp : String) (t t' : Tables)
    → done (insert_task_event task_id state reason source timestamp) t ≡ some t'
    → t'.tasks ≡ t.tasks
unfolding done insert_task_event
insert_task_event-tasks task_id state reason source timestamp t t' h = ground arith

goods_tables-tasks :
    (task : TransportTask) (goods : List TaskGoods) (t t' : Tables)
    → goods_tables task goods t ≡ some t'
    → t'.tasks ≡ t.tasks
unfolding goods_tables
goods_tables-tasks task [] t t' h = insert_task_event-tasks _ _ _ _ _ t t' h
goods_tables-tasks task (g ∷ rest) t t' h =
    elim (Option-cases (done (insert_goods task.task_id g) t)) [
      | inl e ↦ absurd (ground arith)
      | inr (u, e) ↦ elim (Option-cases (done (insert_status task.task_id task.updated_at g) u)) [
        | inl m ↦ absurd (ground arith)
        | inr (v, m) ↦
            goods_tables-tasks task rest v t' (ground arith)
            ∙ insert_status-tasks task.task_id task.updated_at g u v m
            ∙ insert_goods-tasks task.task_id g t u e
      ]
    ]

-- The row of a task that was created, and that there was none before.
pub create_tables-tasks :
    (task : TransportTask) (t t' : Tables)
    → create_tables task t ≡ some t'
    → (t'.tasks ≡ t.tasks ++ task_row task ∷ [])
      × (any (task_clash (task_row task)) t.tasks ≡ false)
create_tables-tasks task t t' h = elim (Option-cases (done (insert_task task) t)) [
  | inl e ↦ absurd (ground arith)
  | inr (u, e) ↦ ground (arith, insert_task-inv task t u e, goods_tables-tasks task task.goods u t')
]

pub find-created :
    (task : TransportTask) (rows : List TaskRow)
    → any (task_clash (task_row task)) rows ≡ false
    → find (λ r. r.task_id == task.task_id) (rows ++ task_row task ∷ []) ≡ some (task_row task)
unfolding task_clash task_row
find-created task rows h =
    find-append_none (λ r. r.task_id == task.task_id) rows (task_row task) h (eq_refl task.task_id)
