-- ===== src/Edge/TaskReports/Message.antt =====
-- The sums of buildTaskStateMessage (edge_server/src/service/task_service.cpp).
use amr_warehouse_collaborat.Prelude.{
  negsuc, ◌≤ℤ◌, leb_ℤ→≤ℤ, ℤ, pos, pos_part, neg_part, ◌+ℤ◌, int_laws, eqb_ℤ→eq, ◌≡◌, refl, sym, ap,
  subst, String, ◌==◌, true, some, List, [], ◌∷◌, map, filter, All, arith, Bool-cases, Option-cases,
  inl, inr,
}
use amr_warehouse_collaborat.Edge.Types.{TransportTask, TaskGoodsStatus}
use amr_warehouse_collaborat.Edge.Schema.{Tables, StatusRow, status_check}
use amr_warehouse_collaborat.Edge.Sql.{Connection}
use amr_warehouse_collaborat.Edge.Sql.Transactions.{query-All}
use amr_warehouse_collaborat.Edge.TaskStore.{
  get_task, get_task_goods_status, statuses_of, status_of_row, some_rows,
}
use amr_warehouse_collaborat.Edge.TaskStore.Ledger.{
  get_task-SameTables, get_task_goods_status-SameTables,
}
use amr_warehouse_collaborat.Edge.Sql.Transactions.{SameTables}
use amr_warehouse_collaborat.Edge.TaskReports.{
  GoodsItem, goods_item, to_int, state_message, StateMessage, sum_quantities,
  build_task_state_message,
}

-- The quantities are not negative, and the total is the sum of the others.
abbrev AddsUp : TaskGoodsStatus → Type 0
AddsUp s =
    (s.total_quantity ≡ s.in_progress_quantity +ℤ s.completed_quantity +ℤ s.pending_quantity)
    × (pos 0 ≤ℤ s.in_progress_quantity)
    × (pos 0 ≤ℤ s.completed_quantity)
    × (pos 0 ≤ℤ s.pending_quantity)

checked-AddsUp : (r : StatusRow) → status_check r ≡ true → AddsUp (status_of_row r)
unfolding status_check status_of_row
checked-AddsUp r h = (
  eqb_ℤ→eq r.total_quantity (r.in_progress_quantity +ℤ r.completed_quantity +ℤ r.pending_quantity)
      (ground arith),
  leb_ℤ→≤ℤ (pos 0) r.in_progress_quantity (ground arith),
  leb_ℤ→≤ℤ (pos 0) r.completed_quantity (ground arith),
  leb_ℤ→≤ℤ (pos 0) r.pending_quantity (ground arith),
)

statuses-AddsUp :
    (task_id : String) (rows : List StatusRow)
    → All (λ r. status_check r ≡ true) rows
    → All AddsUp (map status_of_row (filter (λ r. r.task_id == task_id) rows))
statuses-AddsUp task_id [] h = tt
statuses-AddsUp task_id (r ∷ rows) h = elim (Bool-cases (r.task_id == task_id)) [
  | inl e ↦ rw e (checked-AddsUp r h.0, statuses-AddsUp task_id rows h.1)
  | inr e ↦ rw e (statuses-AddsUp task_id rows h.1)
]

-- The largest int.
abbrev pub int_max : ℤ
int_max = pos 2147483647

to_int_id : (a : ℤ) → pos 0 ≤ℤ a → a ≤ℤ int_max → to_int a ≡ a
unfolding to_int
to_int_id (pos n) h k = ground arith
to_int_id (negsuc n) h k = absurd (omega (arith, h))

-- The exact sum of the totals of some goods.
unfoldable pub sum_totals : ℤ → List GoodsItem → ℤ
sum_totals acc [] = acc
sum_totals acc (g ∷ rest) = sum_totals (acc +ℤ g.total_quantity) rest

sum_totals-grows :
    (acc : ℤ) (statuses : List TaskGoodsStatus)
    → All AddsUp statuses
    → acc ≤ℤ sum_totals acc (map goods_item statuses)
unfolding sum_totals goods_item
sum_totals-grows acc [] h = omega arith
sum_totals-grows acc (s ∷ rest) h =
    let grows = sum_totals-grows (acc +ℤ s.total_quantity) rest h.1 in
    let (e, a, b, c) = h.0 in omega (int_laws, grows, ap pos_part e, ap neg_part e, a, b, c)

-- Four accumulators that add up keep adding up, as long as the totals add up to an int.
sums-AddUp :
    (statuses : List TaskGoodsStatus) (total in_progress completed pending : ℤ)
    → All AddsUp statuses
    → total ≡ in_progress +ℤ completed +ℤ pending
    → pos 0 ≤ℤ in_progress
    → pos 0 ≤ℤ completed
    → pos 0 ≤ℤ pending
    → sum_totals total (map goods_item statuses) ≤ℤ int_max
    → (sum_quantities (λ s. s.total_quantity) total statuses
        ≡ sum_totals total (map goods_item statuses))
      × (sum_quantities (λ s. s.total_quantity) total statuses
          ≡ sum_quantities (λ s. s.in_progress_quantity) in_progress statuses
            +ℤ sum_quantities (λ s. s.completed_quantity) completed statuses
            +ℤ sum_quantities (λ s. s.pending_quantity) pending statuses)
unfolding sum_quantities sum_totals goods_item
sums-AddUp [] total in_progress completed pending h e a b c fits = (refl, e)
sums-AddUp (s ∷ rest) total in_progress completed pending h e a b c fits =
    let (f, sa, sb, sc) = h.0 in
    let grows = sum_totals-grows (total +ℤ s.total_quantity) rest h.1 in
    let t' = total +ℤ s.total_quantity in
    let a' = in_progress +ℤ s.in_progress_quantity in
    let b' = completed +ℤ s.completed_quantity in
    let c' = pending +ℤ s.pending_quantity in
    let adds : t' ≡ a' +ℤ b' +ℤ c' =
      omega (int_laws, ap pos_part e, ap neg_part e, ap pos_part f, ap neg_part f) in
    let a₀ : pos 0 ≤ℤ a' = omega (int_laws, a, sa) in
    let b₀ : pos 0 ≤ℤ b' = omega (int_laws, b, sb) in
    let c₀ : pos 0 ≤ℤ c' = omega (int_laws, c, sc) in
    let small : t' ≤ℤ int_max = omega (int_laws, grows, fits) in
    let at = ap pos_part adds in
    let an = ap neg_part adds in
    rw
      (
        to_int_id t' (omega (int_laws, at, an, a₀, b₀, c₀)) small,
        to_int_id a' a₀ (omega (int_laws, at, an, small, b₀, c₀)),
        to_int_id b' b₀ (omega (int_laws, at, an, small, a₀, c₀)),
        to_int_id c' c₀ (omega (int_laws, at, an, small, a₀, b₀)),
      )
      (sums-AddUp rest t' a' b' c' h.1 adds a₀ b₀ c₀ fits)

statuses_read :
    (task_id : String) (c : Connection Tables) (statuses : List TaskGoodsStatus)
    → All (λ r. status_check r ≡ true) c.tables.statuses
    → (get_task_goods_status task_id c).0 ≡ some statuses
    → All AddsUp statuses
unfolding get_task_goods_status some_rows statuses_of
statuses_read task_id c statuses h e =
    query-All AddsUp (statuses_of task_id) c statuses (statuses-AddsUp task_id c.tables.statuses h)
      (ground arith)

message_sums :
    (task : TransportTask) (statuses : List TaskGoodsStatus)
    → All AddsUp statuses
    → sum_totals (pos 0) (state_message task statuses).goods_status ≤ℤ int_max
    → let m = state_message task statuses in
      (m.total_quantity ≡ sum_totals (pos 0) m.goods_status)
      × (m.total_quantity ≡ m.in_progress_quantity +ℤ m.completed_quantity +ℤ m.pending_quantity)
unfolding state_message
message_sums task statuses h fits =
    sums-AddUp statuses (pos 0) (pos 0) (pos 0) (pos 0) h (unfold ◌+ℤ◌ in refl) (omega arith)
      (omega arith) (omega arith) fits

-- The message that buildTaskStateMessage builds from tables within their CHECKs, whichever calls of
-- prepare and step fail on the way and however many rows were read, has a total that is the sum of
-- the totals of its goods, and also of its quantities in progress, completed and pending, when the
-- totals of its goods add up to at most the largest int of 32 bits.
pub build_task_state_message_adds_up :
    (task_id : String) (c : Connection Tables) (m : StateMessage)
    → All (λ r. status_check r ≡ true) c.tables.statuses
    → (build_task_state_message task_id c).0 ≡ some m
    → sum_totals (pos 0) m.goods_status ≤ℤ int_max
    → (m.total_quantity ≡ sum_totals (pos 0) m.goods_status)
      × (m.total_quantity ≡ m.in_progress_quantity +ℤ m.completed_quantity +ℤ m.pending_quantity)
unfolding build_task_state_message
build_task_state_message_adds_up task_id c m h e fits = elim (Option-cases (get_task task_id c).0) [
  | inl n ↦ absurd (ground arith)
  | inr (task, n) ↦
      let d = (get_task task_id c).1 in
      let checked =
        subst (λ (t : Tables). All (λ r. status_check r ≡ true) t.statuses)
          (sym (get_task-SameTables task_id c).tables) h in
      elim (Option-cases (get_task_goods_status task_id d).0) [
        | inl k ↦ absurd (ground arith)
        | inr (statuses, k) ↦
            let built : state_message task statuses ≡ m = ground (arith, e, n, k) in
            subst
              (λ (x : StateMessage).
                (x.total_quantity ≡ sum_totals (pos 0) x.goods_status)
                × (x.total_quantity
                    ≡ x.in_progress_quantity +ℤ x.completed_quantity +ℤ x.pending_quantity))
              built
              (message_sums task statuses (statuses_read task_id d statuses checked k) (
                subst (λ (x : StateMessage). sum_totals (pos 0) x.goods_status ≤ℤ int_max)
                  (sym built) fits))
      ]
]

-- Building the message only reads.
pub build_task_state_message-SameTables :
    (task_id : String) (c : Connection Tables) → SameTables c (build_task_state_message task_id c).1
unfolding build_task_state_message
build_task_state_message-SameTables task_id c = ground (
  arith,
  get_task-SameTables task_id c,
  get_task_goods_status-SameTables task_id (get_task task_id c).1,
)
