-- ===== src/Amr/Behavior/Events.antt =====
-- What a history of callbacks may publish
-- (robot_ws/src/amr_behavior_manager/src/amr_behavior_manager_node.cpp): a property of task events
-- that holds at each place where the code publishes holds of all that was published.
pub mod Histories
use amr_warehouse_collaborat.Prelude.{
  ℕ, pos, leb_ℤ, String, ◌==◌, is_blank, Bool, true, false, not, ◌&&◌, ◌||◌, ◌≡◌, refl, Option,
  none, some, List, [], ◌∷◌, ◌++◌, All, All-append, arith, if◌then◌else◌, Bool-cases, inl, inr,
}
use amr_warehouse_collaborat.Amr.Messages.{TaskGoods, TaskGoodsStatus, TaskCommand, TaskEvent}
use amr_warehouse_collaborat.Amr.Behavior.State.{
  Doubles, Parameters, GoalStatus, NavigationClient, Output, task_event, robot_status,
  component_status, send_goal, cancel_goal, OneShot, grasped, placed, Node, event_of, put,
  publish_task_event, reset_task, make_request_id,
}
use amr_warehouse_collaborat.Amr.Behavior.Requests.{
  make_goods, min_ℤ, first_pending, request_goods, request_pending, may_request,
  maybe_request_next_goods,
}

-- A property of both branches.
pub if_rule {ℓ κ} :
    {A : Type ℓ} (Q : A → Type κ) (b : Bool) {x y : A}
    → (b ≡ true → Q x)
    → (b ≡ false → Q y)
    → Q (if b then x else y)
if_rule Q true f g = f refl
if_rule Q false f g = g refl

module _ {R : Type 0} where
  abbrev pub Emitted : (TaskEvent → Type 0) → Output R → Type 0
  Emitted P (task_event e) = P e
  Emitted P (robot_status s) = Unit
  Emitted P (component_status s) = Unit
  Emitted P (send_goal goal) = Unit
  Emitted P cancel_goal = Unit

  abbrev pub Emits : (TaskEvent → Type 0) → Node R → Type 0
  Emits P n = All (Emitted P) n.outputs

-- The places where the node publishes an event, with what is known there.
pub record IsPublic (R : Type 0) (p : Parameters) (P : TaskEvent → Type 0) : Type 0 where
  pub status :
      (now : ℕ) (state : String) (goods : List TaskGoods) (n : Node R)
      → P (event_of now "STATUS" state goods "" "" n)
  pub assigned : (now : ℕ) (n : Node R) → P (event_of now "TASK_ACCEPTED" "ACCEPTED" [] "" "" n)
  pub given_up :
      (now : ℕ) (goods : List TaskGoods) (reason : String) (n : Node R)
      → P (event_of now "CARRY_ABORTED" "INTERRUPTED" goods "" reason n)
  pub carried :
      (now : ℕ) (goods : List TaskGoods) (n : Node R)
      → P (event_of now "CARRY_COMPLETED" "TRANSPORTING" goods "" "" n)
  pub asked :
      (now : ℕ) (s : TaskGoodsStatus) (request_id : String) (n : Node R)
      → is_blank n.current_task_id ≡ false
      → leb_ℤ s.pending_quantity (pos 0) ≡ false
      → leb_ℤ p.carry_capacity (pos 0) ≡ false
      → P (
          event_of now "GOODS_REQUEST" "ACCEPTED"
            (make_goods s.goods_id s.goods_name (min_ℤ s.pending_quantity p.carry_capacity) ∷ [])
            request_id
            ""
            n)

module _ {R : Type 0} (p : Parameters) (P : TaskEvent → Type 0) (k : IsPublic R p P) where
  pub put-Emits : (o : Output R) (n : Node R) → Emitted P o → Emits P n → Emits P (put o n)
  unfolding put
  put-Emits o n h v = All-append (Emitted P) n.outputs (o ∷ []) v (h, tt)

  pub publish-Emits :
      (now : ℕ) (event_type state : String) (goods : List TaskGoods) (request_id reason : String)
      (n : Node R)
      → P (event_of now event_type state goods request_id reason n)
      → Emits P n
      → Emits P (publish_task_event now event_type state goods request_id reason n)
  unfolding publish_task_event
  publish-Emits now event_type state goods request_id reason n h v =
      put-Emits (task_event (event_of now event_type state goods request_id reason n)) n h v

  first_pending_lem :
      (all : List TaskGoodsStatus) (s : TaskGoodsStatus)
      → first_pending all ≡ some s
      → leb_ℤ s.pending_quantity (pos 0) ≡ false
  unfolding first_pending
  first_pending_lem [] s h = cc
  first_pending_lem (x ∷ rest) s h = ground (arith, first_pending_lem rest s)

  request_goods-Emits :
      (now : ℕ) (s : TaskGoodsStatus) (n : Node R)
      → is_blank n.current_task_id ≡ false
      → leb_ℤ s.pending_quantity (pos 0) ≡ false
      → leb_ℤ p.carry_capacity (pos 0) ≡ false
      → Emits P n
      → Emits P (request_goods now p.carry_capacity s n)
  unfolding request_goods
  request_goods-Emits now s n named pending able v =
      let m = record n { request_id = make_request_id now n } in
      publish-Emits now "GOODS_REQUEST" "ACCEPTED"
        (make_goods s.goods_id s.goods_name (min_ℤ s.pending_quantity p.carry_capacity) ∷ [])
        (make_request_id now n) "" m (k.asked now s (make_request_id now n) m named pending able) v

  request_pending-Emits :
      (now : ℕ) (n : Node R) (o : Option TaskGoodsStatus)
      → ((s : TaskGoodsStatus) → o ≡ some s → leb_ℤ s.pending_quantity (pos 0) ≡ false)
      → is_blank n.current_task_id ≡ false
      → leb_ℤ p.carry_capacity (pos 0) ≡ false
      → Emits P n
      → Emits P (request_pending now p.carry_capacity o n)
  unfolding request_pending
  request_pending-Emits now n none first named able v = v
  request_pending-Emits now n (some s) first named able v =
      request_goods-Emits now s n named (first s refl) able v

  may_request-named : (n : Node R) → may_request n ≡ true → is_blank n.current_task_id ≡ false
  unfolding may_request
  may_request-named n h = ground arith

  pub maybe_request-Emits :
      (now : ℕ) (n : Node R) → Emits P n → Emits P (maybe_request_next_goods p now n)
  unfolding maybe_request_next_goods
  maybe_request-Emits now n v =
      if_rule (Emits P) (may_request n)
        (λ may.
          if_rule (Emits P) (leb_ℤ p.carry_capacity (pos 0)) (λ e. v)
            (λ able.
              request_pending-Emits now n (first_pending n.goods_status)
                (first_pending_lem n.goods_status) (may_request-named n may) able v))
        (λ e. v)
