-- ===== src/Amr/Behavior/Promises.antt =====
-- What the task events of a robot promise to the edge server, after every history of callbacks
-- (robot_ws/src/amr_behavior_manager/src/amr_behavior_manager_node.cpp).
use amr_warehouse_collaborat.Prelude.{
  ℕ, ℤ, pos, leb_ℤ, ◌≤ℤ◌, ◌==◌, is_blank, Bool, true, false, ◌||◌, ◌≡◌, refl, List, [], ◌∷◌, All,
  arith, if◌then◌else◌,
}
use amr_warehouse_collaborat.Amr.Messages.{TaskGoods, TaskEvent}
use amr_warehouse_collaborat.Amr.Behavior.State.{
  Doubles, Parameters, Output, task_event, robot_status, component_status, send_goal, cancel_goal,
  event_of,
}
use amr_warehouse_collaborat.Amr.Behavior.Requests.{make_goods, min_ℤ}
use amr_warehouse_collaborat.Amr.Behavior.Callbacks.{Event, run_node}
use amr_warehouse_collaborat.Amr.Behavior.Events.{Emitted, IsPublic}
use amr_warehouse_collaborat.Amr.Behavior.Events.Histories.{run_node-Emits}

-- The task events among the outputs that pass a test.
abbrev pub events_where : {R : Type 0} → (TaskEvent → Bool) → List (Output R) → List TaskEvent
events_where test [] = []
events_where test (task_event e ∷ rest) =
    let others = events_where test rest in if test e then e ∷ others else others
events_where test (robot_status s ∷ rest) = events_where test rest
events_where test (component_status s ∷ rest) = events_where test rest
events_where test (send_goal goal ∷ rest) = events_where test rest
events_where test (cancel_goal ∷ rest) = events_where test rest

abbrev pub is_request : TaskEvent → Bool
is_request e = e.event_type == "GOODS_REQUEST"

abbrev pub is_carry_event : TaskEvent → Bool
is_carry_event e = e.event_type == "CARRY_COMPLETED" || e.event_type == "CARRY_ABORTED"

abbrev When : Bool → Type 0 → Type 0
When true T = T
When false T = Unit

module _ {R : Type 0} (test : TaskEvent → Bool) (Q : TaskEvent → Type 0) where
  All-events_where :
      (outputs : List (Output R))
      → All (Emitted (λ e. When (test e) (Q e))) outputs
      → All Q (events_where test outputs)
  All-events_where [] h = tt
  All-events_where (task_event e ∷ rest) (h, k) = passing (test e) h (All-events_where rest k)
    where
      passing :
          (b : Bool)
          → When b (Q e)
          → All Q (events_where test rest)
          → All Q (if b then e ∷ events_where test rest else events_where test rest)
      passing true q others = (q, others)
      passing false q others = others
  All-events_where (robot_status s ∷ rest) (h, k) = All-events_where rest k
  All-events_where (component_status s ∷ rest) (h, k) = All-events_where rest k
  All-events_where (send_goal goal ∷ rest) (h, k) = All-events_where rest k
  All-events_where (cancel_goal ∷ rest) (h, k) = All-events_where rest k

-- A request of a task, for one kind of goods, of which the robot can carry the quantity.
abbrev pub IsBounded : Parameters → TaskEvent → Type 0
IsBounded p e =
    (is_blank e.task_id ≡ false)
    × (g : TaskGoods) × (e.goods ≡ g ∷ [])
    × (pos 1 ≤ℤ g.total_quantity)
    × (g.total_quantity ≤ℤ p.carry_capacity)

min_ℤ_bounds :
    (a b : ℤ)
    → leb_ℤ a (pos 0) ≡ false
    → leb_ℤ b (pos 0) ≡ false
    → (pos 1 ≤ℤ min_ℤ a b) × (min_ℤ a b ≤ℤ b)
min_ℤ_bounds a b h k = (ground arith, ground arith)

requests-IsPublic :
    {R : Type 0} (p : Parameters) → IsPublic R p (λ e. When (is_request e) (IsBounded p e))
unfolding event_of make_goods
requests-IsPublic p = record {
  status = λ now state goods n. tt;
  assigned = λ now n. tt;
  given_up = λ now goods reason n. tt;
  carried = λ now goods n. tt;
  asked = λ now s request_id n named pending able.
      let bounds = min_ℤ_bounds s.pending_quantity p.carry_capacity pending able in
      (
        named,
        make_goods s.goods_id s.goods_name (min_ℤ s.pending_quantity p.carry_capacity),
        refl,
        bounds.0,
        bounds.1,
      );
}

-- A carry event without a request id.
abbrev pub IsUnnamed : TaskEvent → Type 0
IsUnnamed e = (is_carry_event e ≡ true) × (is_request e ≡ false) × (e.request_id ≡ "")

carries-IsPublic :
    {R : Type 0} (p : Parameters) → IsPublic R p (λ e. When (is_carry_event e) (IsUnnamed e))
unfolding event_of
carries-IsPublic p = record {
  status = λ now state goods n. tt;
  assigned = λ now n. tt;
  given_up = λ now goods reason n. (refl, refl, refl);
  carried = λ now goods n. (refl, refl, refl);
  asked = λ now s request_id n named pending able. tt;
}

module _ {R : Type 0} (d : Doubles R) (p : Parameters) (events : List (ℕ × Event R)) where
  -- Every GOODS_REQUEST that the behaviour manager publishes in any history of callbacks names a
  -- task, and asks for one kind of goods, in a quantity of at least one and at most the carry
  -- capacity.
  pub requests-IsBounded : All (IsBounded p) (events_where is_request (run_node d p events).outputs)
  requests-IsBounded =
      All-events_where is_request (IsBounded p) (run_node d p events).outputs
        (run_node-Emits p (λ e. When (is_request e) (IsBounded p e)) (requests-IsPublic p) d events)

  pub carries-IsUnnamed : All IsUnnamed (events_where is_carry_event (run_node d p events).outputs)
  carries-IsUnnamed =
      All-events_where is_carry_event IsUnnamed (run_node d p events).outputs (
        run_node-Emits p (λ e. When (is_carry_event e) (IsUnnamed e)) (carries-IsPublic p) d events)
