-- ===== src/Amr/Navigation/Server/EndedOnce.antt =====
-- Every goal of the navigation server ends at most once (`execute` of
-- robot_ws/src/amr_navigation/src/navigation_server.cpp).
use amr_warehouse_collaborat.Prelude.{
  ℕ, zero, suc, ◌+◌, ◌<◌, Bool, true, false, eqb, is_blank, ◌≡◌, refl, ap, ◌∙◌, Option, none, some,
  List, [], ◌∷◌, ◌++◌, length, filter, get_elem?, arith, if◌then◌else◌,
}
use amr_warehouse_collaborat.Amr.Behavior.State.{Doubles, GoalPose}
use amr_warehouse_collaborat.Amr.Navigation.Manager.{
  NavigationExecutionState, NavigationResponse, navigate_to_pose,
}
use amr_warehouse_collaborat.Amr.Navigation.State.{
  Ending, succeeds, cancels, aborts, NavigationServer,
}
use amr_warehouse_collaborat.Amr.Navigation.Process.{NodeOptions, publish_component_status}
use amr_warehouse_collaborat.Amr.Navigation.Goals.{
  Point, starting, waiting_for_old, registering, waiting, finished, Execution, ending_of, feed_back,
  on_navigation_feedback, handle_cancel, end_goal, after_response, start_execution, retry_execution,
  finish_execution, execute, announcing, crashed, finish_goal, activate_goal, announce_goal,
  store_result, begin_result, answer_arrives, end_arrives,
}
use amr_warehouse_collaborat.Amr.Navigation.Server.{
  System, new_system, Event, goal_requested, thread_runs, cancel_requested, nav2_answers, nav2_ends,
  nav2_feeds_back, nav2_event, pose_timer, accept_goal, run_thread, take, step, run, result_stored,
}
use amr_warehouse_collaborat.Amr.Navigation.Server.Separate.{step-goal_part}

unfoldable pub ended : Point → ℕ
ended starting = 0
ended waiting_for_old = 0
ended registering = 0
ended announcing = 0
ended waiting = 0
ended finished = 1
ended crashed = 0

-- How often the goal has ended.
abbrev pub endings_of : ℕ → List (ℕ × Ending) → ℕ
endings_of goal endings = length (filter (λ e. eqb e.0 goal) endings)

endings_of-append :
    (j goal : ℕ) (ending : Ending) (es : List (ℕ × Ending))
    → endings_of j (es ++ (goal, ending) ∷ []) ≡ endings_of j es + (if eqb goal j then 1 else 0)
endings_of-append j goal ending [] = ground arith
endings_of-append j goal ending ((g, e) ∷ es) = ground (arith, endings_of-append j goal ending es)

module _ {R : Type 0} where
  unfoldable pub ended_at : Option (Execution R) → ℕ
  unfolding ended
  ended_at none = 0
  ended_at (some x) = ended x.point

  -- The endings of the j-th goal that the threads stand for; the first thread is that of `goal`.
  unfoldable tally : ℕ → ℕ → List (Execution R) → ℕ
  unfolding ended
  tally j goal [] = 0
  tally j goal (x ∷ xs) = (if eqb goal j then ended x.point else 0) + tally j (suc goal) xs

  tally_low : (j goal : ℕ) (xs : List (Execution R)) → j < goal → tally j goal xs ≡ 0
  unfolding tally
  tally_low j goal [] h = refl
  tally_low j goal (x ∷ xs) h = ground (arith, tally_low j (suc goal) xs)

  tally-get_elem? :
      (k j goal : ℕ) (xs : List (Execution R))
      → j ≡ goal + k
      → tally j goal xs ≡ ended_at (get_elem? xs k)
  unfolding tally ended_at
  tally-get_elem? k j goal [] h = refl
  tally-get_elem? zero j goal (x ∷ xs) h = ground (arith, tally_low j (suc goal) xs)
  tally-get_elem? (suc k) j goal (x ∷ xs) h = ground (arith, tally-get_elem? k j (suc goal) xs)

  tally-append :
      (j goal : ℕ) (xs : List (Execution R)) (x : Execution R)
      → ended x.point ≡ 0
      → tally j goal (xs ++ x ∷ []) ≡ tally j goal xs
  unfolding tally
  tally-append j goal [] x h = ground arith
  tally-append j goal (y ∷ xs) x h = ground (arith, tally-append j (suc goal) xs x h)

module _ {R H : Type 0} where
  -- A step of the thread of the goal adds an ending of the goal exactly when it finishes.
  abbrev IsCounted : ℕ → ℕ → Point → NavigationServer R H → Point × NavigationServer R H → Type 0
  IsCounted j goal point s after =
      endings_of j after.1.endings + (if eqb goal j then ended point else 0)
      ≡ endings_of j s.endings + (if eqb goal j then ended after.0 else 0)

  end_goal-IsCounted :
      (j goal : ℕ) (ending : Ending) (point : Point) (s : NavigationServer R H)
      → ended point ≡ 0
      → IsCounted j goal point s (end_goal goal ending s)
  unfolding end_goal ended
  end_goal-IsCounted j goal ending point s h =
      ground (arith, endings_of-append j goal ending s.endings)

  finish_goal-IsCounted :
      (j goal : ℕ) (is_canceling : Bool) (ending : Ending) (point : Point)
      (s : NavigationServer R H)
      → ended point ≡ 0
      → IsCounted j goal point s (finish_goal is_canceling goal ending s)
  unfolding finish_goal ended
  finish_goal-IsCounted j goal is_canceling (succeeds message) point s h =
      end_goal-IsCounted j goal (succeeds message) point s h
  finish_goal-IsCounted j goal true (cancels message) point s h =
      end_goal-IsCounted j goal (cancels message) point s h
  finish_goal-IsCounted j goal false (cancels message) point s h = ground (arith, h)
  finish_goal-IsCounted j goal is_canceling (aborts message) point s h =
      end_goal-IsCounted j goal (aborts message) point s h

  respond-IsCounted :
      (j goal : ℕ) (response : NavigationResponse) (point : Point) (s : NavigationServer R H)
      → ended point ≡ 0
      → IsCounted j goal point s (after_response goal response s)
  unfolding after_response ended
  respond-IsCounted j goal response point s h = ground (
    arith,
    end_goal-IsCounted j goal
        (aborts
          (if is_blank response.message then "navigate request rejected" else response.message))
        point s h,
  )

  start-IsCounted :
      (j goal : ℕ) (is_canceling available : Bool) (pose : GoalPose R) (s : NavigationServer R H)
      → IsCounted j goal starting s (start_execution is_canceling available goal pose s)
  unfolding start_execution ended
  start-IsCounted j goal is_canceling available pose s =
      let (response, m) = navigate_to_pose available pose s.manager in
      ground (
        arith,
        end_goal-IsCounted j goal (cancels "canceled before start") starting s refl,
        respond-IsCounted j goal response starting (record s { manager = m }) refl,
      )

  finish-IsCounted :
      (j goal : ℕ) (is_canceling timed_out : Bool) (s : NavigationServer R H)
      → IsCounted j goal waiting s (finish_execution is_canceling timed_out goal s)
  unfolding finish_execution ended
  finish-IsCounted j goal is_canceling timed_out s = ground (
    arith,
    finish_goal-IsCounted j goal is_canceling (ending_of s.result) waiting s refl,
    end_goal-IsCounted j goal (aborts "navigation result timeout") waiting s refl,
  )

  retry-IsCounted :
      (j goal : ℕ) (available timed_out : Bool) (pose : GoalPose R) (s : NavigationServer R H)
      → IsCounted j goal waiting_for_old s
          (execute false available timed_out goal pose waiting_for_old s)
  unfolding execute retry_execution ended
  retry-IsCounted j goal available timed_out pose s =
      let (response, m) = navigate_to_pose available pose s.manager in
      ground
        (arith, respond-IsCounted j goal response waiting_for_old (record s { manager = m }) refl)

  execute-IsCounted :
      (j goal : ℕ) (is_canceling available timed_out : Bool) (pose : GoalPose R) (point : Point)
      (s : NavigationServer R H)
      → IsCounted j goal point s (execute is_canceling available timed_out goal pose point s)
  unfolding execute ended activate_goal announce_goal
  execute-IsCounted j goal is_canceling available timed_out pose starting s =
      start-IsCounted j goal is_canceling available pose s
  execute-IsCounted j goal is_canceling available timed_out pose waiting_for_old s =
      retry-IsCounted j goal available timed_out pose s
  execute-IsCounted j goal is_canceling available timed_out pose registering s = refl
  execute-IsCounted j goal is_canceling available timed_out pose announcing s = refl
  execute-IsCounted j goal is_canceling available timed_out pose waiting s =
      finish-IsCounted j goal is_canceling timed_out s
  execute-IsCounted j goal is_canceling available timed_out pose finished s = refl
  execute-IsCounted j goal is_canceling available timed_out pose crashed s = refl

  run_thread-tally :
      (i j goal : ℕ) (is_canceling available timed_out : Bool) (xs : List (Execution R))
      (s : NavigationServer R H)
      → let t = run_thread i is_canceling available timed_out goal xs s in
        endings_of j t.server.endings + tally j goal xs
        ≡ endings_of j s.endings + tally j goal t.executions
  unfolding run_thread tally
  run_thread-tally i j goal is_canceling available timed_out [] s = refl
  run_thread-tally zero j goal is_canceling available timed_out (x ∷ xs) s =
      omega (arith, execute-IsCounted j goal is_canceling available timed_out x.pose x.point s)
  run_thread-tally (suc i) j goal is_canceling available timed_out (x ∷ xs) s =
      omega (arith, run_thread-tally i j (suc goal) is_canceling available timed_out xs s)

  -- Each goal has ended as often as its thread says.
  abbrev IsTallied : System R H → Type 0
  IsTallied t = (j : ℕ) → endings_of j t.server.endings ≡ tally j 0 t.executions

  store_result-endings :
      (told : Option NavigationExecutionState) (s : NavigationServer R H)
      → (store_result told s).endings ≡ s.endings
  unfolding store_result
  store_result-endings none s = refl
  store_result-endings (some state) s = refl

  take-IsTallied :
      (d : Doubles R) (o : NodeOptions) (event : Event R H) (t : System R H)
      → IsTallied t
      → IsTallied (take d o event t)
  unfolding take accept_goal handle_cancel answer_arrives begin_result end_arrives
      on_navigation_feedback feed_back publish_component_status ended
  take-IsTallied d o (goal_requested pose) t h j =
      ground
        (arith, h j, tally-append j 0 t.executions (record { pose = pose; point = starting }) refl)
  take-IsTallied d o (thread_runs goal is_canceling available timed_out) t h j =
      omega (
        arith,
        h j,
        run_thread-tally goal j 0 is_canceling available timed_out t.executions t.server,
      )
  take-IsTallied d o cancel_requested t h j = h j
  take-IsTallied d o (nav2_answers none) t h j = h j
  take-IsTallied d o (nav2_answers (some handle)) t h j = h j
  take-IsTallied d o (nav2_ends code) t h j = h j
  take-IsTallied d o result_stored t h j =
      ap (endings_of j) (store_result-endings t.server.telling t.server) ∙ h j
  take-IsTallied d o nav2_feeds_back t h j = ground (arith, h j)
  take-IsTallied d o (nav2_event now_is event) t h j =
      ap (λ goals. endings_of j goals.3) (step-goal_part d o now_is event t.server) ∙ h j
  take-IsTallied d o pose_timer t h j = h j

  step-IsTallied :
      (d : Doubles R) (o : NodeOptions) (event : Event R H) (t : System R H)
      → IsTallied t
      → IsTallied (step d o event t)
  unfolding step
  step-IsTallied d o event t h j = ground (arith, h j, take-IsTallied d o event t h j)

  run-IsTallied :
      (d : Doubles R) (o : NodeOptions) (events : List (Event R H)) (t : System R H)
      → IsTallied t
      → IsTallied (run d o events t)
  unfolding run
  run-IsTallied d o [] t h = h
  run-IsTallied d o (event ∷ events) t h =
      run-IsTallied d o events (step d o event t) (step-IsTallied d o event t h)

  -- In any history of callbacks and threads, in any order, each goal that was accepted has ended
  -- exactly once when its thread has finished, and else not at all, also when the thread has thrown,
  -- and no other goal has ended.
  pub ends_once :
      (d : Doubles R) (o : NodeOptions) (events : List (Event R H)) (goal : ℕ)
      → let t = run d o events new_system in
        endings_of goal t.server.endings ≡ ended_at (get_elem? t.executions goal)
  unfolding tally
  ends_once d o events goal =
      let t = run d o events new_system in
      run-IsTallied d o events new_system (λ j. refl) goal
      ∙ tally-get_elem? goal goal 0 t.executions (omega arith)
