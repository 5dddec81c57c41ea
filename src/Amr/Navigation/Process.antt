-- ===== src/Amr/Navigation/Process.antt =====
-- The processes of Nav2: launchNav2Process, stopNav2Process, requestStopNav2, startNav2Lifecycle and
-- publishComponentStatus of robot_ws/src/amr_navigation/src/navigation_server.cpp.

use Prim.Native.String.{◌++◌ as append}
use amr_warehouse_collaborat.Prelude.{
  ℕ, zero, suc, ℤ, pos, negsuc, String, is_blank, Bool, true, false, ◌&&◌, ◌||◌, Option, none, some,
  is_some, List, [], ◌∷◌, ◌++◌, if◌then◌else◌,
}
use amr_warehouse_collaborat.Amr.Messages.{
  ComponentState, state_error, state_working, state_idle, state_initializing,
}
use amr_warehouse_collaborat.Amr.Navigation.State.{
  Nav2State, stopped, starting_process, starting_lifecycle, waiting_for_localization, ready,
  stopping, failed, Signal, sigint, sigterm, sigkill, Launch, NavigationServer,
}

-- What the operating system and Nav2 do in one callback. `fork_pid` is `none` where fork fails,
-- `running` what the calls of waitpid say in turn, `nav_service` and `loc_service` whether the
-- lifecycle services are there, `params_written` whether the file of parameters can be written.
pub record Conditions : Type 0 where
  pub fork_pid : Option ℕ
  pub running : List Bool
  pub nav_service : Bool
  pub loc_service : Bool
  pub params_written : Bool

-- The parameters of the node. `robot_id` is its namespace without the slash in front.
pub record NodeOptions : Type 0 where
  pub params_file : String
  pub use_sim_time : Bool
  pub robot_id : String

-- -pid.
unfoldable pub negated : ℕ → ℤ
negated zero = pos 0
negated (suc n) = negsuc n

-- The loop that polls waitpid, at most `n` times; what is left of the answers.
unfoldable pub poll_exit : ℕ → List Bool → List Bool
poll_exit zero running = running
poll_exit (suc n) [] = []
poll_exit (suc n) (true ∷ rest) = poll_exit n rest
poll_exit (suc n) (false ∷ rest) = rest

-- One more call of waitpid. No answer means that there is no such child.
unfoldable pub still_running : List Bool → Bool × List Bool
still_running [] = (false, [])
still_running (answer ∷ rest) = (answer, rest)

-- The signals that stopNav2Process sends to the process.
unfoldable pub stop_signals : ℕ → List Bool → List (ℤ × Signal)
unfolding negated poll_exit still_running
stop_signals pid running =
    let (outlives, later) = still_running (poll_exit 30 running) in
    let (survives, last) = still_running later in
    (negated pid, sigint)
    ∷ ((if outlives then (negated pid, sigterm) ∷ [] else [])
        ++ (if survives then (negated pid, sigkill) ∷ [] else []))

unfoldable pub params_path : NodeOptions → String
params_path o =
    append "/tmp/amr_nav2_params_"
      (append (if is_blank o.robot_id then "default" else o.robot_id) ".yaml")

-- The namespace that is handed on: empty for "/".
unfoldable pub robot_namespace : NodeOptions → String
robot_namespace o = if is_blank o.robot_id then "" else append "/" o.robot_id

unfoldable pub is_stopped : Nav2State → Bool
is_stopped stopped = true
is_stopped starting_process = false
is_stopped starting_lifecycle = false
is_stopped waiting_for_localization = false
is_stopped ready = false
is_stopped stopping = false
is_stopped failed = false

unfoldable pub is_stopping : Nav2State → Bool
is_stopping stopped = false
is_stopping starting_process = false
is_stopping starting_lifecycle = false
is_stopping waiting_for_localization = false
is_stopping ready = false
is_stopping stopping = true
is_stopping failed = false

unfoldable pub is_failed : Nav2State → Bool
is_failed stopped = false
is_failed starting_process = false
is_failed starting_lifecycle = false
is_failed waiting_for_localization = false
is_failed ready = false
is_failed stopping = false
is_failed failed = true

module _ {R H : Type 0} where
  unfoldable pub stop_process : List Bool → Option ℕ → NavigationServer R H → NavigationServer R H
  unfolding stop_signals
  stop_process running none s = s
  stop_process running (some pid) s = record s {
    signals = s.signals ++ stop_signals pid running;
    nav2_pid = none;
    initial_pose_published = false;
  }

  unfoldable pub stop_nav2_process : List Bool → NavigationServer R H → NavigationServer R H
  unfolding stop_process
  stop_nav2_process running s = stop_process running s.nav2_pid s

  unfoldable pub request_stop_nav2 : List Bool → NavigationServer R H → NavigationServer R H
  unfolding is_stopping is_stopped stop_nav2_process
  request_stop_nav2 running s =
      if is_stopping s.nav2_state || is_stopped s.nav2_state
      then s
      else record (stop_nav2_process running (record s { nav2_state = stopping })) {
        nav2_state = stopped;
      }

  -- fork and what follows it in the parent.
  unfoldable pub fork_nav2 : Option ℕ → Launch → NavigationServer R H → NavigationServer R H
  fork_nav2 none launch s = record s { nav2_state = failed }
  fork_nav2 (some pid) launch s = record s {
    nav2_pid = some pid;
    launches = s.launches ++ launch ∷ [];
  }

  unfoldable pub launch_nav2_process :
      NodeOptions → Conditions → String → NavigationServer R H → NavigationServer R H
  unfolding params_path robot_namespace fork_nav2
  launch_nav2_process o now_is map_yaml s =
      if is_some s.nav2_pid
      then s
      else fork_nav2 now_is.fork_pid
          (record {
            map = map_yaml;
            params_file = if now_is.params_written then params_path o else o.params_file;
            use_sim_time = o.use_sim_time;
            namespace = robot_namespace o;
          })
          s

  unfoldable pub start_nav2_lifecycle : Conditions → NavigationServer R H → NavigationServer R H
  start_nav2_lifecycle now_is s =
      if now_is.nav_service && now_is.loc_service
      then record s { nav2_state = waiting_for_localization }
      else record s { nav2_state = starting_lifecycle }

  unfoldable pub component_state : NavigationServer R H → ComponentState
  unfolding is_failed
  component_state s =
      if is_failed s.nav2_state
      then state_error
      else if s.navigating
      then state_working
      else idle_state s.nav2_state
    where
      idle_state : Nav2State → ComponentState
      idle_state ready = state_idle
      idle_state stopped = state_initializing
      idle_state starting_process = state_initializing
      idle_state starting_lifecycle = state_initializing
      idle_state waiting_for_localization = state_initializing
      idle_state stopping = state_initializing
      idle_state failed = state_initializing

  unfoldable pub publish_component_status : NavigationServer R H → NavigationServer R H
  unfolding component_state
  publish_component_status s = record s { statuses = s.statuses ++ component_state s ∷ [] }
