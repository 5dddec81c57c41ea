-- ===== src/Lib.antt =====
-- The AMR warehouse: the edge server with its tasks, goods, map packages, robots and idle points, and
-- the behaviour, the navigation and the reports of a robot.
--
-- The edge server keeps its state in one SQLite database behind one mutex. The HTTP API creates and
-- cancels transport tasks; robots apply for goods of a task and report carries over MQTT; uploaded
-- map packages are stored, activated and announced; robots register and are given an idle point of
-- the active map. The services (edge_server/src/service) check a request, call SQLiteDB
-- (edge_server/src/database/sqlite_db.cpp) and publish.
--
-- Which file models what:
--   Edge.Sql             how SQLiteDB talks to SQLite: prepare, step, BeginTransaction, Commit,
--                        Rollback. Sql.Transactions has the specification of a transaction, Atomic:
--                        under every schedule of failing calls a function does all of a step on the
--                        tables and returns true, or changes none and returns false; and on a
--                        database that works it does the step whenever the step is possible.
--   Edge.Rows, Schema    one SQL statement on the rows of a table; the tables with their CHECK,
--                        UNIQUE and PRIMARY KEY constraints (InitMapTables, InitTaskTables).
--   Edge.TaskCreation    SQLiteDB::CreateTask.
--   Edge.TaskStore       TaskExists, GetTask, GetActiveTasks, UpdateTaskState, GetTaskGoodsStatus,
--                        UpdateTaskStateWithEvent, InsertAmrTaskStatusEvent.
--   Edge.Allocations     ApproveGoodsAllocation and SettleGoodsAllocation; Allocations.Balance has
--                        the invariant between quantities and allocations.
--   Edge.TaskService     TaskService::createTask, getTask, cancelTask
--                        (edge_server/src/service/task_service.cpp).
--   Edge.TaskReports     TaskService::handleGoodsApply, handleAmrTaskStatus, buildTaskStateMessage,
--                        markTaskInterrupted.
--   Edge.History         histories of those calls with what the environment does between them.
--   Edge.MapStore        UploadMapPackage, SetActiveMap, GetMapPackage, GetActiveMap.
--   Edge.MapService      edge_server/src/service/map_service.cpp.
--   Edge.IdlePoints      edge_server/src/service/idle_point_allocator.cpp.
--   Edge.RobotTypes      the robot structures of edge_server/src/types.h and robot_entity.h.
--   Edge.Robots          edge_server/src/robot/robot_manager.cpp.
--   Edge.RobotStore      UpsertRobot and LoadRobots, with the robot tables.
--   Edge.Heartbeat       EdgeServerApp::checkAmrHeartbeat (edge_server/src/edge_server_app.cpp).
--   Edge.RobotService    edge_server/src/service/robot_service.cpp, and the restoration of robots at
--                        the start of edge_server_app.cpp.
--   Edge.AmrCommunication  the handlers of task messages of
--                        edge_server/src/communication/amr_communication.cpp.
--   Amr.Messages         the messages of robot_ws/src/amr_interfaces/msg.
--   Amr.GoodsPoints      zone_station_loader.cpp and goods_point_resolver.cpp of
--                        robot_ws/src/amr_behavior_manager/src.
--   Amr.Behavior         amr_behavior_manager_node.cpp and navigation_client.cpp there: State, Requests,
--                        Commands, Carries and Callbacks are the parts of one node, whose history is
--                        a list of callbacks; Events takes a property of what is published from the
--                        places that publish to the histories.
--   Amr.TaskBridge       bridge/task_bridge.cpp and persist/pending_report_store.cpp of
--                        robot_ws/src/amr_agent/src.
--   Amr.Navigation       robot_ws/src/amr_navigation/src: Manager is navigation_manager.cpp; State,
--                        Process, Nav2, Goals and Server are the parts of navigation_server.cpp, and
--                        Template the file of parameters that it makes for Nav2. Server has the
--                        callbacks and the threads of goals as the steps of one machine.
--   System               the robot and the edge server together.
--   Edge.Stable          which steps on the tables a property has to survive; History.Safety takes it
--                        from the steps to the histories.
--   Tests                runs on small data, among them one for each result that has conditions.
--
-- State is passed explicitly: a function of SQLiteDB takes a Connection (is it open, the tables, the
-- transaction with the tables at its BEGIN, the clock) and returns its result with the new Connection. A Connection
-- also has a list of faults, which says of the next calls of prepare and step whether the engine
-- fails there; the results hold for every such list, and only those that speak of a database that
-- works take it empty. The transaction has a list of its own for BEGIN, COMMIT and ROLLBACK, whose
-- results the source ignores: a COMMIT that fails leaves the transaction open, and the function
-- reports success all the same. A connection is quiet when no transaction is open and that list is
-- empty. The mutex of SQLiteDB admits one of its functions at a time, so each of them
-- is one step. A history is a list of whole service calls; how two of them may alternate between
-- their database functions is not modelled.
--
-- What is assumed of code outside the repository: a statement that a constraint refuses changes nothing; SELECT
-- gives rows in the order of insertion. Quantities are integers: the columns have 64 bits and add
-- two int values at a time; the sums of buildTaskStateMessage are exact as long as they fit an int.
-- JSON text, zip files and YAML stand as the values that they encode; doubles, the poses and
-- batteries, are an arbitrary type; clock readings are arguments, and the approvals of one request,
-- like the steps of one callback of a robot, have one reading. Loops go over lists and end with them;
-- only the loop of Template has fuel, one more than the template has characters, and is shown to
-- end with it, and the polling of waitpid stops after 30 rounds as the source does.
--
-- The node of a robot runs one callback at a time, in any order; a wall timer of rclcpp fires until
-- it is cancelled, so that a timer of the node may fire at any later time and as often as it likes.
-- Its doubles are an arbitrary type with the functions that are called on them.
--
-- The navigation server runs one callback at a time too, and a thread for each goal. A step of such a
-- thread ends where it waits, before the locked block that registers the goal, and behind it. A call
-- of the navigation manager is one step, the locked block another, and what follows it, m_navigating
-- and the first feedback, a third. onNavigationResult has a step before its locked block and one for
-- it, with threads in between. rclcpp_action throws when canceled() is called for a goal that is not
-- canceling, which ends the process: then nothing runs any more. waitpid, fork and the services of Nav2 answer as an argument says.
--
-- Not modelled: the HTTP and WebSocket servers, the MQTT clients and their routers, message codecs,
-- configuration and logging, which move data in and out; the wiring at the start of EdgeServerApp;
-- the map manager and the bootstrap of the agent; of amr_navigation the published pose, the pose
-- service and what the feedback of Nav2 says; the packages simulation_ws and tool; and the
-- third-party code that is copied into the repository.
pub mod Prelude
pub mod Edge
pub mod Amr
pub mod System
pub mod Tests
