-- ===== src/Lib.antt =====
-- trajex: time-optimal trajectories for a robot's joints, and a session that streams them.
--
-- A caller's waypoints are a `waypoint_accumulator`. `waypoint_utils` thins them out and cuts them
-- where the motion turns back; `path` blends them into segments, `trajectory` integrates along the
-- path, and `uniform_sampler` reads a trajectory at even times. A streaming `session` takes batches
-- of waypoints, copies them into a `waypoint_store`, builds a trajectory, and for each later batch
-- either pivots to a longer trajectory or stages the batch to follow the active one.
--
-- Which file models what (all below src/viam/trajex/totg):
--   Waypoints      waypoint_accumulator.{hpp,cpp}: a sequence of views with their width
--   WaypointStore  streaming/private/waypoint_store.hpp: chunks, an explicit memory, and the
--                  accumulator that views it. Places says where row i stands, Append and Shrink what
--                  the operations do to a well-formed store
--   WaypointUtils  waypoint_utils.cpp: `deduplicate_waypoints` (Thinning, Dedup) and
--                  `segment_at_reversals` (Cutting, Reversals)
--   Path           path.{hpp,cpp}: the search for a segment, the cursor and its hint (Hint). Segment has
--                  lines and arcs with their geometry, Blend the options and the arc that rounds a
--                  corner, Coalesce the waypoints that are dropped (Tube), Create the loop that lays out
--                  a path (Layout, Polyline, Advancing, Views), Rich the cursor that keeps what it
--                  computed (Settled, Refinement)
--   Trajectory     trajectory.{hpp,cpp}: the cursor and its hint (Search), and the check of given
--                  integration points (Points). Limits has the limit curves, their slope and the bounds
--                  on acceleration (JointSpeed, Acceleration, Slope, Bounds), with the comparisons
--                  within a tolerance of types/epsilon.hpp; Options the checks of the options,
--                  Stepping the Euler step, Sample the cursor with its cursor on the path (Answered,
--                  Reads). Switching has the switching points and the searches for them
--                  (Velocity, Escape, Found, Acceleration, Search), and where on the path they find one
--                  (Walking, Located, Stocked), Forward (with Breach) and Backward a pass
--                  of integrate_forward_from and of integrate_backwards_from (Solver), Integration
--                  the state machine that `create` makes of them (Receding, Bisecting, Advancing,
--                  Increasing)
--   Observers      observers.{hpp,cpp}: the composite observer, and handlers that call it back
--                  (Reentrancy, Delivery, Recursion)
--   UniformSampler uniform_sampler.{hpp,cpp}; Drain has the loop of a caller over `advance`, Ending that
--                  loop on a cursor of a trajectory
--   Session        streaming/session.{hpp,cpp}: the state and the first build. Extend has the rest
--                  of `extend`, Sampling what emits samples; Stores, Staged and Coherence have the
--                  invariant, First and Atomic what `extend` leaves behind, Start the constructor and
--                  a first batch that the sampler refuses, Counting the count of emitted samples,
--                  Sampled and Kept what sampling keeps, Horizon the loop of `sample_at_least`
--                  (Rounds, Takes, Stops)
--   Prelude, Double, Xtensor: shared names and lemmas; what the program does with doubles and with
--                  arrays, as instance arguments. Double/Ieee says what some theorems rely on of
--                  IEEE 754, and Double/Fixed is an instance for the tests
--   Tests          the theorems at concrete inputs
--
-- State is passed on explicitly, and an operation that can throw returns a result. One that can
-- throw after a change returns the state with the error, so that what an exception leaves behind
-- can be stated. A loop is structural recursion over the rows or over the rounds that are left.
-- Calls that nest have a depth, which stands for the stack; sample_at_least has rounds, as many as
-- there are samples left and one more.
-- The bisections within a pass of the integration have rounds too, and leave no result when they are
-- used up; what is stated of the integration holds for any number of them. A std::size_t is a
-- number that does not wrap; its subtractions in the source are of a smaller number from a larger
-- one. Comparisons of doubles are comparisons of ranks, and false if one side is NaN. Arithmetic on
-- them has no laws of its own: a theorem that needs some takes them as a hypothesis (Double/Ieee). The array library is an instance argument (Xtensor), and so are the
-- sine and the other functions of <cmath>.
--
-- Not modelled: the callbacks of the integration, which takes the search for a switching point as an
-- argument (`create_step` gives it find_switching_point); a session takes what it calls of a trajectory as an interface
-- (Session.TrajectoryApi); the iterator of a path; the collector of
-- events, the kinematics, the C interface, the service, the MoveIt plugin, the Go bindings, the
-- tools and the benchmarks. A failing allocation is not modelled either.
pub mod Prelude
pub mod Double
pub mod Observers
pub mod Waypoints
pub mod WaypointStore
pub mod Xtensor
pub mod WaypointUtils
pub mod Path
pub mod Trajectory
pub mod UniformSampler
pub mod Session
pub mod Tests
