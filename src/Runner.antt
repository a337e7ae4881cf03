-- ===== src/Runner.antt =====
-- The stages of the server of a3m/server/runner.py, with its queue. `start` holds the server's lock to
-- its end; `stop` waits until the thread that it starts has set `shutdown_event`, and what that thread does
-- after it is a step of its own (`thread_step`), which may come after `stop` has returned.
-- Not modelled: the gRPC server and the bootstrap in `create_server`.
mod Tests
use a3m.Common.{
  Bool, true, false, ◌≡◌, ◌≢◌, refl, ◌⊎◌, inl, inr, arith, List, [], ◌∷◌, ◌++◌, value_error,
  runtime_error, Result, ok, raise,
}
use a3m.Queue.{PackageQueue, Job, raised, stop, schedule_job}

pub data ServerStage : Type 0 where
  stopped started grace : ServerStage

-- What the thread of `stop` assigns once `stop` may return.
pub data Assignment : Type 0 where
  set_termination set_stopped : Assignment

pub record Server : Type 0 where
  pub stage : ServerStage
  pub queue : PackageQueue
  pub termination_event : Bool
  pub finishing : List Assignment

-- `Server.__init__`
abbrev pub new_server : PackageQueue → Server
new_server queue = record {
  stage = stopped;
  queue = queue;
  termination_event = false;
  finishing = [];
}

unfoldable pub start : Server → Result (Unit {0}) × Server
start server = elim server.stage [
  | stopped ↦ (ok tt, record server { stage = started })
  | _ ↦ (raise value_error, server)
]

-- `_stop` up to `shutdown_event.set()`.
unfoldable pub shut_down : Server → Server
shut_down server = record server {
  queue = stop server.queue;
  finishing = server.finishing ++ set_termination ∷ set_stopped ∷ [];
}

stop_from : ServerStage → Server → Server
unfolding shut_down
stop_from stopped server = server
stop_from _ server = shut_down (record server { stage = grace })

-- `stop`, as far as it waits.
unfoldable pub stop_server : Server → Server
unfolding stop_from
stop_server server = stop_from server.stage server

thread_step_with : List Assignment → Server → Server
thread_step_with [] server = server
thread_step_with (set_termination ∷ rest) server = record server {
  termination_event = true;
  finishing = rest;
}
thread_step_with (set_stopped ∷ rest) server = record server { stage = stopped; finishing = rest }

-- The next assignment of the thread.
unfoldable pub thread_step : Server → Server
unfolding thread_step_with
thread_step server = thread_step_with server.finishing server

-- What may happen to a server: its methods are called, its thread goes on, and a job is scheduled.
pub data Event : Type 0 where
  starts stops finishes : Event
  schedules : Job → Event

unfoldable pub happen : Event → Server → Server
happen starts server = (start server).1
happen stops server = stop_server server
happen finishes server = thread_step server
happen (schedules job) server = record server { queue = (schedule_job job server.queue).1 }

unfoldable pub happen_all : List Event → Server → Server
happen_all [] server = server
happen_all (event ∷ events) server = happen_all events (happen event server)

abbrev IsShut : Server → Type 0
IsShut server = server.queue.shutdown_event ≡ true

start-IsShut :
    (stage : ServerStage) (server : Server)
    → server.stage ≡ stage
    → IsShut server
    → IsShut (start server).1
unfolding start
start-IsShut stopped server e h = rw e h
start-IsShut started server e h = rw e h
start-IsShut grace server e h = rw e h

stop_from-IsShut :
    (stage : ServerStage) (server : Server)
    → (stage ≢ stopped) ⊎ IsShut server
    → IsShut (stop_from stage server)
unfolding stop_from shut_down stop
stop_from-IsShut stopped server (inl e) = absurd (e refl)
stop_from-IsShut stopped server (inr h) = h
stop_from-IsShut started server h = refl
stop_from-IsShut grace server h = refl

thread_step_with-IsShut :
    (rest : List Assignment) (server : Server)
    → IsShut server
    → IsShut (thread_step_with rest server)
unfolding thread_step_with
thread_step_with-IsShut [] server h = h
thread_step_with-IsShut (set_termination ∷ rest) server h = h
thread_step_with-IsShut (set_stopped ∷ rest) server h = h

schedule_job_shut :
    (job : Job) (queue : PackageQueue)
    → queue.shutdown_event ≡ true
    → schedule_job job queue ≡ (raised runtime_error, queue)
unfolding schedule_job
schedule_job_shut job queue h = ground arith

happen-IsShut : (event : Event) (server : Server) → IsShut server → IsShut (happen event server)
unfolding happen stop_server thread_step
happen-IsShut starts server h = start-IsShut server.stage server refl h
happen-IsShut stops server h = stop_from-IsShut server.stage server (inr h)
happen-IsShut finishes server h = thread_step_with-IsShut server.finishing server h
happen-IsShut (schedules job) server h = rw (schedule_job_shut job server.queue h) h

happen_all-IsShut :
    (events : List Event) (server : Server) → IsShut server → IsShut (happen_all events server)
unfolding happen_all
happen_all-IsShut [] server h = h
happen_all-IsShut (event ∷ events) server h =
    happen_all-IsShut events (happen event server) (happen-IsShut event server h)

-- A server that is stopped while it is not in the stage STOPPED takes no job ever again, whatever happens
-- to it after it, also when it is started again: its queue raises for each job and stays as it is.
pub stop_server_refuses :
    (server : Server) (events : List Event) (job : Job)
    → server.stage ≢ stopped
    → schedule_job job (happen_all events (stop_server server)).queue
      ≡ (raised runtime_error, (happen_all events (stop_server server)).queue)
unfolding stop_server
stop_server_refuses server events job up =
    schedule_job_shut job (happen_all events (stop_server server)).queue (
      happen_all-IsShut events (stop_server server) (stop_from-IsShut server.stage server (inl up)))
