-- ===== src/Runner/Tests.antt =====
-- A server that is started twice and stopped, and the theorem on its queue at a queue for one package.
use a3m.Common.{◌≡◌, ◌≢◌, refl, ok, raise, value_error, runtime_error, false, [], ◌∷◌}
use a3m.Queue.{init, Job, schedule_job, raised}
use a3m.Runner.{
  Server, new_server, start, stop_server, stopped, started, starts, finishes, thread_step,
  happen_all, stop_server_refuses,
}

start_twice : (start (start (new_server (init 1 2))).1).0 ≡ raise value_error
unfolding start
start_twice = refl

abbrev server : Server
server = record (new_server (init 1 2)) { stage = started }

-- Right after `stop` has returned, the stage may still be GRACE: a start raises.
start_too_soon : (start (stop_server server)).0 ≡ raise value_error
unfolding start stop_server
start_too_soon = refl

-- When the thread has ended, it does not.
start_again : (start (thread_step (thread_step (stop_server server)))).0 ≡ ok tt
unfolding start stop_server thread_step
start_again = refl

abbrev job : Job
job = record { uuid = "1"; unit = record { uuid = "a" }; link_id = "x"; is_terminal = false }

started-ne-stopped : started ≢ stopped
started-ne-stopped e = cc

stop_server_refuses_example :
    schedule_job job (happen_all (finishes ∷ finishes ∷ starts ∷ []) (stop_server server)).queue ≡ (
      raised runtime_error,
      (happen_all (finishes ∷ finishes ∷ starts ∷ []) (stop_server server)).queue,
    )
stop_server_refuses_example =
    stop_server_refuses server (finishes ∷ finishes ∷ starts ∷ []) job started-ne-stopped
