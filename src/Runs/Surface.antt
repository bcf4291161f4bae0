-- ===== src/Runs/Surface.antt =====
-- What the api shows of runs: listForAgent and get (internal/runs/handlers.go), the stream of a run's
-- events (events_handler.go) and of its logs (logs.go). What the cluster, Loki and the hub's channel
-- give is an argument; a stream is the list of the frames that are written.
pub mod Streams
use ai_lab.Prelude.{
  Text, ℕ, Bool, true, false, not, Option, none, some, List, [], ◌∷◌, ◌++◌, map, txt,
}
use ai_lab.Auth.{Identity}
use ai_lab.Agents.{AgentRow, get_agent}
use ai_lab.Events.{RunStarted, RunCompleted}
use ai_lab.Runs.Rows.{Run, RunRow, get_run, list_for_agent, is_terminal}
use ai_lab.Runs.Hub.{RunEvent, EventKind, run_started, run_completed, other_kind}

-- listForAgent after the lookup of the agent, given whether this and the query are served; the
-- limit is 0. The runs are shown without their tenant and their error.
abbrev pub list_found : Text → Text → Bool → Option AgentRow → Bool → List RunRow → ℕ × List Run
list_found tenant_id agent_id false found rows_ok rows = (500, [])
list_found tenant_id agent_id true none rows_ok rows = (404, [])
list_found tenant_id agent_id true (some a) false rows = (500, [])
list_found tenant_id agent_id true (some a) true rows =
    (200, list_for_agent tenant_id agent_id (some 0) rows)

-- Handlers.listForAgent
unfoldable pub handle_list :
    Option Identity → Text → Bool → Bool → List AgentRow → List RunRow → ℕ × List Run
handle_list none agent_id agent_ok rows_ok agents rows = (401, [])
handle_list (some i) agent_id agent_ok rows_ok agents rows =
    list_found i.tenant_id agent_id agent_ok (get_agent i.tenant_id agent_id agents) rows_ok rows

-- A run that is looked up, given whether the query is served: its answer, or the run.
abbrev pub found_run : Bool → Option Run → ℕ × Option Run
found_run false found = (500, none)
found_run true none = (404, none)
found_run true (some run) = (200, some run)

-- Handlers.get
unfoldable pub handle_get : Option Identity → Text → Bool → List RunRow → ℕ × Option Run
handle_get none run_id ok rows = (401, none)
handle_get (some i) run_id ok rows = found_run ok (get_run i.tenant_id run_id rows)

-- What writeEvent and the writers of logs put on a stream.
pub data Frame : Type 0 where
  started_frame : RunStarted → Frame
  completed_frame : RunCompleted → Frame
  summary_frame : Run → Frame
  line_frame : Text → Frame
  error_frame : Text → Frame

abbrev pub started_of : Option RunStarted → List Frame
started_of none = []
started_of (some e) = started_frame e ∷ []

abbrev pub completed_of : Option RunCompleted → List Frame
completed_of none = []
completed_of (some e) = completed_frame e ∷ []

-- One event of the channel: what it writes, and whether the loop ends.
abbrev pub on_event : EventKind → RunEvent → List Frame × Bool
on_event run_started ev = (started_of ev.start, false)
on_event run_completed ev = (completed_of ev.end, true)
on_event (other_kind s) ev = ([], false)

abbrev pub then_rest : List Frame × Bool → List Frame × Bool → List Frame × Bool
then_rest (frames, true) rest = (frames, true)
then_rest (frames, false) rest = (frames ++ rest.0, rest.1)

-- The loop of streamEvents over what the channel yields; true once it has ended by itself. At the
-- end of the list it waits until the client goes away.
unfoldable pub follow : List RunEvent → List Frame × Bool
follow [] = ([], false)
follow (ev ∷ evs) = let rest = follow evs in then_rest (on_event ev.kind ev) rest

-- streamEvents of a run that is found, given whether it is terminal
abbrev pub stream_run : Bool → Run → List RunEvent → List Frame × Bool
stream_run true run evs = (summary_frame run ∷ [], true)
stream_run false run evs = follow evs

abbrev pub stream_found : ℕ × Option Run → Bool → List RunEvent → ℕ × (List Frame × Bool)
stream_found (status, none) flushes evs = (status, ([], true))
stream_found (status, some run) false evs = (500, ([], true))
stream_found (status, some run) true evs = (200, stream_run (is_terminal run.status) run evs)

-- Handlers.streamEvents: the status, and the stream.
unfoldable pub stream_events :
    Bool
    → Option Identity
    → Text
    → Bool
    → Bool
    → List RunRow
    → List RunEvent
    → ℕ × (List Frame × Bool)
unfolding follow
stream_events false identity run_id ok flushes rows evs = (503, ([], true))
stream_events true none run_id ok flushes rows evs = (401, ([], true))
stream_events true (some i) run_id ok flushes rows evs =
    stream_found (found_run ok (get_run i.tenant_id run_id rows)) flushes evs

-- What a source of lines gives: an error before the first, or lines and maybe an error after them.
pub data Source : Type 0 where
  no_stream : Text → Source
  lines : List Text → Option Text → Source

abbrev pub error_of : Option Text → List Frame
error_of none = []
error_of (some e) = error_frame e ∷ []

-- streamFromPod and streamFromLoki; Loki gives all of its lines or an error.
abbrev pub frames_of : Source → List Frame
frames_of (no_stream e) = error_frame e ∷ []
frames_of (lines ls e) = map line_frame ls ++ error_of e

-- The sources at the time of the request, each under a namespace or tenant and a run: the Pod that
-- findPod finds, if there is a cluster, and Loki, if it is configured.
pub record Sources : Type 0 where
  pub pod : Option (Text → Text → Option Source)
  pub loki : Option (Text → Text → Source)

abbrev pub from_loki : Option (Text → Text → Source) → Run → List Frame
from_loki none run = error_frame (txt "no live pod and Loki not configured") ∷ []
from_loki (some query) run = frames_of (query run.tenant_id run.id)

abbrev pub from_pod : Option Source → Sources → Run → List Frame
from_pod none s run = from_loki s.loki run
from_pod (some source) s run = frames_of source

abbrev pub live_pod : Option (Text → Text → Option Source) → Run → Option Source
live_pod none run = none
live_pod (some find) run = find (txt "tenant-" ++ run.tenant_id) run.id

abbrev pub logs_found : ℕ × Option Run → Bool → Sources → ℕ × List Frame
logs_found (status, none) flushes s = (status, [])
logs_found (status, some run) false s = (500, [])
logs_found (status, some run) true s = (200, from_pod (live_pod s.pod run) s run)

-- Handlers.streamLogs
unfoldable pub stream_logs :
    Option Identity → Text → Bool → Bool → List RunRow → Sources → ℕ × List Frame
stream_logs none run_id ok flushes rows s = (401, [])
stream_logs (some i) run_id ok flushes rows s =
    logs_found (found_run ok (get_run i.tenant_id run_id rows)) flushes s
