-- ===== src/Lib.antt =====
-- A verification library for OWEN (backend/app and owen-voice), a call platform whose inbound calls are driven by
-- operator-drawn flow graphs.
--
-- The parts and how they interact. A flow graph is a JSON object: `nodes` by id, each with a type,
-- a config and its wired ports (`next`), and a `default_fallback`. backend/app/flows/validator.py
-- decides whether a graph may be activated, and warns of unwired ports, unreachable nodes and
-- cycles. backend/app/flows/interpreter.py runs an activated graph against a live call: it walks
-- from node to node, runs the handler of each, and routes by the port that the handler returns.
-- backend/app/flows/variables.py resolves names, templates and conditions for the handlers.
--
-- Which file models what.
--   Common: JSON values as Python sees them (`Value`; `items`, `get`, `has`, `truthy`), results of
--     code that may raise (`Result`), texts and their characters, `str` of a value, and dicts as
--     their items in insertion order.
--   Flows/Validator: `validate_graph` and its helpers. Ports holds the tables, Errors the checks,
--     Warnings and Cycles the warnings; WellFormed is the specification. Entries, Nodes,
--     Acceptance, Worklist, Reachability, CycleSteps, CycleSearch and Acyclic hold proofs.
--   Flows/Variables: `resolve_var`, `interpolate` (Template), `evaluate_conditions` (Conditions).
--     FirstMatch and Enough hold proofs.
--   Flows/Interpreter: Effects has the calls and events that leave the interpreter, and `World`,
--     the injected collaborators; Machine the fields of `FlowInterpreter` and the monad of its
--     methods, in which what was written before an exception stays written; Hours `evaluate_hours`;
--     Nodes the thirteen handlers; Run the loop. Traces, Quiet, Rounds, Made, Fates and Outcomes hold
--     the proofs on what a run does to the call.
--   Flows/Transfer: backend/app/flows/transfer.py, the destinations an agent may transfer a call to
--     (Allowlist and FollowUps hold proofs).
--   Flows/Service: backend/app/flows/service.py, versions of flows.
--   Telephony/Ownership: backend/app/telephony/ownership.py, the registry of calls that a human owns
--     (Operations has sequences of its operations; Held, Tracked and Claims hold proofs).
--   Telephony/Monitor: backend/app/telephony/monitor.py, listening to a call and taking it over; Desk
--     has the ARI client and the log of the calls to it, Takeover the proofs.
--   Flows/Dtmf: backend/app/flows/dtmf.py, the queues through which the reader of ARI's events feeds the
--     client (Listeners, Watching and Bounded hold proofs). A queue object is a number.
--   Providers/Ari: `AsteriskAriClient` of backend/app/providers/asterisk_client.py. Client has its
--     fields, the requests it makes and the monad of its methods, which may fail or be cancelled, at a
--     wait or at a request;
--     Events reads an ARI event; Waits has the loops that wait for one; Channels the operations on
--     one channel or bridge, Dial `dial_number` and its kin, Ring `ring_and_bridge`, Outbound
--     `run_outbound_call`, Voicemail `voicemail` and `read_digit`. Resources says which legs and
--     bridges are there by the requests made; Keeping, Owing and Dialling have rules for actions
--     that leave nothing else; Teardown, Rings, Outbounds, Ports, Answered, Guard and Music hold
--     proofs. Telephony/Monitor/Stranded relates its `snoop` to a listen.
--   Services/Sms: backend/app/services/sms.py (OptOut and Forward hold proofs).
--   Services/Queue: backend/app/services/queue.py, the table of jobs.
--   Services/Ingestion: `ingest_status_event` of backend/app/services/ingestion.py with the rule of
--     services/number_match.py and the ranks of providers/base.py. Write has the writes of a
--     call, Whole the events and the whole;
--     Forwarding and Settled say what they do to a row, Ranks, Counting and Attribution hold proofs.
--   Services/Dlr: backend/app/services/dlr.py, delivery receipts; Correlate has `correlate` and `apply`,
--     Lists and Again hold proofs.
--   Services/Inbox: backend/app/services/inbox_threads.py, the threads of contacts; From has the
--     numbers that replies go out from, Counts, Reopening and Sending hold proofs.
--   Providers/Asterisk: backend/app/providers/asterisk.py, the normalization of channel events for
--     Services/Ingestion, with `_to_e164` of providers/bulkvs.py; Router has `AsteriskEventRouter`
--     (Passing has what it passes on),
--     Records what is made of recordings and of rows of the table of calls (CDR), and Reconcile the
--     reconciler of backend/app/workers/asterisk_cdr.py, which ingests these rows (Logs, Replayed and
--     Beside hold proofs). Services/Ingestion/Logged has what an ingestion does to the log of events.
--   Voice/AudioSocket: owen-voice/app/audiosocket.py, the frames on the wire and the parser of a stream of
--     bytes (Uuid has the name of a session in a frame; Stream, Wire and Kept hold proofs).
--   Voice/Session: the counters, the verdict and the registry of owen-voice/app/session.py.
--   Voice/Server: `handle_connection` of owen-voice/app/server.py, frame by frame; Loop has its loop over
--     what arrives and its `finally`, Closing, Frames and Echo hold proofs.
--   The files named Examples hold concrete runs.
--
-- Parameters. The collaborators (ARI, the agent, text messages, HTTP) answer by the history of the
-- calls made before, and may raise. `float`, `int` of a value, `re.search`, `str.upper`, time zones
-- and the clock are parameters too, since they are Python's and not this program's. Floats are
-- carried by their printed text. Digits in `int(text)` are those of ASCII.
--
-- ARI accepts or refuses a request by the requests made before. What a wait of the client gets, and
-- when, is a list of arrivals: events, digits, the end of the time, or an exception in the waiting
-- task; a wait takes what it reads and leaves the rest. The task may also be cancelled at a request, which
-- then counts as made. Time limits are whole seconds.
--
-- Bounds and fuel. The loop of the interpreter runs on the rounds that are left of `max_steps`, the
-- bound of the source. The search for a cycle runs on one more than the number of nodes, since
-- every visit paints a node grey that was white; the worklist of the reachability search on one more
-- than the seeds and edges; templates on the number of characters. The proofs show that these are
-- enough: what the searches promise holds without a condition on fuel. The parser of AudioSocket runs on
-- the length of its buffer, of which a frame takes three bytes at least.
--
-- Not modelled: logging, the HTTP transport of the ARI client and its two probes, durations, the texts
-- of recording names, the conversation of an agent in owen-voice (a parameter of its server), and the
-- parts of the program that are processes, routes, vendor clients and user interface.
pub mod Common
pub mod Flows
pub mod Providers
pub mod Services
pub mod Telephony
pub mod Voice
