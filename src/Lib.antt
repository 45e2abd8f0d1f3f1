-- ===== src/Lib.antt =====
-- FieldPilot AI: a verification library of the Python package fieldpilot.
--
-- The program watches a construction site. Detectors emit events; the trigger engine turns a flood of
-- detections into few alerts, each tracked in a cache, and publishes them on the event bus; the
-- orchestrator takes each event from the bus, files it, lets the rules engine ask for actions, and
-- escalates what a verifier confirms: to the dashboards and the worker's device through the broadcast
-- hub, and to the people on duty by notifications. Edge devices queue their events while the central
-- server is out of reach. Beside that chain stand the services of the site: who is in which zone, the
-- messages and questions of the workers, with answers from the specification documents, who may log
-- in, what supervisors decide on alerts, and whether a worker has noticed a hazard. Most services keep
-- their records in the tables of one store.
--
-- Parts, and the files that model them:
--   Common     the shared vocabulary: Boolean tests on the native numbers, equality as an interface,
--              dicts with insertion order, texts, signed integers, lists, chains of options.
--   Events     fieldpilot/events/schema.py. Value has the JSON values with Python's truth and equality,
--              Schema the Event, its types and severities, and `dedup_key`. Bus is the InMemoryEventBus
--              of fieldpilot/events/bus.py, Handing the proofs. Bridge is fieldpilot/events/bridge.py
--              with the hazards of fieldpilot/core/types.py, Collapsing the proofs.
--   Triggers   fieldpilot/triggers. Cache is InMemoryTriggerCache; Alert has Alert and `_merge`; World
--              the cache and the messages on the bus, with `_save` and `_emit`; Engine is `process`,
--              one function per branch; Operator has resolve, suppress, unsuppress, get and
--              set_verdict; Sweep has list_tracked and sweep_once. Tracked, Detection, Merging, Burst,
--              Suppression, Invariant, Runs, Scan and Sweeping hold the proofs.
--   Storage    fieldpilot/storage/docstore.py. Table has the operations of a Table on typed records;
--              Lookup, Query, Rows, Subset, Every, Size and Bulk say what reads, queries and loops over
--              a query's rows find and keep, for every table of the services.
--   Workforce  fieldpilot/workforce/occupancy.py. Occupancy has enter, leave and the reads; Presence and
--              CheckIn the proofs. Messages is fieldpilot/workforce/messages.py, Reading its proofs;
--              Questions is fieldpilot/workforce/questions.py, from the raising of a question to its
--              automated answer and its review, Review and Answers the proofs.
--   Zones      fieldpilot/zones/service.py. Service is ZoneService with its cache, Coherence the proofs.
--   Offline    fieldpilot/offline. Outbox is the queue, Forwarder the pass that drains it; Delivery,
--              Queue and Purge the proofs.
--   Safety     fieldpilot/safety/attention.py. Attention/Machine is HazardAttention, Attention/Tracking
--              AttentionTracker; Engagement has the proofs.
--   Rules      fieldpilot/rules/engine.py. Operators is `_OPS`; Engine/Registry has the rules and their
--              management, Engine/Evaluation `evaluate`; Due says when a rule is due, and
--              Order, Choice, Firing, Cooldown and Management hold the proofs.
--   Reasoning  fieldpilot/reasoning/rag.py. Rag has the retrieval from the documents' index, Scope the
--              proofs, Sample a small index.
--   Feedback   fieldpilot/feedback/service.py. Service is the FeedbackService, Claims the proofs on
--              what a training run takes and gives back.
--   Broadcast  fieldpilot/broadcast/hub.py. Hub is the BroadcastHub, Routing the proofs.
--   Alerts     fieldpilot/alerts/dispatcher.py. Dispatcher is the AlertDispatcher, Spacing the proofs.
--   Models     fieldpilot/models_registry/registry.py. Options has the registered checkpoints, Files
--              the files, Registry the verified download and the loading; Integrity and Loading the
--              proofs.
--   Notifications  fieldpilot/notifications/service.py. Service is the NotificationService; Attempts and
--              Window the proofs.
--   Platform   fieldpilot/backend/service.py. Records has the documents that it files, Setup the state
--              of the Orchestrator, Actions what an action of a rule does, Handling `handle_event`, one
--              function per stage, with `save_event` of fieldpilot/events/store.py; Telling says what
--              people are told and what is recorded, and Audiences, Gate, Extension, Escalation and
--              Warning hold the proofs, the last across the orchestrator and the hub.
--   Auth       fieldpilot/auth/service.py. Validation has the checks of arguments and headers, Accounts
--              the records; Service is the AuthService, its children State with the lookups, Tokens,
--              Registration and Authentication; Sessions, Revocation, Login, Expiry and
--              Uniqueness hold the proofs.
--
-- How the code is read:
--   * An operation takes its component's state and returns the new one with its result. An exception
--     that a caller can see is a value of a result type.
--   * Times are natural numbers in milliseconds; confidences and the numbers of JSON values are in
--     thousandths. The clock is read once per operation and is an argument, so is what uuid4 and
--     `secrets` return.
--   * Rows have the columns that the services write, each of one type. A filter is a test on rows.
--     Rows that the order of a query does not tell apart come in the order of insertion. The limits of
--     the queries are those of the code, and the theorems that need a limit not to be reached say so.
--   * Loops are structural recursions over the lists that the code loops over, so none needs fuel.
--   * The parameters of the model: how Python writes a value as a text (`repr`, `show`) and reads one
--     as a number or a time, `str.lower`, the text formatter, pydantic's `model_dump`, hashlib's
--     functions, the central server behind httpx, the embedder and the Qdrant client, the language
--     model, the verifier and the drafter of RFIs, the senders of notifications and the sockets (does
--     an attempt succeed), what a URL serves and which files YOLO loads, the phrases of
--     fieldpilot/alerts/speech.py, and the check of an image's path on the file system. A theorem that
--     needs something of what one of them returns has it among its conditions.
--
-- Not modelled: the background tasks of asyncio, PostgreSQL and Redis (the code uses them in place of
-- SQLite and of the cache in memory), the split of records into columns and JSON, the occupancy
-- report, the seeding of accounts and zones, and the components that the manifest lists as such: the HTTP
-- routes, the vision pipeline, the models, sound and speech, and the clients in other languages.
pub mod Common
pub mod Events
pub mod Triggers
pub mod Storage
pub mod Workforce
pub mod Zones
pub mod Offline
pub mod Safety
pub mod Reasoning
pub mod Feedback
pub mod Alerts
pub mod Broadcast
pub mod Models
pub mod Notifications
pub mod Platform
pub mod Rules
pub mod Auth
