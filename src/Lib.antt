-- ===== src/Lib.antt =====
-- InduSense: event-driven monitoring of industrial sensors. Readings come in over MQTT; the
-- ingestion service validates them and puts them on Kafka; the stream processor removes
-- duplicates, stores them in InfluxDB, keeps windows of recent samples and passes them on; the
-- anomaly detector looks for anomalies at three levels; the alert service turns anomalies and
-- machine stops into alerts, and alerts into incidents in Postgres. Writes to Kafka, to InfluxDB
-- and to a webhook go through a retry with backoff behind a circuit breaker, other than dead
-- letters and the events of alerts.
--
-- The files and the code that they model:
--
-- - Base, with Base/Tests, Base/Lists, Base/Order and Base/Dict: tests, lists, sorting and
--   dictionaries that the others share; Float: floating-point numbers as an interface, whose
--   comparison is assumed irreflexive and transitive where a theorem needs it.
--
-- - Reliability: shared/reliability.py (`retry_with_backoff`, `CircuitBreaker`) and the
--   `protected_write` of the Kafka clients. Reliability/Retry, Reliability/Breaker and
--   Reliability/Outage prove what the retries, the states and a long outage come to.
--
-- - Incidents: shared/incidents.py. Incidents/Tables has the statements over the two tables,
--   Incidents/Store the methods `open_or_attach`, `transition`, `assign` and `resolve`,
--   Incidents/Lifecycle the life cycle as a relation; the files under Incidents/Store prove.
--
-- - Kafka: `produce_and_wait` of the services' Kafka modules, and a client with its breaker.
--   Events: shared/events.py.
--
-- - Ingestion: services/ingestion/validate.py; Ingestion/Sink: kafka_producer.py;
--   Ingestion/Handlers: the handlers of main.py. Ingestion/Checks and Ingestion/Handlers/Durable
--   prove.
--
-- - Stream: services/stream-processor. Stream/Window is window.py, of which Stream/Window/Order,
--   Contents and Stats prove, Stream/Registry registry.py, Stream/Process dedup.py, influx.py and
--   main.py.
--
-- - Detector: services/anomaly-detector. Detector has rules.py, detect.py and the check of
--   stats.py, Detector/Series the trackers of stats.py, Detector/Features featurestore.py,
--   Detector/Forest isolationforest.py, Detector/Catalog catalog.py, Detector/Process
--   idempotency.py and main.py.
--
-- - Alerts: services/alert-service. Alerts has rules.py, conditions.py and anomalycount.py,
--   Alerts/Store store.py, Alerts/Notify notify.py, Alerts/Engine and Alerts/Engine/Handlers
--   main.py.
--
-- - Kafka/Consumer: the consume loop that the services share, with Kafka/Consumer/Skipped;
--   Stream/Loop, Detector/Loop and Alerts/Loop are its instances. Stream/Label, Detector/Trainer
--   and Alerts/Gauge: the label of a window, the round of the forest trainer (forestregistry.py)
--   and the gauge of open incidents.
--
-- - Audit: shared/audit.py. Auth: shared/auth.py up to the passwords; Auth/Token: its tokens;
--   Auth/Service: its class `Service`. Auth/Rbac proves of the permissions, Auth/Token/RoundTrip
--   of tokens, and Auth/Service/Login, Keys and Rotation of what a login, the keys in Redis and a
--   sequence of calls come to.
--
-- - Incidents/Query: the queries of shared/incidents.py, with Incidents/Query/Listed.
--
-- - Api: services/api. Api has response.py, pagination.py and the checks of middleware.py, with
--   Api/Access; Api/Limits the rate limiter and `ClientIPResolver` of middleware.py, with
--   Api/Limits/Window; Api/Incidents handlers_incidents.py, with Ownership and Tenancy;
--   Api/Sessions handlers_auth.py, with Spent; Api/Feed ws_alerts.py, with Isolation and
--   Delivery; Api/Alerts handlers_alerts.py, with Acknowledged; Api/Devices handlers_devices.py,
--   with Rotation; Api/Telemetry handlers_telemetry.py, with Disclosure; Api/Factories
--   handlers_factories.py; Api/Service what main.py and handlers_health.py do besides.
--
-- - Simulator: simulator/faults.py, machine.py and sensorgen.py; Simulator/Catalog loader.py and
--   the outcome of publisher.py; Simulator/Sensor a turn of `_run_sensor` of main.py, with
--   Numbering; Simulator/Run the queue and the tasks of main.py, with Accounts and Drain.
--
-- - Ingestion/Mqtt: services/ingestion/mqtt_client.py, and the workers of main.py, with
--   Ingestion/Mqtt/Kept.
--
-- - Examples: small inputs, on which the definitions are run and the theorems applied.
--
-- State is passed explicitly: a method takes the record of its object and returns it changed. A
-- statement of SQL is an action on the rows of its table; what other connections commit between
-- two statements is a function on the table, in `open_or_attach` one for each of the five gaps
-- between its statements (`Gap`). The table of audit events may refuse an event by a test that it
-- carries, such as the foreign key of the actor; a text that a statement on incidents itself
-- refuses is not modelled, other than the empty machine id. Kafka, InfluxDB and a webhook's server
-- are a log of what has been taken and an oracle of answers, one for each request, by which a
-- request may be taken and yet time out. A clock reading, a generated id and a random number are
-- arguments. A timestamp is a number of microseconds, a delay or a reading of a breaker's clock a
-- number of milliseconds.
--
-- PyJWT, bcrypt, the module ipaddress, InfluxDB's query interface and random.Random are
-- parameters: records of functions, with what a theorem relies on as its hypothesis. A call of the
-- auth service reads the clock once. In Auth/Service, the queries on users and roles, the SET of a
-- refresh token and the INSERT of the audit log may fail; the other statements are answered. What
-- the rate limiter answers is an argument of the routes of Api/Sessions. The text that `decode`
-- with replacement makes of a payload is given with the message. An ORDER BY leaves rows with
-- equal keys in the order of the table. Each request of a route runs its statements with nothing
-- in between, unless the definition takes what other connections commit as an argument.
--
-- A consumer's position moves past each message that it polls, a commit of a message sets the
-- group's offset to the one after it, and a consumer that starts polls from the committed offset:
-- so Kafka's client documents. A consume loop has its service's state to itself, though the two
-- loops of the alert service share a database.
--
-- A worker of the simulator takes a job from the queue in one step and counts its outcome in
-- another, so that jobs of several workers are in flight at once; `work` of Simulator/Run/Drain is
-- the round of the last worker. An MQTT broker redelivers a message under its id until it is
-- acknowledged.
--
-- The loops are structural recursion: on the attempts that are left, on the list, or on the depth
-- of a tree that is left. `publisher_worker` alone has fuel, the number of its turns, and one turn
-- more than there are jobs on the queue is enough, as is proved.
--
-- Not modelled: more than one partition of a topic, and the rebalancing of a group; the connection
-- of the MQTT client; the connection of the MQTT publisher and the timers of the simulator;
-- configuration, health checks, metrics, logging and tracing, CORS and the start and stop of
-- threads; the seed script; a send to a websocket that never ends, and the task in which the hub's
-- loop runs it; the text of an exception or an answer; and, in ingestion and in the clients, a
-- message that cannot be written as JSON.
pub mod Base
pub mod Reliability
pub mod Incidents
pub mod Kafka
pub mod Events
pub mod Ingestion
pub mod Float
pub mod Stream
pub mod Detector
pub mod Alerts
pub mod Audit
pub mod Auth
pub mod Api
pub mod Simulator
mod Examples
