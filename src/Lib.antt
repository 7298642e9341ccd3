-- ===== src/Lib.antt =====
-- A model of the AviationWX bridge (Go), a small appliance on a local network. It captures camera
-- images into per-camera queues on a memory disk, uploads them to the AviationWX servers, and forwards
-- the observations of weather stations.
--
-- The parts, and how they interact:
--   * Queue models internal/queue. Queue.Names is the naming of image files (`<milliseconds>.jpg`) and
--     `parseTimestampFromFilename`. Queue.Disk is a directory and what the operating system answers,
--     with `listFilesSortedLocked`. Queue.State has the data of types.go and the health rules
--     (`updateHealthLevelLocked`, `maybeResumeCaptureLocked`, `getCapacityPercentLocked`). The
--     operations of queue.go are in Queue.Removal (`MarkUploaded`, `DropQueuedImage`,
--     `ExpireOldImages`, `EmergencyThin`), Queue.Thinning (`thinQueue`), Queue.Intake (`Enqueue` with
--     its space checks and the retry of its write, `NewQueue`, `scanDirectory`) and Queue.Reading
--     (`Dequeue`, `DequeueNext`, `DequeueBatch`, `Peek`). Queue.Manager is manager.go.
--     Queue.Tracking, Queue.Health, Queue.Dequeue, Queue.Outcome and Queue.Survivors hold proofs.
--   * Scheduler models parts of internal/scheduler: Gate is capture_gate.go, with the interleavings of
--     the capture workers; Degraded is degraded.go; Backoff is backoff.go with the two ends of a
--     capture in capture.go; Capture is the worker of capture.go, which joins the gate, the backoff,
--     the clock and the queue; Upload is upload.go: the worker's state (Upload, Failures), one upload
--     (Transfer), and the pool (Schedule). An upload reads the queues through `DequeueNext` and
--     changes them through `MarkUploaded` and `DropQueuedImage`, which are the definitions of Queue.
--   * Station models the stations of internal/station: Ring is ring.go, Uplink is the circuit breaker of
--     uplink.go, Delivery is `flushRing`, `postObservation` and `handleWeatherPostErr` of manager.go over
--     both, and Catchup the ticks that drain the ring. Status is the status of each station with the log
--     of payloads, Polling the poll of a station, Hub `syncInterceptorHub`, Sync `SyncFromConfig` over
--     these, and Ingest what devices send to the listener (interceptor.go). Health is
--     `WeatherSubsystemHealth`, and Times shows what is posted. A station is the value of Config that the
--     service lists.
--   * Clock models internal/time: Health is `TimeHealth` of types.go, Authority is
--     `DetermineObservationTime` of authority.go, by which a capture gets the time that `Enqueue` takes.
--   * Scheduler.Orchestrator is orchestrator.go of internal/scheduler, which adds and removes cameras in
--     the queue manager, the capture workers and the upload worker at once, sets the limits of both, and
--     wakes captures that wait for the gate (Waking).
--   * Config models internal/config: Values has the data of types.go and the other files, Settings how
--     they are read, Ids the ids, which name the files and queues of cameras and stations, Upload the
--     SFTP accounts (upload_identity.go), Station and Api the validation of stations and of the link to
--     the API, Files the files of a directory with `containedConfigPath` and the backup and write of a
--     save. Service is service.go over these, with Stations (station_service.go) and Loading (`reload`,
--     `NewService`), and Migrate is migrate.go. The orchestrator follows the events of the service
--     through cmd/bridge, which is not modelled.
--   * Trust.HostKeys models internal/upload/hostkey.go, the keys of the upload servers that are pinned at
--     the first connection. Trust.Roster and Trust.Fingerprints model
--     internal/update/trusted_hostkeys.go, the lists of keys that may replace a pinned one; a check of a
--     key takes the list of its endpoint as an argument.
--   * Release.Checker models internal/update/checker.go, which compares the version of the program with
--     the newest release.
--   * Prelude holds what these share: tests on native numbers, lists, and Go's time.
--
-- The state of each part is a record, an operation is a function from the state to the state and the
-- result, and where several goroutines work on one state a step relation has one constructor for each
-- thing that can happen. What the environment answers (the disk, the clock, a client, a random number)
-- is an argument. Time is the count of nanoseconds since Go's zero time. A `float64` that only stands
-- for a fraction is that fraction; the float that chooses among the candidates of `thinQueue` is a
-- parameter, over which the theorems quantify.
--
-- Fuel: `decimal` divides `n + 1` times at most, since each division makes a positive number smaller.
-- The search of `Enqueue` for a free name runs once more than the largest number of a name in the
-- directory, after which no name is taken; Queue.Tracking.FreeName shows that this is enough where
-- `os.Stat` answers for each name whether it is there. The loop
-- over the prefixes of a fingerprint runs as often as the text is long, each round makes it shorter, and
-- Trust.Fingerprints.Normal shows that no prefix is left. Every
-- other loop is a recursion on a list or on a count.
--
-- Bounds: the counters of Go are `int` and `int64`. They are natural numbers here: an event would have
-- to happen 2^63 times to pass them, and where Go could count below zero the agreement of a
-- queue's counters with its directory rules it out. Milliseconds in file names keep the range of an
-- int64, which the theorems name.
--
-- Not modelled: the web server and its pages (internal/web), the program's start (cmd/bridge), the
-- capture of images (internal/camera, internal/image), the SFTP client (internal/upload), the HTTP
-- client of the API (internal/bridgeapi), and the discovery and the drivers of stations, since they are
-- input and output over libraries; the reading of EXIF data, since an external tool does it; the old
-- validator of internal/config, since nothing calls it; the fetches of the rosters (internal/update),
-- which are HTTP; and the timers of capture.go, which only repeat a wake.
pub mod Prelude
pub mod Queue
pub mod Station
pub mod Scheduler
pub mod Clock
pub mod Config
pub mod Trust
pub mod Release
