-- ===== src/Lib.antt =====
-- A model of the core of AURA-AIOSCPU, with theorems about it.
--
-- The program is an operating-system layer in Python. This library models the part of its kernel that
-- decides what may be done, the part that runs and paces the system, its configuration, the services
-- that order and start the others and keep them alive, and the stores of the conversation, the peers,
-- the models and the files. Functions of the source are definitions of the same name; a method is a
-- function from the object to what it returns and the object that it leaves, an exception is a value
-- of `Prelude.Outcome`, and a call to the outside is recorded in the state that it would change.
--
-- What models what:
-- - Prelude: Python's dictionaries, sets, strings and heapq as the models use them, and their lemmas.
-- - Kernel.Permissions: kernel/permissions.py, `PermissionModel`.
-- - Kernel.Api: kernel/api.py, `KernelAPI`. Each method is a request that `handle` answers: it asks the
--   permission model and hands one call over to a subsystem of the kernel.
-- - Kernel.Override: kernel/override.py, `OverrideGuard`, `OverrideLog` and `CommandOverrideLayer`, whose
--   data are in Kernel.Override.Requests, and the line of kernel/__init__.py that wires the host bridge
--   into the layer.
-- - Kernel.Privilege: kernel/privilege.py, `AURAPrivilege`. It calls the models of the override layer and
--   of the kernel API.
-- - Kernel.EventBus: kernel/event_bus.py, `EventBus`, with the callbacks as a parameter.
-- - Kernel.Loop: kernel/loop.py, `AdaptiveTick` and `KernelLoop`. What a tick finds is its input.
-- - Kernel.Scheduler: kernel/scheduler.py, `Scheduler`, with what a task or a job does as a parameter.
-- - Kernel.Watchdog: kernel/watchdog.py, `KernelWatchdog`, over the model of the service manager.
-- - Services.Manager: services/__init__.py, `ServiceManager`. The steps of the service threads are
--   operations of the model, and so are the two parts of a stop, so that a sequence of operations is an
--   interleaving.
-- - Services.HealthMonitor: services/health_monitor.py, over the model of the service manager.
-- - Services.JobQueue: services/job_queue.py, with what a job does as a parameter; the data are in
--   Services.JobQueue.Jobs.
-- - Services.Registry: services/registry.py, `ServiceRegistry`: Descriptors holds the data, Parser the
--   service files and `discover`, Order the load order. What the classes of the services do and what
--   configparser reads are parameters.
-- - Services.Storage: services/storage_service.py, `StorageService`, over files under their paths; which
--   file a written path leads to is a parameter.
-- - Models.Manager: models/model_manager.py, `ModelManager`, with the file system and the engines as a
--   parameter.
-- - Services.Logging: services/logging_service.py, `LoggingService`, with its log file.
-- - Services.Packages: services/package_manager.py, `PackageManager`, with pip as a parameter.
-- - Kernel.Mirror: kernel/mirror.py, `LegalAlternativeFinder` and `MirrorModeEnforcer`.
-- - Hal: hal/__init__.py, `HAL` with its virtual bus, memory and processor.
-- - Kernel.Modes: kernel/modes/hardware.py, internal.py and universal.py, over the model of the HAL.
-- - Kernel.Config: kernel/config.py, `Config`: the merge of the files and the environment.
-- - Aura.Memory: aura/memory.py, `ConversationMemory`, with its file.
-- - Vnet.PeerRegistry: vnet/peer_registry.py, `PeerRegistry`, with its file.
--
-- A JSON file is a value of a type of its own; `Prelude.Json` writes documents to it and reads them. The
-- theorems on files assume that a document is read as it was written, which holds for the finite
-- numbers, texts and lists that the program writes.
--
-- Numbers are natural numbers: counters do not go below zero in the source, and times are readings of a
-- clock in milliseconds. Three functions have fuel. `Kernel.EventBus.drain` takes one unit for an event and
-- one for the end: where no callback publishes, the number of queued events and one more is enough.
-- `Kernel.Scheduler.run_jobs` takes one for a due job and one for the end: a tick gives it the number of
-- jobs and one more, which is enough as a job that has run is not due again in the same tick.
-- `Services.Registry.Order.visit` takes one for each call that is open: every open call has marked a
-- service that was not marked, so that the number of services and one more is enough, as is proved.
--
-- Left out are texts of messages, log lines and time stamps that no operation reads; the threads that
-- only call a modelled operation again and again; the bodies of callbacks, jobs and services, which are
-- parameters; and the other components: networking, the shell, and all that only talks to the host.
pub mod Prelude
pub mod Kernel
pub mod Services
pub mod Aura
pub mod Vnet
pub mod Models
pub mod Hal
