-- ===== src/Lib.antt =====
-- EdgeLink is an edge gateway: plugins poll devices and put their tags into a device table, messages
-- go over a bus inside the process and through shared memory between processes, timers drive the
-- polling, and a control socket answers commands. These files model its parts in C++.
--
--   Device             include/edgelink/device.h: tags, devices, their states
--   DeviceManager      src/device_manager.cpp: the device table; `Op`, `step` and `run` are its calls
--   Connection         src/device_connection_state_machine.cpp: the state of one connection, kept in
--                      step with the table, which is passed along as the object points to it
--   Backoff            src/reconnect_backoff.cpp: the delay before the next attempt to connect
--   Timer, Scheduler   src/timer.cpp, src/device_scheduler.cpp: polling tasks, each with a timer
--   Message            include/edgelink/message_bus.h: what is published
--   MessageBus         src/message_bus.cpp: subscriptions by topic, with a reverse index
--   Codec              src/ipc_message_codec.cpp: messages as bytes, and back
--   SharedMemory       src/shared_memory_buffer.cpp: a buffer that several processes map
--   EventFd            src/eventfd_notifier.cpp: counted notifications
--   Bridge             src/shared_memory_message_bridge.cpp: messages of other processes, read with
--                      the codec from shared memory when the eventfd fires, published on the bus
--   Control            src/control_command_processor.cpp: the commands of the control socket
--   Modbus             plugins/modbus_plugin/modbus_plugin.cpp: configuration, registers, and in
--                      `Client` the plugin that connects, polls and stops, over the table, the state
--                      machine and the backoff
--   ThreadPool         src/thread_pool.cpp: workers over one queue, as a step relation
--   EventLoop          src/event_loop.cpp, src/channel.cpp: registered channels, and the dispatch of
--                      the events that epoll reports
--   TcpServer          src/tcp_server.cpp: the echo server, over the event loop
--   UnixServer         src/unix_domain_server.cpp: the control socket and the file at its path
--   Storage            src/storage_service.cpp: values as text, stored messages, the outbox of MQTT;
--                      `Contract` says what the outbox promises, `Refinement` that it keeps it
--   Mqtt               src/mqtt_service.cpp: the client, the payload, forwarding, and in `Replay` the
--                      thread that sends the outbox, between the other threads, over the contract
--   Attachment         attachMessageBus and detachMessageBus of the storage and MQTT services
--   PluginManager      src/plugin_manager.cpp: plugins by name
--   SystemMonitor      src/system_monitor.cpp: the figures that it reads from the kernel's files
--   Prelude            lists, dictionaries, keys and tests that all of these share
--   Tests              concrete runs
--
-- An object is a record and a method a function that returns the result and the new record; a method
-- that throws returns an option. Strings and byte vectors are lists of bytes; an unordered map is an
-- association list without double keys, read by key. 64-bit counters wrap; the theorems that need
-- them not to say so. What the system answers in a call (whether it creates, maps or arms something,
-- what the clock shows) is an argument, so the theorems hold for every answer; the objects that the
-- kernel keeps for several processes, shared memory and the counter of an eventfd, are a state that
-- is passed along and follows the POSIX and Linux manuals. Methods that run under a mutex are one
-- step. A loop recurses on the list that it walks, or on the list of what the system answers; where
-- that list ends, the loop waits. Three loops have fuel: one more than the number of waiting messages
-- is enough for `replay_messages`, and the number of plugins for `unload_all`, since each round takes
-- one out; `read_counters` has the length of the text, since each counter takes a byte of it.
--
-- SQLite is a parameter, a record of its calls, and the floating-point conversions are another; the
-- theorems that need more have as hypotheses what SQLite documents of an insertion, a selection and a
-- deletion. What sockets, epoll, libmosquitto and the dynamic linker answer is an argument; in the
-- step relation of `Mqtt.Replay` a broker keeps which messages are in flight and acknowledges those,
-- and the IDs of these messages differ, as libmosquitto documents.
--
-- Not modelled: logging; the wakeup of the event loop; the SocketCAN plugin and the Modbus RTU
-- transport, which come after these parts; the wiring in `main`, the configuration file, signals and
-- the notifications of systemd, which are input, output and library calls. The floating-point
-- operations of the Modbus plugin are a parameter.
pub mod Prelude
pub mod Device
pub mod DeviceManager
pub mod Connection
pub mod Backoff
pub mod Timer
pub mod Scheduler
pub mod Message
pub mod MessageBus
pub mod Codec
pub mod SharedMemory
pub mod EventFd
pub mod Bridge
pub mod Control
pub mod Attachment
pub mod Storage
pub mod EventLoop
pub mod TcpServer
pub mod UnixServer
pub mod PluginManager
pub mod SystemMonitor
pub mod Mqtt
pub mod Tests
pub mod Modbus
pub mod ThreadPool
