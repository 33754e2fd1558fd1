-- ===== src/Tests.antt =====
-- Concrete runs: each applies a theorem of the library where its conditions hold.
mod BusRuns
mod Databases
mod StorageRuns
mod MqttRuns
mod ServerRuns
mod MonitorRuns
mod DeviceRuns
mod CodecRuns
mod MemoryRuns
mod ModbusRuns
mod PoolRuns
