-- ===== src/Examples.antt =====
-- Runs on concrete inputs, in which the theorems' hypotheses hold.
mod PolicyRuns
mod NodeRuns
mod UartRuns
mod FrameRuns
mod DeviceRuns
mod LogRuns
mod GatewayRuns
mod TimeoutRuns
mod SensorRuns
mod EchoRuns
mod ParserRuns
mod RingRuns
mod QueueRuns
mod BufferRuns
mod Startup
mod WorkerRuns
mod ScopedFdRuns
