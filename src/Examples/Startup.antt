-- ===== src/Examples/Startup.antt =====
-- The demo programs when their log file does not open, and when it does.
use linux_iot_gateway.Common.{false, none, ◌≡◌, refl, codes}
use linux_iot_gateway.LogManager
use linux_iot_gateway.GatewayAck
use linux_iot_gateway.GatewayPipeline
use linux_iot_gateway.GatewayTimeout
use linux_iot_gateway.ThreadSafeLog

ack_without_log : GatewayAck.main false ≡ none
unfolding GatewayAck.main LogManager.set_max_cached_logs LogManager.set_auto_flush
    LogManager.set_console_enabled
ack_without_log = refl

timeout_without_log : GatewayTimeout.main false ≡ none
unfolding GatewayTimeout.main LogManager.set_max_cached_logs LogManager.set_auto_flush
    LogManager.set_console_enabled
timeout_without_log = refl

pipeline_without_log : GatewayPipeline.main false ≡ none
unfolding GatewayPipeline.main LogManager.set_max_cached_logs LogManager.set_auto_flush
    LogManager.set_console_enabled
pipeline_without_log = refl

workers_without_log : ThreadSafeLog.main false (codes "1") (codes "2") ≡ none
unfolding ThreadSafeLog.main LogManager.set_max_cached_logs LogManager.set_auto_flush
    LogManager.set_console_enabled
workers_without_log = refl
