-- ===== src/Logging/Tests.antt =====
-- Loggers on which the theorems about src/lib/ZBLogger.ts and src/lib/SimpleLogger.ts are run.
use zeebe_client_node_js.Base.{◌≡◌, true, none, some, [], if◌then◌else◌, leb}
use zeebe_client_node_js.Logging.Logger
use zeebe_client_node_js.Logging.Threshold

abbrev worker_logger : Logger.Logger
worker_logger = record {
  tag = Logger.Tag.zbworker;
  loglevel = "ERROR";
  color_fn = λ m. m;
  task_type = some "pay";
  id = some "gRPC Channel";
  is_console = true;
  colorise = true;
  poll_interval = some 300;
  namespace = none;
}

call-threshold_example :
    Threshold.call (λ m. m.message) worker_logger "f:1" Threshold.Method.info_call "hello" [] ≡ (
      if leb (Threshold.threshold "ERROR") 30
      then some (
          Threshold.written
            (λ m. m.message)
            worker_logger
            "f:1"
            Threshold.Method.info_call
            "hello"
            [])
      else none)
call-threshold_example =
    Threshold.call-threshold (λ m. m.message) worker_logger "f:1" Threshold.Method.info_call "hello"
      []
