-- ===== src/Bench/Config.antt =====
-- bench/src/gen.rs: what a run of the generator is given. The grace is in nanoseconds.
use uring_mqtt.Common.{ℕ}
use uring_mqtt.Bench.Recorder.{Window}

pub data Mode : Type 0 where
  throughput : Mode
  latency : ℕ → Mode
  connections : Mode

pub record GenConfig : Type 0 where
  pub mode : Mode
  pub qos : ℕ
  pub connections : ℕ
  pub qos1_window : ℕ
  pub origin_ns : ℕ
  pub window : Window
  pub drain_grace_ns : ℕ
