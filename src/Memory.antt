-- ===== src/Memory.antt =====
-- include/apr/memory_tracker.hpp and src/core/memory_tracker.cpp: the gauges of memory in use. An
-- int64_t does not overflow here. The resident size of the process is what the system says.
use lightapr.Prelude.{ℕ, ◌/◌}
use lightapr.Prelude.Int.{ℤ, pos, negsuc, ◌+ℤ◌}

pub record MemoryTracker : Type 0 where
  pub registry_bytes : ℤ
  pub mqtt_rx_bytes : ℤ
  pub mqtt_tx_bytes : ℤ
  pub http_rx_bytes : ℤ
  pub http_tx_bytes : ℤ
  pub other_bytes : ℤ
  pub extra_bytes : ℤ

pub record MemoryStats : Type 0 where
  pub total_kb : ℕ
  pub registry_kb : ℕ
  pub mqtt_rx_kb : ℕ
  pub mqtt_tx_kb : ℕ
  pub http_rx_kb : ℕ
  pub http_tx_kb : ℕ
  pub other_kb : ℕ
  pub extra_kb : ℕ

unfoldable pub add_registry_bytes : MemoryTracker → ℤ → MemoryTracker
add_registry_bytes t bytes = record t { registry_bytes = t.registry_bytes +ℤ bytes }

unfoldable pub add_mqtt_rx_bytes : MemoryTracker → ℤ → MemoryTracker
add_mqtt_rx_bytes t bytes = record t { mqtt_rx_bytes = t.mqtt_rx_bytes +ℤ bytes }

unfoldable pub add_mqtt_tx_bytes : MemoryTracker → ℤ → MemoryTracker
add_mqtt_tx_bytes t bytes = record t { mqtt_tx_bytes = t.mqtt_tx_bytes +ℤ bytes }

unfoldable pub add_http_rx_bytes : MemoryTracker → ℤ → MemoryTracker
add_http_rx_bytes t bytes = record t { http_rx_bytes = t.http_rx_bytes +ℤ bytes }

unfoldable pub add_http_tx_bytes : MemoryTracker → ℤ → MemoryTracker
add_http_tx_bytes t bytes = record t { http_tx_bytes = t.http_tx_bytes +ℤ bytes }

unfoldable pub add_other_bytes : MemoryTracker → ℤ → MemoryTracker
add_other_bytes t bytes = record t { other_bytes = t.other_bytes +ℤ bytes }

unfoldable pub add_extra_bytes : MemoryTracker → ℤ → MemoryTracker
add_extra_bytes t bytes = record t { extra_bytes = t.extra_bytes +ℤ bytes }

-- `std::max<int64_t>(0, bytes / 1024)`
unfoldable pub to_kb : ℤ → ℕ
to_kb (pos n) = n / 1024
to_kb (negsuc n) = 0

unfoldable pub memory_stats : ℕ → MemoryTracker → MemoryStats
memory_stats process_rss_kb t = record {
  total_kb = process_rss_kb;
  registry_kb = to_kb t.registry_bytes;
  mqtt_rx_kb = to_kb t.mqtt_rx_bytes;
  mqtt_tx_kb = to_kb t.mqtt_tx_bytes;
  http_rx_kb = to_kb t.http_rx_bytes;
  http_tx_kb = to_kb t.http_tx_bytes;
  other_kb = to_kb t.other_bytes;
  extra_kb = to_kb t.extra_bytes;
}
