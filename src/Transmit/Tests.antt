-- ===== src/Transmit/Tests.antt =====
-- A message and a table of tasks of the transmission.
use obc.Common.{
  ℕ, ◌+◌, ◌*◌, ◌<◌, ◌≡◌, ◌++◌, refl, length-replicate, replicate, take, List, [], ◌∷◌, true, some,
  arith,
}
use obc.Common.Words.{u8}
use obc.Telem.Generic.{Envelope}
use obc.Telem.Serialize.{fill_defaults}
use obc.Telem.Parser.{Parser, new, feed_all, get_payload}
use obc.Transmit.{
  is_essential_frame_type, Transmitter, TelemetryLevel, send_to, Written, Task, Sender, Heap,
}
use obc.Transmit.Delivery.{queued, send_to_delivers}
use obc.Transmit.Periods.{run_times, run_times-period}

abbrev idle : Transmitter
idle = record {
  telemetry_channel_mask = 1;
  telemetry_level = TelemetryLevel.level_minimal;
  seq_no = 255;
  out_queue = [];
  allocated = 0;
}

abbrev fresh_parser : Parser
fresh_parser = new (replicate 72 0)

abbrev heap : Heap
heap n = some (replicate n 0xaa)

abbrev ack : Envelope
ack = record { seq_no = 0; frame_type = 4; source = 2; target = 0 }

ack-essential : is_essential_frame_type 4 ≡ true
unfolding is_essential_frame_type
ack-essential = refl

send_to_delivers_example :
    let m = queued (replicate 10 0xaa) 1 (record ack { seq_no = 255 }) (7 ∷ 9 ∷ []) in
    let r = send_to heap 1 ack (some (7 ∷ 9 ∷ [])) 2 idle in
    let (ns, q) = feed_all fresh_parser (take m.size m.data_bytes) in
    (r.0 ≡ true)
    × ((r.1).out_queue ≡ [] ++ (m ∷ []))
    × ((r.1).seq_no ≡ u8 (255 + 1))
    × (ns ≡ replicate 9 0 ++ (3 ∷ []))
    × (q.envelope ≡ fill_defaults (record ack { seq_no = 255 }))
    × (get_payload q 2 ≡ 7 ∷ 9 ∷ [])
unfolding new
send_to_delivers_example =
    send_to_delivers heap (replicate 10 0xaa) 1 ack (7 ∷ 9 ∷ []) idle fresh_parser refl
      (length-replicate {A = ℕ} 10 0xaa) (omega arith) (omega arith) ack-essential (omega arith)
      (omega arith) refl refl

abbrev busy : Transmitter
busy = record idle { out_queue = queued (replicate 9 0xaa) 9 ack (1 ∷ []) ∷ []; allocated = 1 }

abbrev passed : List Written × Transmitter
passed = (
  record { uart = 0; bytes = take 9 (queued (replicate 9 0xaa) 9 ack (1 ∷ [])).data_bytes }
      ∷ record { uart = 3; bytes = take 9 (queued (replicate 9 0xaa) 9 ack (1 ∷ [])).data_bytes }
      ∷ [],
  idle,
)

abbrev clock_task : Task
clock_task = record { period = 250; func = Sender.send_clock_status; counter = 249 }

run_times-period_example :
    let r = run_times 3 clock_task in (r.0 * 250 + (r.1).counter ≡ 249 + 3) × ((r.1).counter < 250)
run_times-period_example = run_times-period 3 clock_task (omega arith) (omega arith)
