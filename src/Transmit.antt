-- ===== src/Transmit.antt =====
-- src/modules/telem.cpp: the transmission of telemetry: channels, level, the queue of messages, and the
-- tasks that are called periodically.
pub mod Delivery
pub mod Periods
mod Tests
use obc.Common.{
  ℕ, zero, suc, ◌+◌, ◌-◌, ◌==◌, ◌<◌, ◌^◌, ◌&&◌, ◌||◌, not, bit, if◌then◌else◌, ltb, leb, bit_and,
  bit_or, length, take, map, List, [], ◌∷◌, ◌++◌, Bool, true, false, Option, none, some,
}
use obc.Common.Words.{u8, u16}
use obc.Telem.Generic.{Envelope}
use obc.Telem.Generic.Component.{onboard_computer, ground_station}
use obc.Telem.Generic.FrameType
use obc.Telem.Serialize.{get_message_size_for_payload_length, serialize}

-- `OutboundMessage`; the data are the whole buffer that was allocated, and are never null.
pub record OutboundMessage : Type 0 where
  pub targets : ℕ
  pub data_bytes : List ℕ
  pub size : ℕ

-- `telemetry_level_t`.
pub data TelemetryLevel : Type 0 where
  level_full level_minimal : TelemetryLevel

-- The variables of the module, and the number of buffers that are allocated for messages.
pub record Transmitter : Type 0 where
  pub telemetry_channel_mask : ℕ
  pub telemetry_level : TelemetryLevel
  pub seq_no : ℕ
  pub out_queue : List OutboundMessage
  pub allocated : ℕ

abbrev pub queue_size : ℕ
queue_size = 64

-- `uart_t`.
abbrev pub uart_rxsm : ℕ
uart_rxsm = 0

abbrev pub uart_debug : ℕ
uart_debug = 3

unfoldable pub request_telemetry : ℕ → Transmitter → Transmitter
request_telemetry index x = record x {
  telemetry_channel_mask = u8 (bit_or x.telemetry_channel_mask (2 ^ index));
}

-- The complement of the bit is a mask of eight bits.
unfoldable pub stop_telemetry : ℕ → Transmitter → Transmitter
stop_telemetry index x = record x {
  telemetry_channel_mask = bit_and x.telemetry_channel_mask (255 - 2 ^ index);
}

unfoldable pub init : Transmitter → Transmitter
unfolding request_telemetry
init x = request_telemetry uart_rxsm (record x {
  seq_no = 0;
  telemetry_channel_mask = 0;
  telemetry_level = TelemetryLevel.level_full;
})

-- `setTelemetryLevel`, for the number of a level.
unfoldable pub set_telemetry_level : ℕ → Transmitter → Transmitter
set_telemetry_level level x = record x {
  telemetry_level = if level == 0 then TelemetryLevel.level_full else TelemetryLevel.level_minimal;
}

unfoldable pub is_essential_frame_type : ℕ → Bool
is_essential_frame_type t =
    t == FrameType.heartbeat
    || (t == FrameType.text_message
        || (t == FrameType.clock_status
            || (t == FrameType.ack
                || (t == FrameType.binary_data
                    || (t == FrameType.directory_entry || t == FrameType.adc)))))

abbrev pub is_full : TelemetryLevel → Bool
is_full TelemetryLevel.level_full = true
is_full TelemetryLevel.level_minimal = false

-- `sendLowLevel`: the queue takes the message unless it stays full for the time of waiting, in which
-- nothing else happens here; otherwise `cleanup` releases the buffer.
abbrev pub send_low_level : ℕ → List ℕ → ℕ → Transmitter → Bool × Transmitter
send_low_level targets buf size x =
    if ltb (length x.out_queue) queue_size
    then (
      true,
      record x {
        out_queue =
            x.out_queue ++ (record { targets = targets; data_bytes = buf; size = size } ∷ []);
      },
    )
    else (false, record x { allocated = x.allocated - 1 })

abbrev pub send_serialized : ℕ → ℕ → ℕ × List ℕ → Transmitter → Bool × Transmitter
send_serialized targets n (used, buf) x =
    if used == 0
    then (false, record x { allocated = x.allocated - 1 })
    else send_low_level targets buf (u8 (n + 8)) x

abbrev pub payload_size : Option (List ℕ) → ℕ → ℕ
payload_size none n = 0
payload_size (some payload) n = n

-- `sendTo` once the level lets the frame pass, with what `malloc` answers: `none` is a failure, which
-- ends the function before a sequence number is used; the error code that it sets is left out.
abbrev pub send_allocated :
    ℕ → Envelope → Option (List ℕ) → ℕ → ℕ → Option (List ℕ) → Transmitter → Bool × Transmitter
send_allocated targets e payload n buf_length none x = (false, x)
send_allocated targets e payload n buf_length (some buf) x =
    send_serialized targets n (serialize buf buf_length (record e { seq_no = x.seq_no }) payload n)
      (record x { allocated = x.allocated + 1; seq_no = u8 (x.seq_no + 1) })

-- What `malloc` gives for a size: nothing, or a buffer with what it holds at first.
abbrev pub Heap : Type 0
Heap = ℕ → Option (List ℕ)

-- `sendTo` with an envelope; `none` is no payload.
unfoldable pub send_to :
    Heap → ℕ → Envelope → Option (List ℕ) → ℕ → Transmitter → Bool × Transmitter
unfolding is_essential_frame_type
send_to heap targets e payload size x =
    let n = payload_size payload size in
    let buf_length = get_message_size_for_payload_length n in
    if not (is_full x.telemetry_level || is_essential_frame_type e.frame_type)
    then (true, x)
    else (if buf_length == 0
        then (false, x)
        else send_allocated targets e payload n buf_length (heap buf_length) x)

-- `sendTo` with the type of the frame, and `send`, which uses the channels of the module.
unfoldable pub send_frame_to : Heap → ℕ → ℕ → Option (List ℕ) → ℕ → Transmitter → Bool × Transmitter
unfolding send_to
send_frame_to heap targets type payload size x =
    send_to heap targets
      (record { seq_no = 0; frame_type = type; source = onboard_computer; target = ground_station })
      payload size x

unfoldable pub send : Heap → ℕ → Option (List ℕ) → ℕ → Transmitter → Bool × Transmitter
unfolding send_frame_to
send heap type payload size x = send_frame_to heap x.telemetry_channel_mask type payload size x

-- The bytes that are written to a UART.
pub record Written : Type 0 where
  pub uart : ℕ
  pub bytes : List ℕ

abbrev pub written_if : ℕ → OutboundMessage → List Written
written_if index m =
    if bit_and m.targets (2 ^ index) == 0
    then []
    else record { uart = index; bytes = take m.size m.data_bytes } ∷ []

-- `processNext`, where a message waits; `none` is a receive that fails.
abbrev pub process_queue : Transmitter → List OutboundMessage → Option (List Written × Transmitter)
process_queue x [] = none
process_queue x (m ∷ ms) = some (
  written_if uart_rxsm m ++ written_if uart_debug m,
  record x { out_queue = ms; allocated = x.allocated - 1 },
)

unfoldable pub process_next : Transmitter → Option (List Written × Transmitter)
process_next x = process_queue x x.out_queue

-- Each message that waits is received and its buffer released.
unfoldable pub destroy : Transmitter → Transmitter
destroy x = record {
  telemetry_channel_mask = 0;
  telemetry_level = TelemetryLevel.level_full;
  seq_no = 0;
  out_queue = [];
  allocated = x.allocated - length x.out_queue;
}

unfoldable pub waiting : Transmitter → ℕ
waiting x = length x.out_queue

-- The functions of the table of tasks.
pub data Sender : Type 0 where
  send_heartbeat send_adc_measurements send_clock_status send_imu_measurement send_mag_measurement :
      Sender

-- `task_t`.
pub record Task : Type 0 where
  pub period : ℕ
  pub func : Sender
  pub counter : ℕ

abbrev pub tasks : List Task
tasks =
    record { period = 25; func = Sender.send_heartbeat; counter = 0 }
    ∷ record { period = 50; func = Sender.send_adc_measurements; counter = 0 }
    ∷ record { period = 250; func = Sender.send_clock_status; counter = 0 }
    ∷ record { period = 5; func = Sender.send_imu_measurement; counter = 0 }
    ∷ record { period = 5; func = Sender.send_mag_measurement; counter = 0 }
    ∷ []

-- Whether the task is called, and the task afterwards.
unfoldable pub run_task : Task → Bool × Task
run_task t =
    let counter = u16 (t.counter + 1) in
    if leb t.period counter
    then (true, record t { counter = 0 })
    else (false, record t { counter = counter })

-- The functions that are called, in their order; the list ends where the table does.
unfoldable pub run_single_iteration : List Task → List Sender × List Task
unfolding run_task
run_single_iteration [] = ([], [])
run_single_iteration (t ∷ ts) =
    let r = run_task t in
    let rest = run_single_iteration ts in (if r.0 then t.func ∷ rest.0 else rest.0, r.1 ∷ rest.1)

abbrev pub sends_clock_status : Sender → Bool
sends_clock_status Sender.send_clock_status = true
sends_clock_status f = false

unfoldable pub send_clock_status_soon : List Task → List Task
send_clock_status_soon ts =
    map (λ t. if sends_clock_status t.func then record t { counter = t.period } else t) ts
