-- ===== src/Cmd/Tests.antt =====
-- Runs of the command handlers.
use obc.Common.{ℕ, ◌<◌, List, [], ◌∷◌, replicate, true, false, none, some, ◌≡◌, ◌≢◌, refl, arith}
use obc.Telem.Generic.Component.{ground_station}
use obc.Telem.Generic.FrameType
use obc.Frames.Request.{StorageCommandData, encode_echo_frame}
use obc.Frames.Storage.{
  DirectoryListingRequestData, FileDownloadRequestData, encode_directory_listing_request_frame,
  encode_file_download_request_frame,
}
use obc.Cmd.{InboundMessage, Answers, Effect, Outcome, ok}
use obc.Cmd.Handlers.{channel_mask, send_response}
use obc.Cmd.Process.{Inbox, process_packet, process_message, feed, take_next, destroy}
use obc.Cmd.Guard.{OnlyHarmless, process_packet-OnlyHarmless}
use obc.Cmd.Bounds.{InBounds, process_packet-InBounds}
use obc.Cmd.Payloads.{Arrival, feed_many, IsBalanced, inbox-IsBalanced, feed_nonblocking_leaks}
use obc.Cmd.Answer.{from_gcs, process_message-file_download}

-- Everything succeeds; files have 100 bytes.
abbrev answers : Answers
answers = record {
  set_time_succeeds = λ t. true;
  has_simulated_error = false;
  telemetry_level_is_full = true;
  mount_storage = λ area. 0;
  stop_and_unmount_succeeds = λ area. true;
  erase_storage = λ area. 0;
  start_raw_storage_download = λ area offset size. 0;
  get_storage_size = λ area. 4096;
  is_storage_configured = λ area. true;
  is_storage_mounted = λ area. true;
  is_storage_errored = λ area. false;
  start_directory_listing = λ d. 0;
  start_file_download = λ d. (0, 100);
}

-- A request of the scintillator module to reset two limiters.
abbrev stranger : InboundMessage
stranger = record {
  index = 1;
  envelope = record { seq_no = 9; frame_type = FrameType.lcl_reset; source = 3; target = 2 };
  payload = 0 ∷ 6 ∷ [];
  size = 2;
}

three_is_not_one : 3 ≢ ground_station
three_is_not_one = grind arith

process_packet-OnlyHarmless_example : OnlyHarmless stranger (process_packet answers stranger)
process_packet-OnlyHarmless_example =
    process_packet-OnlyHarmless answers stranger (omega arith) (omega arith) three_is_not_one

process_packet-InBounds_example :
    InBounds (process_packet answers stranger) × InBounds (process_message answers stranger)
process_packet-InBounds_example =
    process_packet-InBounds answers stranger (omega arith) (omega arith)

abbrev one_message : Inbox
one_message = record { in_queue = stranger ∷ []; allocated = 1 }

inbox-IsBalanced_example :
    IsBalanced (feed true 1 stranger.envelope (1 ∷ []) 1 one_message)
    × IsBalanced (take_next one_message.in_queue 1).0
    × (destroy one_message ≡ record { in_queue = []; allocated = 0 })
inbox-IsBalanced_example = inbox-IsBalanced true 1 stranger.envelope (1 ∷ []) 1 one_message refl

abbrev arrival : Arrival
arrival = record {
  has_memory = true;
  index = 1;
  envelope = stranger.envelope;
  payload = 1 ∷ [];
  size = 1;
}

-- The queue has room for one of three messages.
abbrev almost_full : Inbox
almost_full = record { in_queue = replicate 63 stranger; allocated = 63 }

feed_nonblocking_leaks_example :
    let r = feed_many (arrival ∷ arrival ∷ arrival ∷ []) almost_full in
    destroy r.0 ≡ record { in_queue = []; allocated = r.1 }
feed_nonblocking_leaks_example =
    feed_nonblocking_leaks (arrival ∷ arrival ∷ arrival ∷ []) almost_full refl

-- The root directory of the SD card, and the file "a" in it.
abbrev root : DirectoryListingRequestData
root = record { area = 2; start = 0; count = 10; name = 47 ∷ [] }

abbrev file : FileDownloadRequestData
file = record { area = 2; start = 0; size = 512; path = 47 ∷ 97 ∷ [] }

abbrev root_request : List ℕ
root_request = 2 ∷ 0 ∷ 0 ∷ 10 ∷ 0 ∷ 47 ∷ []

abbrev file_request : List ℕ
file_request = 2 ∷ 0 ∷ 0 ∷ 0 ∷ 0 ∷ 0 ∷ 2 ∷ 47 ∷ 97 ∷ []

root-encoded : encode_directory_listing_request_frame root ≡ some root_request
unfolding encode_directory_listing_request_frame
root-encoded = refl

file-encoded : encode_file_download_request_frame file ≡ some file_request
unfolding encode_file_download_request_frame
file-encoded = refl

positive : (n : ℕ) → 0 < n → n ≢ 0
positive n h = grind arith

process_message-file_download_example :
    process_message answers (from_gcs 1 9 FrameType.file_download file_request)
    ≡ Outcome.returned
        (Effect.start_file_download file (channel_mask 1) 9
          ∷ send_response 1 (from_gcs 1 9 FrameType.file_download file_request).envelope (ok 100)
          ∷ [])
        none
process_message-file_download_example =
    process_message-file_download answers 1 9 file file_request (omega arith) (omega arith)
      (positive 512 (omega arith)) (omega arith)
      (positive 47 (omega arith), (positive 97 (omega arith), tt)) file-encoded

abbrev read_command : StorageCommandData
read_command = record { area = 1; command = 4; offset = 65536; size = 512 }

-- An echo request with two bytes, and the reply to it.
abbrev question : InboundMessage
question = record {
  index = 0;
  envelope = record { seq_no = 1; frame_type = FrameType.echo; source = 3; target = 2 };
  payload = 0 ∷ 65 ∷ 66 ∷ [];
  size = 3;
}

abbrev answer : InboundMessage
answer = record {
  index = 0;
  envelope = record { seq_no = 1; frame_type = FrameType.echo; source = 2; target = 3 };
  payload = 1 ∷ 65 ∷ 66 ∷ [];
  size = 3;
}

encoded-echo :
    (question.payload ≡ encode_echo_frame (record { is_reply = 0; content = 65 ∷ 66 ∷ [] }))
    × (answer.payload ≡ encode_echo_frame (record { is_reply = 1; content = 65 ∷ 66 ∷ [] }))
unfolding encode_echo_frame
encoded-echo = (refl, refl)
