-- ===== src/Telem/Generic/FrameType.antt =====
-- `frames::frame_type_t` of src/core/telem/generic.h: the types that the modules name.
use obc.Common.{ℕ}

abbrev pub heartbeat : ℕ
heartbeat = 1

abbrev pub text_message : ℕ
text_message = 2

abbrev pub clock_status : ℕ
clock_status = 3

abbrev pub ack : ℕ
ack = 4

abbrev pub reset : ℕ
reset = 5

abbrev pub storage : ℕ
storage = 6

abbrev pub directory_listing : ℕ
directory_listing = 11

abbrev pub file_download : ℕ
file_download = 12

abbrev pub directory_entry : ℕ
directory_entry = 13

abbrev pub binary_data : ℕ
binary_data = 14

abbrev pub lcl_reset : ℕ
lcl_reset = 15

abbrev pub calibration : ℕ
calibration = 16

abbrev pub echo : ℕ
echo = 17

abbrev pub clock_sync : ℕ
clock_sync = 18

abbrev pub debug : ℕ
debug = 19

abbrev pub adc : ℕ
adc = 20
