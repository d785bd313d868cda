-- ===== src/Frames/Science/Laws.antt =====
-- The measurement frames of src/core/telem: their encoders against decoders and validators.
use obc.Common.{◌≤◌, length, true, some, ◌≡◌, arith, take-length, take-all}
use obc.Common.Words.{IsByte, IsU32}
use obc.Frames.Science.{
  GmmData, encode_gmm_frame, decode_gmm_frame, validate_encoded_gmm_frame, ScmData,
  encode_scm_frame, decode_scm_frame, validate_encoded_scm_frame, ImuData, encode_imu_frame,
  decode_imu_frame, validate_encoded_imu_frame, max_scm_frame_fragment_length,
}

-- Ten hit counts and a time come back whole.
pub decode-encode_gmm :
    (d : GmmData)
    → IsU32 d.timestamp
    → length d.hit_counts ≡ 10
    → (validate_encoded_gmm_frame (length (encode_gmm_frame d)) ≡ true)
      × (decode_gmm_frame (encode_gmm_frame d) ≡ d)
unfolding encode_gmm_frame decode_gmm_frame validate_encoded_gmm_frame
decode-encode_gmm d ht hc = ground (arith, take-all 10 d.hit_counts (omega arith))

-- A fragment of up to 56 bytes, with a 32-bit time and indices that are bytes, is valid and
-- decodes to itself.
pub decode-encode_scm :
    (d : ScmData)
    → IsU32 d.timestamp
    → IsByte d.max_fragment_index
    → IsByte d.fragment_index
    → IsByte d.scintillator_index
    → length d.fragment ≤ max_scm_frame_fragment_length
    → let bs = encode_scm_frame d in
      (validate_encoded_scm_frame (length bs) ≡ true) × (decode_scm_frame bs (length bs) ≡ some d)
unfolding encode_scm_frame decode_scm_frame validate_encoded_scm_frame
decode-encode_scm d ht hm hf hs h = ground (arith, take-length d.fragment)

-- Measurements of the inertial unit, as 32-bit patterns, are valid and decode to themselves.
pub decode-encode_imu :
    (d : ImuData)
    → IsU32 d.timestamp
    → IsU32 d.acceleration_x
    → IsU32 d.acceleration_y
    → IsU32 d.acceleration_z
    → IsU32 d.angular_velocity_x
    → IsU32 d.angular_velocity_y
    → IsU32 d.angular_velocity_z
    → (validate_encoded_imu_frame (length (encode_imu_frame d)) ≡ true)
      × (decode_imu_frame (encode_imu_frame d) ≡ d)
unfolding encode_imu_frame decode_imu_frame validate_encoded_imu_frame
decode-encode_imu d ht h₁ h₂ h₃ h₄ h₅ h₆ = ground arith
