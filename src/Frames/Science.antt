-- ===== src/Frames/Science.antt =====
-- src/core/telem/gmm.cpp, scm.cpp and imu.cpp: the measurement frames that only move bytes.
-- A `float` is copied as it is, so it stands as its 32-bit pattern.
pub mod Laws
use obc.Common.{
  ℕ, ◌+◌, ◌-◌, List, [], ◌∷◌, ◌++◌, take, drop, length, leb, ltb, ◌==◌, if◌then◌else◌, Bool, Option,
  none, some,
}
use obc.Common.Words.{u8, le32, read8, read32}

-- `gmm_data_t`: the ten hit counts, by index.
pub record GmmData : Type 0 where
  pub timestamp : ℕ
  pub hit_counts : List ℕ

unfoldable pub encode_gmm_frame : GmmData → List ℕ
encode_gmm_frame d = le32 d.timestamp ++ take 10 d.hit_counts

unfoldable pub decode_gmm_frame : List ℕ → GmmData
decode_gmm_frame bs = record { timestamp = read32 bs 0; hit_counts = take 10 (drop 4 bs) }

unfoldable pub validate_encoded_gmm_frame : ℕ → Bool
validate_encoded_gmm_frame size = leb 14 size

abbrev pub max_scm_frame_fragment_length : ℕ
max_scm_frame_fragment_length = 56

-- `scm_data_t`; `fragment` is the first `length` bytes of its array.
pub record ScmData : Type 0 where
  pub timestamp : ℕ
  pub max_fragment_index : ℕ
  pub fragment_index : ℕ
  pub scintillator_index : ℕ
  pub fragment : List ℕ

unfoldable pub encode_scm_frame : ScmData → List ℕ
encode_scm_frame d =
    le32 d.timestamp
    ++ u8 d.max_fragment_index ∷ u8 d.fragment_index ∷ u8 d.scintillator_index ∷ d.fragment

-- `none`: the copy would run over the end of the array of `decoded`.
unfoldable pub decode_scm_frame : List ℕ → ℕ → Option ScmData
decode_scm_frame bs size =
    let n = if leb 7 size then u8 (size - 7) else 0 in
    if ltb max_scm_frame_fragment_length n
    then none
    else some (record {
      timestamp = read32 bs 0;
      max_fragment_index = read8 bs 4;
      fragment_index = read8 bs 5;
      scintillator_index = read8 bs 6;
      fragment = take n (drop 7 bs);
    })

unfoldable pub validate_encoded_scm_frame : ℕ → Bool
validate_encoded_scm_frame size = leb 7 size

-- `imu_data_t`, its two vectors by component.
pub record ImuData : Type 0 where
  pub timestamp : ℕ
  pub acceleration_x : ℕ
  pub acceleration_y : ℕ
  pub acceleration_z : ℕ
  pub angular_velocity_x : ℕ
  pub angular_velocity_y : ℕ
  pub angular_velocity_z : ℕ

unfoldable pub encode_imu_frame : ImuData → List ℕ
encode_imu_frame d =
    le32 d.timestamp
    ++ le32 d.acceleration_x
    ++ le32 d.acceleration_y
    ++ le32 d.acceleration_z
    ++ le32 d.angular_velocity_x
    ++ le32 d.angular_velocity_y
    ++ le32 d.angular_velocity_z

unfoldable pub decode_imu_frame : List ℕ → ImuData
decode_imu_frame bs = record {
  timestamp = read32 bs 0;
  acceleration_x = read32 bs 4;
  acceleration_y = read32 bs 8;
  acceleration_z = read32 bs 12;
  angular_velocity_x = read32 bs 16;
  angular_velocity_y = read32 bs 20;
  angular_velocity_z = read32 bs 24;
}

unfoldable pub validate_encoded_imu_frame : ℕ → Bool
validate_encoded_imu_frame size = leb 28 size
