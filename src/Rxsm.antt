-- ===== src/Rxsm.antt =====
-- src/core/utils/majority_voter.h and src/modules/rxsm.cpp: the signals of the service module.
pub mod Voter
pub mod Manager
mod Tests
