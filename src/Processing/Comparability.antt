-- ===== src/Processing/Comparability.antt =====
-- Whether two EOS-04 radar observations may be compared (src/akasha/processing/sar_comparability.py).
pub mod Metadata
pub mod Reasons
pub mod Fields
pub mod Agreement
mod Tests
