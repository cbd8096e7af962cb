-- ===== src/SwitchCore.antt =====
-- model/p4-switch-core.cc, class P4SwitchCore: what every switch architecture shares.
pub mod Mirroring
pub mod Addresses
mod Tests
use p4simulator.Base.{ℕ, ◌-◌, ◌+◌, ◌^◌, Bool, true, false, ◌&&◌, ◌||◌, if◌then◌else◌, size_sub}

-- The fields of the program's queueing metadata, as `field_exists` tells of them.
pub record QueueingFields : Type 0 where
  pub enq_timestamp : Bool
  pub enq_qdepth : Bool
  pub deq_timedelta : Bool
  pub deq_qdepth : Bool

-- `CheckQueueingMetadata`: what `m_enableQueueingMetadata` is set to.
unfoldable pub check_queueing_metadata : QueueingFields → Bool
check_queueing_metadata f =
    if f.enq_timestamp || f.enq_qdepth || f.deq_timedelta || f.deq_qdepth
    then (if f.enq_timestamp && f.enq_qdepth && f.deq_timedelta && f.deq_qdepth
        then true
        else false)
    else false

-- `GetTimeStamp`: nanoseconds since the switch was made.
unfoldable pub get_time_stamp : ℕ → ℕ → ℕ
get_time_stamp now start_timestamp = size_sub now start_timestamp
