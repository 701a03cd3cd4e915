-- ===== src/Mtaout.antt =====
-- services/mtaout: the outbound deliverability subsystem.
pub mod Pool
pub mod Warmup
pub mod Reputation
pub mod Scheduler
pub mod FileQueue
use vulos_mail.Common.{ℕ, String, List}

pub data TrafficClass : Type 0 where
  transactional bulk : TrafficClass

pub record OutMessage : Type 0 where
  pub id : String
  pub tenant : String
  pub from_domain : String
  pub rcpt_domain : String
  pub from_addr : String
  pub rcpts : List String
  pub raw : List ℕ
  pub class : TrafficClass

pub data SendStatus : Type 0 where
  delivered temp_fail perm_fail : SendStatus
