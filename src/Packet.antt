-- ===== src/Packet.antt =====
-- software/kernel/modules/packet.h and packet.c: the service header of a packet, and the two slots
-- that are written in turn while the DMNI still reads the other.
pub mod Slots
use mmemphis.Base.{ℕ}

-- The thirteen flits of a `ServiceHeader`. A union is one field, named after its first member; the
-- other members are read and written through it.
pub record ServiceHeader : Type 0 where
  pub header : ℕ
  pub payload_size : ℕ
  pub service : ℕ
  pub producer_task : ℕ
  pub consumer_task : ℕ
  pub source_pe : ℕ
  pub timestamp : ℕ
  pub cpu_slack_time : ℕ
  pub msg_lenght : ℕ
  pub pkt_size : ℕ
  pub code_size : ℕ
  pub bss_size : ℕ
  pub initial_address : ℕ

-- A header that carries nothing.
abbrev pub blank : ServiceHeader
blank = record {
  header = 0;
  payload_size = 0;
  service = 0;
  producer_task = 0;
  consumer_task = 0;
  source_pe = 0;
  timestamp = 0;
  cpu_slack_time = 0;
  msg_lenght = 0;
  pkt_size = 0;
  code_size = 0;
  bss_size = 0;
  initial_address = 0;
}
