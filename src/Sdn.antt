-- ===== src/Sdn.antt =====
-- The NoC manager: the controllers of the circuit-switched subnets.
pub mod Address
pub mod Queues
pub mod Noc
pub mod Hadlock
pub mod Circuits
pub mod Token
