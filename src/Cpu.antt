-- ===== src/Cpu.antt =====
-- cpu/src/: the registers, the TLB and the MMU.
pub mod Registros
pub mod Tlb
pub mod Mmu
pub mod Decode
pub mod Ejecucion
pub mod Ciclo
mod Ejemplos
