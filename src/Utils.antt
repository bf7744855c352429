-- ===== src/Utils.antt =====
-- utils/src/: the packages that the modules exchange, and what is written in them.
pub mod Paquete
pub mod Serializacion
mod Ejemplos
