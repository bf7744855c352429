-- ===== src/Memoria.antt =====
-- memoria/src: the frames, the replacement of pages, and the memory by segments.
pub mod Frames
pub mod Reemplazo
pub mod Segmentacion
pub mod Swap
pub mod Paginacion
pub mod Acceso
pub mod Esquema
mod Ejemplos
