-- ===== src/Utils/Serializacion/Pedidos.antt =====
-- serializacion.c: the requests of a fixed number of words, written and read back.
use recursos_so.Prelude.{◌^◌, ◌<◌, ◌≡◌, refl, [], ◌++◌, some, arith}
use recursos_so.Modelo.{MemTraducir, MemRead, MemFetch, IoSleep, MemResize}
use recursos_so.Utils.Paquete.{
  OpCode, op_io_sleep, Buffer, buffer_create, buffer_write, bytes_uint32, paquete_write_uint32,
}
use recursos_so.Utils.Paquete.Lectura.{Pendiente, paquete_read_uint32-Pendiente, nuevo}
use recursos_so.Utils.Serializacion.{
  paquete_create, serializar_mem_traducir_pagina, deserializar_mem_traducir_pagina,
  serializar_mem_read, deserializar_mem_read, serializar_mem_fetch, deserializar_mem_fetch,
  serializar_mem_resize, deserializar_mem_resize, serializar_io_sleep, deserializar_io_sleep,
}

leido-mem_traducir_pagina :
    (req basura : MemTraducir) (b : Buffer) (code : OpCode)
    → req.pid < 2 ^ 32
    → req.direccion_logica < 2 ^ 32
    → Pendiente b (bytes_uint32 req.pid ++ (bytes_uint32 req.direccion_logica))
    → deserializar_mem_traducir_pagina basura (record { codigo_operacion = code; buffer = b }) ≡ req
unfolding deserializar_mem_traducir_pagina bytes_uint32
leido-mem_traducir_pagina req basura b code l1 l2 p =
    let (b1, e1, p1) =
      paquete_read_uint32-Pendiente basura.pid req.pid b (bytes_uint32 req.direccion_logica) l1 p in
    let (b2, e2, p2) =
      paquete_read_uint32-Pendiente basura.direccion_logica req.direccion_logica b1 ([]) l2 p1 in
    rw (e1, e2) refl

-- A request for a translation, of 32-bit words, is read as it was written.
pub deserializar-serializar_mem_traducir_pagina :
    (req basura : MemTraducir) (code : OpCode)
    → req.pid < 2 ^ 32
    → req.direccion_logica < 2 ^ 32
    → deserializar_mem_traducir_pagina basura (serializar_mem_traducir_pagina req code) ≡ req
unfolding serializar_mem_traducir_pagina paquete_create buffer_create paquete_write_uint32
    buffer_write bytes_uint32
deserializar-serializar_mem_traducir_pagina req basura code l1 l2 =
    leido-mem_traducir_pagina req basura (serializar_mem_traducir_pagina req code).buffer code l1 l2
      (nuevo (bytes_uint32 req.pid ++ (bytes_uint32 req.direccion_logica)) (omega arith))

leido-mem_read :
    (req basura : MemRead) (b : Buffer) (code : OpCode)
    → req.pid < 2 ^ 32
    → req.direccion_logica < 2 ^ 32
    → req.size < 2 ^ 32
    → Pendiente b
        (bytes_uint32 req.pid ++ (bytes_uint32 req.direccion_logica ++ (bytes_uint32 req.size)))
    → deserializar_mem_read basura (record { codigo_operacion = code; buffer = b }) ≡ req
unfolding deserializar_mem_read bytes_uint32
leido-mem_read req basura b code l1 l2 l3 p =
    let (b1, e1, p1) =
      paquete_read_uint32-Pendiente basura.pid req.pid b
        (bytes_uint32 req.direccion_logica ++ (bytes_uint32 req.size)) l1 p in
    let (b2, e2, p2) =
      paquete_read_uint32-Pendiente basura.direccion_logica req.direccion_logica b1
        (bytes_uint32 req.size) l2 p1 in
    let (b3, e3, p3) = paquete_read_uint32-Pendiente basura.size req.size b2 ([]) l3 p2 in
    rw (e1, e2, e3) refl

-- A request to read memory whose numbers are 32-bit words is read as it was written, whatever the new
-- struct held.
pub deserializar-serializar_mem_read :
    (req basura : MemRead) (code : OpCode)
    → req.pid < 2 ^ 32
    → req.direccion_logica < 2 ^ 32
    → req.size < 2 ^ 32
    → deserializar_mem_read basura (serializar_mem_read req code) ≡ req
unfolding serializar_mem_read paquete_create buffer_create paquete_write_uint32 buffer_write
    bytes_uint32
deserializar-serializar_mem_read req basura code l1 l2 l3 =
    leido-mem_read req basura (serializar_mem_read req code).buffer code l1 l2 l3 (
      nuevo (bytes_uint32 req.pid ++ (bytes_uint32 req.direccion_logica ++ (bytes_uint32 req.size)))
        (omega arith))

leido-mem_fetch :
    (req basura : MemFetch) (b : Buffer) (code : OpCode)
    → req.pid < 2 ^ 32
    → req.pc < 2 ^ 32
    → Pendiente b (bytes_uint32 req.pid ++ (bytes_uint32 req.pc))
    → deserializar_mem_fetch basura (record { codigo_operacion = code; buffer = b }) ≡ req
unfolding deserializar_mem_fetch bytes_uint32
leido-mem_fetch req basura b code l1 l2 p =
    let (b1, e1, p1) =
      paquete_read_uint32-Pendiente basura.pid req.pid b (bytes_uint32 req.pc) l1 p in
    let (b2, e2, p2) = paquete_read_uint32-Pendiente basura.pc req.pc b1 ([]) l2 p1 in
    rw (e1, e2) refl

-- A request for an instruction, of 32-bit words, is read as it was written.
pub deserializar-serializar_mem_fetch :
    (req basura : MemFetch) (code : OpCode)
    → req.pid < 2 ^ 32
    → req.pc < 2 ^ 32
    → deserializar_mem_fetch basura (serializar_mem_fetch req code) ≡ req
unfolding serializar_mem_fetch paquete_create buffer_create paquete_write_uint32 buffer_write
    bytes_uint32
deserializar-serializar_mem_fetch req basura code l1 l2 =
    leido-mem_fetch req basura (serializar_mem_fetch req code).buffer code l1 l2
      (nuevo (bytes_uint32 req.pid ++ (bytes_uint32 req.pc)) (omega arith))

leido-mem_resize :
    (req basura : MemResize) (b : Buffer) (code : OpCode)
    → req.pid < 2 ^ 32
    → req.nuevo_tamanio < 2 ^ 32
    → Pendiente b (bytes_uint32 req.pid ++ (bytes_uint32 req.nuevo_tamanio))
    → deserializar_mem_resize basura (record { codigo_operacion = code; buffer = b }) ≡ req
unfolding deserializar_mem_resize bytes_uint32
leido-mem_resize req basura b code l1 l2 p =
    let (b1, e1, p1) =
      paquete_read_uint32-Pendiente basura.pid req.pid b (bytes_uint32 req.nuevo_tamanio) l1 p in
    let (b2, e2, p2) =
      paquete_read_uint32-Pendiente basura.nuevo_tamanio req.nuevo_tamanio b1 ([]) l2 p1 in
    rw (e1, e2) refl

-- A request to resize a process, of 32-bit words, is read as it was written.
pub deserializar-serializar_mem_resize :
    (req basura : MemResize) (code : OpCode)
    → req.pid < 2 ^ 32
    → req.nuevo_tamanio < 2 ^ 32
    → deserializar_mem_resize basura (serializar_mem_resize req code) ≡ req
unfolding serializar_mem_resize paquete_create buffer_create paquete_write_uint32 buffer_write
    bytes_uint32
deserializar-serializar_mem_resize req basura code l1 l2 =
    leido-mem_resize req basura (serializar_mem_resize req code).buffer code l1 l2
      (nuevo (bytes_uint32 req.pid ++ (bytes_uint32 req.nuevo_tamanio)) (omega arith))

leido-io_sleep :
    (req basura : IoSleep) (b : Buffer) (code : OpCode)
    → req.pid < 2 ^ 32
    → req.tiempo < 2 ^ 32
    → Pendiente b (bytes_uint32 req.pid ++ (bytes_uint32 req.tiempo))
    → deserializar_io_sleep basura (record { codigo_operacion = code; buffer = b }) ≡ some req
unfolding deserializar_io_sleep bytes_uint32
leido-io_sleep req basura b code l1 l2 p =
    let (b1, e1, p1) =
      paquete_read_uint32-Pendiente basura.pid req.pid b (bytes_uint32 req.tiempo) l1 p in
    let (b2, e2, p2) = paquete_read_uint32-Pendiente basura.tiempo req.tiempo b1 ([]) l2 p1 in
    rw (e1, e2) refl

-- A request to sleep whose numbers are 32-bit words is read as it was written, and no read of it
-- fails.
pub deserializar-serializar_io_sleep :
    (req basura : IoSleep)
    → req.pid < 2 ^ 32
    → req.tiempo < 2 ^ 32
    → deserializar_io_sleep basura (serializar_io_sleep req) ≡ some req
unfolding serializar_io_sleep paquete_create buffer_create paquete_write_uint32 buffer_write
    bytes_uint32
deserializar-serializar_io_sleep req basura l1 l2 =
    leido-io_sleep req basura (serializar_io_sleep req).buffer op_io_sleep l1 l2
      (nuevo (bytes_uint32 req.pid ++ (bytes_uint32 req.tiempo)) (omega arith))
