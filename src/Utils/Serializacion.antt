-- ===== src/Utils/Serializacion.antt =====
-- utils/src/serializacion/serializacion.c: what each request and response is on the wire. A function that
-- reads takes what the memory of the new struct held, since the code does not look at the result of most of
-- the reads.
pub mod Pedidos
pub mod Contexto
pub mod Datos
use recursos_so.Prelude.{
  ℕ, Bool, true, false, List, [], Option, none, some, if◌then◌else◌, length, take,
}
use recursos_so.Modelo.{
  Registros, ContextoCpu, MemInitProceso, MemTraducir, MemRead, MemWrite, MemFetch,
  MemRespuestaTraduccion, MemRespuestaLectura, IoSleep, MemResize, IoStdinRead,
}
use recursos_so.Utils.Paquete.{
  OpCode, op_mem_resp_traduccion, op_mem_resp_lectura, op_io_sleep, op_io_stdin_read, Buffer,
  Paquete, buffer_create, paquete_write_uint8, paquete_write_uint32, paquete_write_bool,
  paquete_write_buffer, paquete_write_string, paquete_read_uint8, paquete_read_uint32,
  paquete_read_bool, paquete_read_buffer, paquete_read_string,
}

unfoldable pub paquete_create : OpCode → Paquete
unfolding buffer_create
paquete_create code = record { codigo_operacion = code; buffer = buffer_create }

-- The package with more written in its buffer.
abbrev pub escrito : Paquete → (Buffer → Buffer) → Paquete
escrito p w = record p { buffer = w p.buffer }

unfoldable pub serializar_registros : Registros → Buffer → Buffer
unfolding paquete_write_uint8 paquete_write_uint32
serializar_registros r b =
    let b1 = paquete_write_uint8 r.ax b in
    let b2 = paquete_write_uint8 r.bx b1 in
    let b3 = paquete_write_uint8 r.cx b2 in
    let b4 = paquete_write_uint8 r.dx b3 in
    let b5 = paquete_write_uint32 r.eax b4 in
    let b6 = paquete_write_uint32 r.ebx b5 in
    let b7 = paquete_write_uint32 r.ecx b6 in
    let b8 = paquete_write_uint32 r.edx b7 in
    let b9 = paquete_write_uint32 r.si b8 in paquete_write_uint32 r.di b9

unfoldable pub deserializar_registros : Registros → Buffer → Registros × Buffer
unfolding paquete_read_uint8 paquete_read_uint32
deserializar_registros r b =
    let (ok1, ax, b1) = paquete_read_uint8 r.ax b in
    let (ok2, bx, b2) = paquete_read_uint8 r.bx b1 in
    let (ok3, cx, b3) = paquete_read_uint8 r.cx b2 in
    let (ok4, dx, b4) = paquete_read_uint8 r.dx b3 in
    let (ok5, eax, b5) = paquete_read_uint32 r.eax b4 in
    let (ok6, ebx, b6) = paquete_read_uint32 r.ebx b5 in
    let (ok7, ecx, b7) = paquete_read_uint32 r.ecx b6 in
    let (ok8, edx, b8) = paquete_read_uint32 r.edx b7 in
    let (ok9, si, b9) = paquete_read_uint32 r.si b8 in
    let (ok10, di, b10) = paquete_read_uint32 r.di b9 in
    (
      record {
        ax = ax;
        bx = bx;
        cx = cx;
        dx = dx;
        eax = eax;
        ebx = ebx;
        ecx = ecx;
        edx = edx;
        si = si;
        di = di;
      },
      b10,
    )

unfoldable pub serializar_contexto_cpu : ContextoCpu → OpCode → Paquete
unfolding paquete_create paquete_write_uint32 serializar_registros
serializar_contexto_cpu ctx code = escrito (paquete_create code) (λ b.
    serializar_registros ctx.registros
      (paquete_write_uint32 ctx.pc (paquete_write_uint32 ctx.pid b)))

unfoldable pub deserializar_contexto_cpu : ContextoCpu → Paquete → ContextoCpu
unfolding paquete_read_uint32
deserializar_contexto_cpu ctx p =
    let (ok1, pid, b1) = paquete_read_uint32 ctx.pid p.buffer in
    let (ok2, pc, b2) = paquete_read_uint32 ctx.pc b1 in
    let (registros, b3) = deserializar_registros ctx.registros b2 in
    record { pid = pid; pc = pc; registros = registros }

unfoldable pub serializar_mem_init_proceso : MemInitProceso → OpCode → Paquete
unfolding paquete_create paquete_write_uint32 paquete_write_string
serializar_mem_init_proceso req code =
    escrito (paquete_create code)
      (λ b. paquete_write_string req.path (paquete_write_uint32 req.pid b))

-- The path is a text in 256 bytes, the last of them zero.
unfoldable pub deserializar_mem_init_proceso : MemInitProceso → Paquete → MemInitProceso
unfolding paquete_read_uint32
deserializar_mem_init_proceso req p =
    let (ok1, pid, b1) = paquete_read_uint32 req.pid p.buffer in
    let (path, b2) = paquete_read_string b1 in
    record { pid = pid; path = elim path [ none ↦ req.path | some s ↦ take 255 s ] }

unfoldable pub serializar_mem_traducir_pagina : MemTraducir → OpCode → Paquete
unfolding paquete_create paquete_write_uint32
serializar_mem_traducir_pagina req code =
    escrito (paquete_create code)
      (λ b. paquete_write_uint32 req.direccion_logica (paquete_write_uint32 req.pid b))

unfoldable pub deserializar_mem_traducir_pagina : MemTraducir → Paquete → MemTraducir
unfolding paquete_read_uint32
deserializar_mem_traducir_pagina req p =
    let (ok1, pid, b1) = paquete_read_uint32 req.pid p.buffer in
    let (ok2, direccion_logica, b2) = paquete_read_uint32 req.direccion_logica b1 in
    record { pid = pid; direccion_logica = direccion_logica }

unfoldable pub serializar_mem_read : MemRead → OpCode → Paquete
unfolding paquete_create paquete_write_uint32
serializar_mem_read req code = escrito (paquete_create code) (λ b.
    paquete_write_uint32 req.size
      (paquete_write_uint32 req.direccion_logica (paquete_write_uint32 req.pid b)))

unfoldable pub deserializar_mem_read : MemRead → Paquete → MemRead
unfolding paquete_read_uint32
deserializar_mem_read req p =
    let (ok1, pid, b1) = paquete_read_uint32 req.pid p.buffer in
    let (ok2, direccion_logica, b2) = paquete_read_uint32 req.direccion_logica b1 in
    let (ok3, size, b3) = paquete_read_uint32 req.size b2 in
    record { pid = pid; direccion_logica = direccion_logica; size = size }

unfoldable pub serializar_mem_fetch : MemFetch → OpCode → Paquete
unfolding paquete_create paquete_write_uint32
serializar_mem_fetch req code =
    escrito (paquete_create code)
      (λ b. paquete_write_uint32 req.pc (paquete_write_uint32 req.pid b))

unfoldable pub deserializar_mem_fetch : MemFetch → Paquete → MemFetch
unfolding paquete_read_uint32
deserializar_mem_fetch req p =
    let (ok1, pid, b1) = paquete_read_uint32 req.pid p.buffer in
    let (ok2, pc, b2) = paquete_read_uint32 req.pc b1 in record { pid = pid; pc = pc }

unfoldable pub serializar_mem_resize : MemResize → OpCode → Paquete
unfolding paquete_create paquete_write_uint32
serializar_mem_resize req code =
    escrito (paquete_create code)
      (λ b. paquete_write_uint32 req.nuevo_tamanio (paquete_write_uint32 req.pid b))

unfoldable pub deserializar_mem_resize : MemResize → Paquete → MemResize
unfolding paquete_read_uint32
deserializar_mem_resize req p =
    let (ok1, pid, b1) = paquete_read_uint32 req.pid p.buffer in
    let (ok2, nuevo_tamanio, b2) = paquete_read_uint32 req.nuevo_tamanio b1 in
    record { pid = pid; nuevo_tamanio = nuevo_tamanio }

unfoldable pub serializar_mem_write : MemWrite → OpCode → Paquete
unfolding paquete_create paquete_write_uint32 paquete_write_buffer
serializar_mem_write req code = escrito (paquete_create code) (λ b.
    paquete_write_buffer req.buffer
      (paquete_write_uint32 req.direccion_logica (paquete_write_uint32 req.pid b)))

-- A buffer that cannot be read is the null pointer, here no bytes.
unfoldable pub deserializar_mem_write : MemWrite → Paquete → MemWrite
unfolding paquete_read_uint32
deserializar_mem_write req p =
    let (ok1, pid, b1) = paquete_read_uint32 req.pid p.buffer in
    let (ok2, direccion_logica, b2) = paquete_read_uint32 req.direccion_logica b1 in
    let (datos, b3) = paquete_read_buffer b2 in
    record {
      pid = pid;
      direccion_logica = direccion_logica;
      buffer = elim datos [ none ↦ [] | some d ↦ d ];
    }

unfoldable pub serializar_mem_respuesta_traduccion : MemRespuestaTraduccion → Paquete
unfolding paquete_create paquete_write_uint32 paquete_write_bool
serializar_mem_respuesta_traduccion res =
    escrito (paquete_create op_mem_resp_traduccion)
      (λ b. paquete_write_uint32 res.direccion_fisica (paquete_write_bool res.correcto b))

unfoldable pub deserializar_mem_respuesta_traduccion :
    MemRespuestaTraduccion → Paquete → MemRespuestaTraduccion
unfolding paquete_read_uint32 paquete_read_bool
deserializar_mem_respuesta_traduccion res p =
    let (ok1, correcto, b1) = paquete_read_bool res.correcto p.buffer in
    let (ok2, direccion_fisica, b2) = paquete_read_uint32 res.direccion_fisica b1 in
    record { correcto = correcto; direccion_fisica = direccion_fisica }

unfoldable pub serializar_mem_respuesta_lectura : MemRespuestaLectura → Paquete
unfolding paquete_create paquete_write_buffer paquete_write_bool
serializar_mem_respuesta_lectura res =
    escrito (paquete_create op_mem_resp_lectura)
      (λ b. paquete_write_buffer res.datos (paquete_write_bool res.correcto b))

unfoldable pub deserializar_mem_respuesta_lectura :
    MemRespuestaLectura → Paquete → MemRespuestaLectura
unfolding paquete_read_bool
deserializar_mem_respuesta_lectura res p =
    let (ok1, correcto, b1) = paquete_read_bool res.correcto p.buffer in
    let (datos, b2) = paquete_read_buffer b1 in
    record { correcto = correcto; datos = elim datos [ none ↦ [] | some d ↦ d ] }

unfoldable pub serializar_io_sleep : IoSleep → Paquete
unfolding paquete_create paquete_write_uint32
serializar_io_sleep req =
    escrito (paquete_create op_io_sleep)
      (λ b. paquete_write_uint32 req.tiempo (paquete_write_uint32 req.pid b))

-- This one looks at each read.
unfoldable pub deserializar_io_sleep : IoSleep → Paquete → Option IoSleep
unfolding paquete_read_uint32
deserializar_io_sleep req p =
    let (ok1, pid, b1) = paquete_read_uint32 req.pid p.buffer in
    let (ok2, tiempo, b2) = paquete_read_uint32 req.tiempo b1 in
    if ok1 then if ok2 then some (record { pid = pid; tiempo = tiempo }) else none else none

unfoldable pub serializar_io_stdin_read : IoStdinRead → Paquete
unfolding paquete_create paquete_write_uint32 paquete_write_string
serializar_io_stdin_read req = escrito (paquete_create op_io_stdin_read) (λ b.
    paquete_write_string req.interfaz (
      paquete_write_uint32 req.size
        (paquete_write_uint32 req.direccion_logica (paquete_write_uint32 req.pid b))))

-- The name of the interface is a text in 64 bytes, the last of them zero.
unfoldable pub deserializar_io_stdin_read : IoStdinRead → Paquete → Option IoStdinRead
unfolding paquete_read_uint32
deserializar_io_stdin_read req p =
    let (ok1, pid, b1) = paquete_read_uint32 req.pid p.buffer in
    let (ok2, direccion_logica, b2) = paquete_read_uint32 req.direccion_logica b1 in
    let (ok3, size, b3) = paquete_read_uint32 req.size b2 in
    let (interfaz, b4) = paquete_read_string b3 in
    if ok1
    then if ok2
      then if ok3
        then some (record {
          pid = pid;
          direccion_logica = direccion_logica;
          size = size;
          interfaz = elim interfaz [ none ↦ [] | some s ↦ take 63 s ];
        })
        else none
      else none
    else none
