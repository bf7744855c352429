-- ===== src/Utils/Serializacion/Datos.antt =====
-- serializacion.c: the messages that carry bytes or a text, written and read back.
use recursos_so.Prelude.{
  ℕ, zero, suc, ◌+◌, ◌^◌, ◌<◌, ◌≤◌, ◌≡◌, refl, ap, List, [], ◌∷◌, ◌++◌, length, take, arith,
  length-append,
}
use recursos_so.Modelo.{MemWrite, MemRespuestaLectura, MemInitProceso}
use recursos_so.Utils.Paquete.{
  OpCode, op_mem_resp_lectura, Buffer, buffer_create, buffer_write, bytes_uint32,
  paquete_write_uint32, paquete_write_bool, paquete_write_buffer, paquete_write_string,
}
use recursos_so.Utils.Paquete.Lectura.{
  Pendiente, paquete_read_uint32-Pendiente, paquete_read_bool-Pendiente,
  paquete_read_buffer-Pendiente, byte_bool, nuevo_datos, IsTexto, paquete_read_string-Pendiente,
}
use recursos_so.Utils.Serializacion.{
  paquete_create, serializar_mem_write, deserializar_mem_write, serializar_mem_respuesta_lectura,
  deserializar_mem_respuesta_lectura, serializar_mem_init_proceso, deserializar_mem_init_proceso,
}

leido-mem_write :
    (req basura : MemWrite) (b : Buffer) (code : OpCode)
    → req.pid < 2 ^ 32
    → req.direccion_logica < 2 ^ 32
    → length req.buffer < 2 ^ 32
    → Pendiente b (
        bytes_uint32 req.pid
        ++ (bytes_uint32 req.direccion_logica
            ++ (bytes_uint32 (length req.buffer) ++ (req.buffer ++ []))))
    → deserializar_mem_write basura (record { codigo_operacion = code; buffer = b }) ≡ req
unfolding deserializar_mem_write bytes_uint32
leido-mem_write req basura b code l1 l2 l3 p =
    let (b1, e1, p1) =
      paquete_read_uint32-Pendiente basura.pid req.pid b
        (bytes_uint32 req.direccion_logica
          ++ (bytes_uint32 (length req.buffer) ++ (req.buffer ++ [])))
        l1 p in
    let (b2, e2, p2) =
      paquete_read_uint32-Pendiente basura.direccion_logica req.direccion_logica b1
        (bytes_uint32 (length req.buffer) ++ (req.buffer ++ [])) l2 p1 in
    let (b3, e3, p3) = paquete_read_buffer-Pendiente req.buffer b2 [] l3 p2 in rw (e1, e2, e3) refl

-- A request to write memory is read as it was written, with all its bytes, if its numbers are 32-bit
-- words and the whole stream is shorter than 2 ^ 32.
pub deserializar-serializar_mem_write :
    (req basura : MemWrite) (code : OpCode)
    → req.pid < 2 ^ 32
    → req.direccion_logica < 2 ^ 32
    → 12 + length req.buffer < 2 ^ 32
    → deserializar_mem_write basura (serializar_mem_write req code) ≡ req
unfolding serializar_mem_write paquete_create buffer_create paquete_write_uint32
    paquete_write_buffer buffer_write bytes_uint32
deserializar-serializar_mem_write req basura code l1 l2 l3 =
    leido-mem_write req basura (serializar_mem_write req code).buffer code l1 l2 (omega arith) (
      nuevo_datos
        (bytes_uint32 req.pid
          ++ (bytes_uint32 req.direccion_logica ++ bytes_uint32 (length req.buffer)))
        req.buffer (omega arith))

leido-mem_respuesta_lectura :
    (res basura : MemRespuestaLectura) (b : Buffer) (code : OpCode)
    → length res.datos < 2 ^ 32
    → Pendiente b (byte_bool res.correcto ∷ (bytes_uint32 (length res.datos) ++ (res.datos ++ [])))
    → deserializar_mem_respuesta_lectura basura (record { codigo_operacion = code; buffer = b })
      ≡ res
unfolding deserializar_mem_respuesta_lectura bytes_uint32
leido-mem_respuesta_lectura res basura b code l p =
    let (b1, e1, p1) =
      paquete_read_bool-Pendiente basura.correcto res.correcto b
        (bytes_uint32 (length res.datos) ++ (res.datos ++ [])) p in
    let (b2, e2, p2) = paquete_read_buffer-Pendiente res.datos b1 [] l p1 in rw (e1, e2) refl

-- The answer to a read is read as it was written, with all its bytes, if the whole stream is shorter
-- than 2 ^ 32.
pub deserializar-serializar_mem_respuesta_lectura :
    (res basura : MemRespuestaLectura)
    → 5 + length res.datos < 2 ^ 32
    → deserializar_mem_respuesta_lectura basura (serializar_mem_respuesta_lectura res) ≡ res
unfolding serializar_mem_respuesta_lectura paquete_create buffer_create paquete_write_bool
    paquete_write_buffer buffer_write bytes_uint32
deserializar-serializar_mem_respuesta_lectura res basura l =
    leido-mem_respuesta_lectura res basura (serializar_mem_respuesta_lectura res).buffer
      op_mem_resp_lectura (omega arith)
      (nuevo_datos (byte_bool res.correcto ∷ bytes_uint32 (length res.datos)) res.datos
        (omega arith))

take-corta : (n : ℕ) (s : List ℕ) → length s ≤ n → take n s ≡ s
take-corta zero [] l = refl
take-corta zero (x ∷ s) l = elim l [ ]
take-corta (suc n) [] l = refl
take-corta (suc n) (x ∷ s) l = ap (◌∷◌ x) (take-corta n s (omega arith))

leido-mem_init_proceso :
    (req basura : MemInitProceso) (b : Buffer) (code : OpCode)
    → req.pid < 2 ^ 32
    → IsTexto req.path
    → length req.path ≤ 255
    → Pendiente b (
        bytes_uint32 req.pid
        ++ (bytes_uint32 (length (req.path ++ 0 ∷ [])) ++ ((req.path ++ 0 ∷ []) ++ [])))
    → deserializar_mem_init_proceso basura (record { codigo_operacion = code; buffer = b }) ≡ req
unfolding deserializar_mem_init_proceso bytes_uint32
leido-mem_init_proceso req basura b code l1 texto l2 p =
    let (b1, e1, p1) =
      paquete_read_uint32-Pendiente basura.pid req.pid b
        (bytes_uint32 (length (req.path ++ 0 ∷ [])) ++ ((req.path ++ 0 ∷ []) ++ [])) l1 p in
    let (b2, e2, p2) =
      paquete_read_string-Pendiente req.path b1 [] texto
        (omega (arith, length-append req.path (0 ∷ []))) p1 in
    rw (e1, e2, take-corta 255 req.path l2) refl

-- A request to create a process is read as it was written, with its whole path, if the pid is a 32-bit word,
-- no byte of the path is zero, and the path has at most 255 bytes.
pub deserializar-serializar_mem_init_proceso :
    (req basura : MemInitProceso) (code : OpCode)
    → req.pid < 2 ^ 32
    → IsTexto req.path
    → length req.path ≤ 255
    → deserializar_mem_init_proceso basura (serializar_mem_init_proceso req code) ≡ req
unfolding serializar_mem_init_proceso paquete_create buffer_create paquete_write_uint32
    paquete_write_string paquete_write_buffer buffer_write bytes_uint32
deserializar-serializar_mem_init_proceso req basura code l1 texto l2 =
    leido-mem_init_proceso req basura (serializar_mem_init_proceso req code).buffer code l1 texto l2
      (nuevo_datos (bytes_uint32 req.pid ++ bytes_uint32 (length (req.path ++ 0 ∷ [])))
        (req.path ++ 0 ∷ []) (omega (arith, length-append req.path (0 ∷ []))))
