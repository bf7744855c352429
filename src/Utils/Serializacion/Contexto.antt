-- ===== src/Utils/Serializacion/Contexto.antt =====
-- serializacion.c: the context of the CPU and its registers, written and read back.
use recursos_so.Prelude.{ℕ, ◌^◌, ◌<◌, ◌≡◌, refl, List, [], ◌∷◌, ◌++◌, arith}
use recursos_so.Modelo.{Registros, ContextoCpu, IsRegistros}
use recursos_so.Utils.Paquete.{
  OpCode, Buffer, buffer_create, buffer_write, bytes_uint32, paquete_write_uint8,
  paquete_write_uint32,
}
use recursos_so.Utils.Paquete.Lectura.{
  Pendiente, paquete_read_uint8-Pendiente, paquete_read_uint32-Pendiente, nuevo,
}
use recursos_so.Utils.Serializacion.{
  paquete_create, serializar_registros, deserializar_registros, serializar_contexto_cpu,
  deserializar_contexto_cpu,
}

leido-registros :
    (r basura : Registros) (b : Buffer) (resto : List ℕ)
    → IsRegistros r
    → Pendiente b (
        r.ax
        ∷ r.bx
        ∷ r.cx
        ∷ r.dx
        ∷ (bytes_uint32 r.eax
            ++ (bytes_uint32 r.ebx
                ++ (bytes_uint32 r.ecx
                    ++ (bytes_uint32 r.edx
                        ++ (bytes_uint32 r.si ++ (bytes_uint32 r.di ++ resto)))))))
    → (b1 : Buffer) × (deserializar_registros basura b ≡ (r, b1)) × Pendiente b1 resto
unfolding deserializar_registros bytes_uint32
leido-registros r basura b resto h p =
    let (b0, e0, p0) =
      paquete_read_uint8-Pendiente basura.ax r.ax b
        (r.bx
          ∷ r.cx
          ∷ r.dx
          ∷ (bytes_uint32 r.eax
              ++ (bytes_uint32 r.ebx
                  ++ (bytes_uint32 r.ecx
                      ++ (bytes_uint32 r.edx
                          ++ (bytes_uint32 r.si ++ (bytes_uint32 r.di ++ resto)))))))
        p in
    let (b1, e1, p1) =
      paquete_read_uint8-Pendiente basura.bx r.bx b0
        (r.cx
          ∷ r.dx
          ∷ (bytes_uint32 r.eax
              ++ (bytes_uint32 r.ebx
                  ++ (bytes_uint32 r.ecx
                      ++ (bytes_uint32 r.edx
                          ++ (bytes_uint32 r.si ++ (bytes_uint32 r.di ++ resto)))))))
        p0 in
    let (b2, e2, p2) =
      paquete_read_uint8-Pendiente basura.cx r.cx b1
        (r.dx
          ∷ (bytes_uint32 r.eax
              ++ (bytes_uint32 r.ebx
                  ++ (bytes_uint32 r.ecx
                      ++ (bytes_uint32 r.edx
                          ++ (bytes_uint32 r.si ++ (bytes_uint32 r.di ++ resto)))))))
        p1 in
    let (b3, e3, p3) =
      paquete_read_uint8-Pendiente basura.dx r.dx b2
        ((bytes_uint32 r.eax
          ++ (bytes_uint32 r.ebx
              ++ (bytes_uint32 r.ecx
                  ++ (bytes_uint32 r.edx ++ (bytes_uint32 r.si ++ (bytes_uint32 r.di ++ resto)))))))
        p2 in
    let (b4, e4, p4) =
      paquete_read_uint32-Pendiente basura.eax r.eax b3
        (bytes_uint32 r.ebx
          ++ (bytes_uint32 r.ecx
              ++ (bytes_uint32 r.edx ++ (bytes_uint32 r.si ++ (bytes_uint32 r.di ++ resto)))))
        h.eax p3 in
    let (b5, e5, p5) =
      paquete_read_uint32-Pendiente basura.ebx r.ebx b4
        (bytes_uint32 r.ecx
          ++ (bytes_uint32 r.edx ++ (bytes_uint32 r.si ++ (bytes_uint32 r.di ++ resto))))
        h.ebx p4 in
    let (b6, e6, p6) =
      paquete_read_uint32-Pendiente basura.ecx r.ecx b5
        (bytes_uint32 r.edx ++ (bytes_uint32 r.si ++ (bytes_uint32 r.di ++ resto))) h.ecx p5 in
    let (b7, e7, p7) =
      paquete_read_uint32-Pendiente basura.edx r.edx b6
        (bytes_uint32 r.si ++ (bytes_uint32 r.di ++ resto)) h.edx p6 in
    let (b8, e8, p8) =
      paquete_read_uint32-Pendiente basura.si r.si b7 (bytes_uint32 r.di ++ resto) h.si p7 in
    let (b9, e9, p9) = paquete_read_uint32-Pendiente basura.di r.di b8 (resto) h.di p8 in
    (b9, rw (e0, e1, e2, e3, e4, e5, e6, e7, e8, e9) refl, p9)

leido-contexto_cpu :
    (c basura : ContextoCpu) (b : Buffer) (code : OpCode)
    → c.pid < 2 ^ 32
    → c.pc < 2 ^ 32
    → IsRegistros c.registros
    → Pendiente b (
        bytes_uint32 c.pid
        ++ (bytes_uint32 c.pc
            ++ (c.registros.ax
                ∷ c.registros.bx
                ∷ c.registros.cx
                ∷ c.registros.dx
                ∷ (bytes_uint32 c.registros.eax
                    ++ (bytes_uint32 c.registros.ebx
                        ++ (bytes_uint32 c.registros.ecx
                            ++ (bytes_uint32 c.registros.edx
                                ++ (bytes_uint32 c.registros.si
                                    ++ (bytes_uint32 c.registros.di ++ [])))))))))
    → deserializar_contexto_cpu basura (record { codigo_operacion = code; buffer = b }) ≡ c
unfolding deserializar_contexto_cpu bytes_uint32
leido-contexto_cpu c basura b code l1 l2 h p =
    let (b1, e1, p1) =
      paquete_read_uint32-Pendiente basura.pid c.pid b
        (bytes_uint32 c.pc
          ++ (c.registros.ax
              ∷ c.registros.bx
              ∷ c.registros.cx
              ∷ c.registros.dx
              ∷ (bytes_uint32 c.registros.eax
                  ++ (bytes_uint32 c.registros.ebx
                      ++ (bytes_uint32 c.registros.ecx
                          ++ (bytes_uint32 c.registros.edx
                              ++ (bytes_uint32 c.registros.si
                                  ++ (bytes_uint32 c.registros.di ++ []))))))))
        l1 p in
    let (b2, e2, p2) =
      paquete_read_uint32-Pendiente basura.pc c.pc b1
        (c.registros.ax
          ∷ c.registros.bx
          ∷ c.registros.cx
          ∷ c.registros.dx
          ∷ (bytes_uint32 c.registros.eax
              ++ (bytes_uint32 c.registros.ebx
                  ++ (bytes_uint32 c.registros.ecx
                      ++ (bytes_uint32 c.registros.edx
                          ++ (bytes_uint32 c.registros.si
                              ++ (bytes_uint32 c.registros.di ++ [])))))))
        l2 p1 in
    let (b3, e3, p3) = leido-registros c.registros basura.registros b2 [] h p2 in
    rw (e1, e2, e3) refl

-- A context whose registers are in their ranges and whose pid and pc are 32-bit words is read as it was
-- written, whatever the new struct held.
pub deserializar-serializar_contexto_cpu :
    (c basura : ContextoCpu) (code : OpCode)
    → c.pid < 2 ^ 32
    → c.pc < 2 ^ 32
    → IsRegistros c.registros
    → deserializar_contexto_cpu basura (serializar_contexto_cpu c code) ≡ c
unfolding serializar_contexto_cpu serializar_registros paquete_create buffer_create
    paquete_write_uint8 paquete_write_uint32 buffer_write bytes_uint32
deserializar-serializar_contexto_cpu c basura code l1 l2 h =
    leido-contexto_cpu c basura (serializar_contexto_cpu c code).buffer code l1 l2 h (
      nuevo
        (bytes_uint32 c.pid
          ++ (bytes_uint32 c.pc
              ++ (c.registros.ax
                  ∷ c.registros.bx
                  ∷ c.registros.cx
                  ∷ c.registros.dx
                  ∷ (bytes_uint32 c.registros.eax
                      ++ (bytes_uint32 c.registros.ebx
                          ++ (bytes_uint32 c.registros.ecx
                              ++ (bytes_uint32 c.registros.edx
                                  ++ (bytes_uint32 c.registros.si
                                      ++ (bytes_uint32 c.registros.di ++ [])))))))))
        (omega arith))
