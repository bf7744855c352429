-- ===== src/Cpu/Ejecucion.antt =====
-- cpu/src/instrucciones/{operaciones,operaciones_mem}.c and the requests to the memory of
-- cpu/src/adaptadores/cpu_memoria_adapter.c. The memory module is a parameter: a state of any type, and
-- what it answers to each request.
pub mod Rangos
pub mod Efectos
use recursos_so.Prelude.{
  ℕ, ◌+◌, ◌/◌, ◌^◌, Bool, true, false, not, List, Option, none, some, if◌then◌else◌, ◌==◌, length,
  take, String,
}
use recursos_so.Modelo.{
  RegId, reg_si, reg_di, ContextoCpu, MotivoDesalojo, motivo_io, motivo_exit, motivo_segfault,
  cpu_continuar,
}
use recursos_so.Cpu.Registros.{
  registros_leer, registros_size, Operandos, avanzar, con_registro, ejecutar_set, ejecutar_sum,
  ejecutar_sub, ejecutar_jnz,
}
use recursos_so.Cpu.Tlb.{tlb_lookup}
use recursos_so.Cpu.Mmu.{Mmu, mmu_traducir}
use recursos_so.Cpu.Decode.{
  Opcode, inst_set, inst_sum, inst_sub, inst_jnz, inst_io, inst_io_gen_sleep, inst_io_stdin_read,
  inst_io_stdout_write, inst_io_fs_create, inst_io_fs_delete, inst_io_fs_truncate, inst_io_fs_write,
  inst_io_fs_read, inst_mov_in, inst_mov_out, inst_resize, inst_copy_string, inst_wait, inst_signal,
  inst_exit, fin_quantum, Instruccion,
}
use recursos_so.Utils.Paquete.{bytes_uint32, de_bytes}

-- The answers of the memory module: to a translation, a read and a write, whose failure and whose
-- missing answer look alike to the CPU, to a resize, and to a fetch, where `none` is a connection that is
-- closed and `some none` an answer without an instruction.
pub record Servicio (S : Type 0) : Type 0 where
  pub pagina : ℕ → ℕ → S → Option ℕ × S
  pub lectura : ℕ → ℕ → ℕ → S → Option (List ℕ) × S
  pub escritura : ℕ → ℕ → List ℕ → S → Bool × S
  pub resize : ℕ → ℕ → S → Bool × S
  pub instruccion : ℕ → ℕ → S → Option (Option String) × S

-- The context that runs, the globals of the CPU, and the memory module.
pub record Cpu (S : Type 0) : Type 0 where
  pub ctx : ContextoCpu
  pub mmu : Mmu
  pub ultima_instruccion : Instruccion
  pub flag_interrupcion : Bool
  pub memoria : S

module _ {S : Type 0} (servicio : Servicio S) (tam_pag : ℕ) where
  -- What mmu_traducir asks the memory: nothing where the TLB has the page.
  unfoldable pub memoria_obtener_marco : ℕ → Cpu S → Option ℕ × S
  unfolding tlb_lookup
  memoria_obtener_marco dir c = elim (tlb_lookup c.mmu.pid_actual (dir / tam_pag) c.mmu.tlb).0 [
    | some marco ↦ (none, c.memoria)
    | none ↦ servicio.pagina c.mmu.pid_actual (dir / tam_pag) c.memoria
  ]

  -- Whether the address is TRADUCCION_ERROR, which is 2 ^ 32 - 1.
  unfoldable pub es_error : Option ℕ → Bool
  es_error none = true
  es_error (some dir) = dir == 4294967295

  -- The test of an access by the MMU: whether it fails.
  unfoldable pub traduccion_falla : ℕ → Bool → Cpu S → Bool × Cpu S
  unfolding memoria_obtener_marco mmu_traducir es_error
  traduccion_falla dir escritura c =
      let (marco, memoria) = memoria_obtener_marco dir c in
      let (fisica, mmu) = mmu_traducir (λ pid pagina w. marco) tam_pag dir escritura c.mmu in
      (es_error fisica, record c { mmu = mmu; memoria = memoria })

  -- memoria_leer
  unfoldable pub cpu_leer : ℕ → ℕ → ℕ → S → Option (List ℕ) × S
  cpu_leer pid dir size s =
      if size == 0
      then (none, s)
      else let (respuesta, s1) = servicio.lectura pid dir size s in
        elim respuesta [
          | none ↦ (none, s1)
          | some datos ↦ ((if length datos == size then some datos else none), s1)
        ]

  -- memoria_escribir, of a buffer of `size` bytes
  unfoldable pub cpu_escribir : ℕ → ℕ → List ℕ → S → Bool × S
  cpu_escribir pid dir buffer s =
      if length buffer == 0 then (false, s) else servicio.escritura pid dir buffer s

  unfoldable pub ejecutar_mov_in : Operandos → Cpu S → MotivoDesalojo × Cpu S
  unfolding traduccion_falla cpu_leer registros_leer registros_size de_bytes
  ejecutar_mov_in i c =
      let dir = registros_leer c.ctx.registros i.r2 in
      let (falla, c1) = traduccion_falla dir false c in
      if falla
      then (motivo_segfault, c1)
      else let (leido, s) = cpu_leer c.ctx.pid dir (registros_size i.r1) c1.memoria in
        elim leido [
          | none ↦ (motivo_segfault, record c1 { memoria = s })
          | some datos ↦ (
            cpu_continuar,
            record c1 { memoria = s; ctx = avanzar (con_registro c.ctx i.r1 (de_bytes datos)) },
          )
        ]

  unfoldable pub ejecutar_mov_out : Operandos → Cpu S → MotivoDesalojo × Cpu S
  unfolding traduccion_falla cpu_escribir registros_leer registros_size bytes_uint32
  ejecutar_mov_out i c =
      let dir = registros_leer c.ctx.registros i.r1 in
      let valor = registros_leer c.ctx.registros i.r2 in
      let (falla, c1) = traduccion_falla dir true c in
      if falla
      then (motivo_segfault, c1)
      else let (escrito, s) =
          cpu_escribir c.ctx.pid dir (take (registros_size i.r2) (bytes_uint32 valor)) c1.memoria in
        if escrito
        then (cpu_continuar, record c1 { memoria = s; ctx = avanzar c.ctx })
        else (motivo_segfault, record c1 { memoria = s })

  unfoldable pub ejecutar_resize : Operandos → Cpu S → MotivoDesalojo × Cpu S
  ejecutar_resize i c =
      let (hecho, s) = servicio.resize c.ctx.pid i.inmediato c.memoria in
      if hecho
      then (cpu_continuar, record c { memoria = s; ctx = avanzar c.ctx })
      else (motivo_segfault, record c { memoria = s })

  -- COPY_STRING from the check of the target on, with what was read.
  unfoldable pub copiar_destino : ℕ → List ℕ → Cpu S → MotivoDesalojo × Cpu S
  unfolding traduccion_falla cpu_escribir
  copiar_destino destino datos c =
      let (falla, c1) = traduccion_falla destino true c in
      if falla
      then (motivo_segfault, c1)
      else let (escrito, s) = cpu_escribir c.ctx.pid destino datos c1.memoria in
        if escrito
        then (cpu_continuar, record c1 { memoria = s; ctx = avanzar c.ctx })
        else (motivo_segfault, record c1 { memoria = s })

  unfoldable pub ejecutar_copy_string : Operandos → Cpu S → MotivoDesalojo × Cpu S
  unfolding traduccion_falla cpu_leer copiar_destino registros_leer
  ejecutar_copy_string i c =
      let origen = registros_leer c.ctx.registros reg_si in
      let destino = registros_leer c.ctx.registros reg_di in
      let (falla, c1) = traduccion_falla origen false c in
      if falla
      then (motivo_segfault, c1)
      else let (leido, s) = cpu_leer c.ctx.pid origen i.inmediato c1.memoria in
        elim leido [
          | none ↦ (motivo_segfault, record c1 { memoria = s })
          | some datos ↦ copiar_destino destino datos (record c1 { memoria = s })
        ]

  unfoldable pub ejecutar_io : Cpu S → MotivoDesalojo × Cpu S
  ejecutar_io c = (motivo_io, record c { ctx = avanzar c.ctx })

  -- The switch of execute_instruccion.
  unfoldable pub segun_opcode : Opcode → Operandos → Cpu S → MotivoDesalojo × Cpu S
  unfolding ejecutar_set ejecutar_sum ejecutar_sub ejecutar_jnz ejecutar_mov_in ejecutar_mov_out
      ejecutar_resize ejecutar_copy_string ejecutar_io
  segun_opcode inst_set i c = (cpu_continuar, record c { ctx = ejecutar_set i c.ctx })
  segun_opcode inst_sum i c = (cpu_continuar, record c { ctx = ejecutar_sum i c.ctx })
  segun_opcode inst_sub i c = (cpu_continuar, record c { ctx = ejecutar_sub i c.ctx })
  segun_opcode inst_jnz i c = (cpu_continuar, record c { ctx = ejecutar_jnz i c.ctx })
  segun_opcode inst_io i c = (cpu_continuar, c)
  segun_opcode inst_io_gen_sleep i c = ejecutar_io c
  segun_opcode inst_io_stdin_read i c = ejecutar_io c
  segun_opcode inst_io_stdout_write i c = ejecutar_io c
  segun_opcode inst_io_fs_create i c = ejecutar_io c
  segun_opcode inst_io_fs_delete i c = ejecutar_io c
  segun_opcode inst_io_fs_truncate i c = ejecutar_io c
  segun_opcode inst_io_fs_write i c = ejecutar_io c
  segun_opcode inst_io_fs_read i c = ejecutar_io c
  segun_opcode inst_mov_in i c = ejecutar_mov_in i c
  segun_opcode inst_mov_out i c = ejecutar_mov_out i c
  segun_opcode inst_resize i c = ejecutar_resize i c
  segun_opcode inst_copy_string i c = ejecutar_copy_string i c
  segun_opcode inst_wait i c = ejecutar_io c
  segun_opcode inst_signal i c = ejecutar_io c
  segun_opcode inst_exit i c = (motivo_exit, c)
  segun_opcode fin_quantum i c = (cpu_continuar, c)

  unfoldable pub execute_instruccion : Instruccion → Cpu S → MotivoDesalojo × Cpu S
  unfolding segun_opcode
  execute_instruccion inst c =
      segun_opcode inst.opcode inst.operandos (record c { ultima_instruccion = inst })
