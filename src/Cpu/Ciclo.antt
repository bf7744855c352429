-- ===== src/Cpu/Ciclo.antt =====
-- cpu/src/ciclo_instruccion/ciclo.c, cpu/src/interrupciones/interrupciones.c and
-- cpu/src/adaptadores/cpu_dispatch_handler.c. The flag of the interruptions is set by another thread:
-- the rounds of the cycle are a list that says of each whether an interruption comes before its test.
pub mod Corrida
pub mod Envio
use recursos_so.Prelude.{
  ℕ, Bool, true, false, ◌||◌, List, [], ◌∷◌, Option, none, some, if◌then◌else◌, String,
}
use recursos_so.Modelo.{
  ContextoCpu, MotivoDesalojo, motivo_fin_quantum, motivo_io, motivo_exit, motivo_segfault,
  motivo_desalojo, cpu_continuar,
}
use recursos_so.Cpu.Mmu.{Mmu, mmu_set_contexto}
use recursos_so.Cpu.Decode.{
  Opcode, inst_set, inst_sum, inst_sub, inst_jnz, inst_io, inst_io_gen_sleep, inst_io_stdin_read,
  inst_io_stdout_write, inst_io_fs_create, inst_io_fs_delete, inst_io_fs_truncate, inst_io_fs_write,
  inst_io_fs_read, inst_mov_in, inst_mov_out, inst_resize, inst_copy_string, inst_wait, inst_signal,
  inst_exit, fin_quantum, Instruccion, decoder_parsear,
}
use recursos_so.Cpu.Ejecucion.{Servicio, Cpu, execute_instruccion}

-- The codes of op_code.h that the CPU answers with.
pub data OpCode : Type 0 where
  op_cpu_fin_proceso op_wait_recurso op_signal_recurso op_io_sleep op_io_stdin_read
        op_io_stdout_write op_io_fs_create op_io_fs_delete op_io_fs_truncate op_io_fs_write
        op_io_fs_read op_bloqueo_io op_segfault op_fin_de_quantum op_desalojo :
      OpCode

-- The code for an exit by MOTIVO_IO.
unfoldable pub op_de_instruccion : Opcode → OpCode
op_de_instruccion inst_wait = op_wait_recurso
op_de_instruccion inst_signal = op_signal_recurso
op_de_instruccion inst_io_gen_sleep = op_io_sleep
op_de_instruccion inst_io_stdin_read = op_io_stdin_read
op_de_instruccion inst_io_stdout_write = op_io_stdout_write
op_de_instruccion inst_io_fs_create = op_io_fs_create
op_de_instruccion inst_io_fs_delete = op_io_fs_delete
op_de_instruccion inst_io_fs_truncate = op_io_fs_truncate
op_de_instruccion inst_io_fs_write = op_io_fs_write
op_de_instruccion inst_io_fs_read = op_io_fs_read
op_de_instruccion _ = op_bloqueo_io

-- What the process that leaves the CPU is sent back with: the code, its context, and the text and the
-- number that go with a WAIT, a SIGNAL or a sleep.
pub record Respuesta : Type 0 where
  pub rs_code : OpCode
  pub ctx : ContextoCpu
  pub texto : Option String
  pub tiempo : Option ℕ

unfoldable pub responder : OpCode → ContextoCpu → Instruccion → Respuesta
responder op_wait_recurso ctx i = record {
  rs_code = op_wait_recurso;
  ctx = ctx;
  texto = some i.parametros;
  tiempo = none;
}
responder op_signal_recurso ctx i = record {
  rs_code = op_signal_recurso;
  ctx = ctx;
  texto = some i.parametros;
  tiempo = none;
}
responder op_io_sleep ctx i = record {
  rs_code = op_io_sleep;
  ctx = ctx;
  texto = some i.parametros;
  tiempo = some i.operandos.inmediato;
}
responder op ctx i = record { rs_code = op; ctx = ctx; texto = none; tiempo = none }

abbrev pub interrupcion_disparar : {S : Type 0} → Cpu S → Cpu S
interrupcion_disparar c = record c { flag_interrupcion = true }

abbrev pub interrupcion_reset : {S : Type 0} → Cpu S → Cpu S
interrupcion_reset c = record c { flag_interrupcion = false }

-- CPU_CTX.motivo_desalojo = …
abbrev pub con_motivo : {S : Type 0} → MotivoDesalojo → Cpu S → Cpu S
con_motivo motivo c = record c { mmu = record c.mmu { motivo_desalojo = motivo } }

-- The choice of rs_code; a quantum that has ended resets the flag.
unfoldable pub elegir_rs_code : {S : Type 0} → MotivoDesalojo → Cpu S → OpCode × Cpu S
unfolding op_de_instruccion
elegir_rs_code motivo_exit c = (op_cpu_fin_proceso, c)
elegir_rs_code motivo_io c = (op_de_instruccion c.ultima_instruccion.opcode, c)
elegir_rs_code motivo_segfault c = (op_segfault, c)
elegir_rs_code _ c =
    if c.flag_interrupcion then (op_fin_de_quantum, interrupcion_reset c) else (op_desalojo, c)

module _ {S : Type 0} (servicio : Servicio S) (tam_pag : ℕ) (atoi : String → ℕ)
    (string_split : String → List String) where
  -- An answer without an instruction is EXIT.
  unfoldable pub cpu_fetch_instruccion : ℕ → ℕ → S → Option String × S
  cpu_fetch_instruccion pid pc s =
      let (respuesta, s1) = servicio.instruccion pid pc s in
      elim respuesta [
        | none ↦ (none, s1)
        | some none ↦ (some "EXIT", s1)
        | some (some linea) ↦ (some linea, s1)
      ]

  unfoldable pub fetch_instruccion : Cpu S → Option String × Cpu S
  unfolding cpu_fetch_instruccion
  fetch_instruccion c =
      let (linea, s) = cpu_fetch_instruccion c.ctx.pid c.ctx.pc c.memoria in
      (linea, record c { memoria = s })

  unfoldable pub decode_instruccion : String → Instruccion
  unfolding decoder_parsear
  decode_instruccion linea = decoder_parsear atoi (string_split linea)

  unfoldable pub es_continuar : MotivoDesalojo → Bool
  es_continuar cpu_continuar = true
  es_continuar _ = false

  -- One round after the test of the flag: whether the cycle goes on, and the state.
  unfoldable pub ronda : Cpu S → Bool × Cpu S
  unfolding fetch_instruccion decode_instruccion execute_instruccion es_continuar
  ronda c =
      let (linea, c1) = fetch_instruccion c in
      elim linea [
        | none ↦ (false, c1)
        | some l ↦
            let (motivo, c2) = execute_instruccion servicio tam_pag (decode_instruccion l) c1 in
            (es_continuar motivo, con_motivo motivo c2)
      ]

  -- The `while (true)`; `none` where the rounds are over and the cycle is not.
  unfoldable pub bucle_ciclo : List Bool → Cpu S → Option (Cpu S)
  unfolding ronda
  bucle_ciclo [] c = none
  bucle_ciclo (llega ∷ llegan) c =
      let c1 : Cpu S = (if llega then interrupcion_disparar c else c) in
      let (sigue, c2) = ronda c1 in
      let resto = bucle_ciclo llegan c2 in
      if c1.flag_interrupcion then some c1 else if sigue then resto else some c2

  unfoldable pub ciclo_instruccion_ejecutar : List Bool → Cpu S → Option (Cpu S)
  unfolding mmu_set_contexto bucle_ciclo
  ciclo_instruccion_ejecutar llegan c =
      bucle_ciclo llegan (record c { mmu = mmu_set_contexto c.ctx c.mmu })

  -- The context is the one that was received; `llega` is an interruption after the cycle.
  unfoldable pub cpu_handler_atender_ejecucion :
      List Bool → Bool → ContextoCpu → Cpu S → Option (Respuesta × Cpu S)
  unfolding ciclo_instruccion_ejecutar elegir_rs_code responder
  cpu_handler_atender_ejecucion llegan llega ctx c =
      elim (ciclo_instruccion_ejecutar llegan (con_motivo cpu_continuar (record c { ctx = ctx }))) [
        | none ↦ none
        | some c1 ↦
            let c2 : Cpu S = (if llega then interrupcion_disparar c1 else c1) in
            let (rs_code, c3) = elegir_rs_code c2.mmu.motivo_desalojo c2 in
            some (responder rs_code c3.ctx c3.ultima_instruccion, c3)
      ]
