-- ===== src/Cpu/Ejecucion/Efectos.antt =====
-- What an instruction may change: the context of the process, and the registers in their ranges.
use recursos_so.Prelude.{
  ℕ, ◌^◌, ◌<◌, ◌≡◌, ap, sym, subst, ◌∙◌, ◌⊎◌, take, inl, inr, refl, Bool, true, false, List, some,
  if◌then◌else◌, arith, Bool-cases, Option-cases, length, All, ◌==◌,
}
use recursos_so.Modelo.{
  reg_si, reg_di, ContextoCpu, MotivoDesalojo, motivo_io, motivo_exit, motivo_segfault,
  cpu_continuar,
}
use recursos_so.Cpu.Registros.{
  registros_leer, registros_size, Operandos, avanzar, ejecutar_set, ejecutar_sum, ejecutar_sub,
  ejecutar_jnz,
}
use recursos_so.Cpu.Decode.{
  Opcode, inst_set, inst_sum, inst_sub, inst_jnz, inst_io, inst_io_gen_sleep, inst_io_stdin_read,
  inst_io_stdout_write, inst_io_fs_create, inst_io_fs_delete, inst_io_fs_truncate, inst_io_fs_write,
  inst_io_fs_read, inst_mov_in, inst_mov_out, inst_resize, inst_copy_string, inst_wait, inst_signal,
  inst_exit, fin_quantum, Instruccion,
}
use recursos_so.Cpu.Ejecucion.{
  Servicio, Cpu, traduccion_falla, cpu_leer, cpu_escribir, ejecutar_mov_in, ejecutar_mov_out,
  ejecutar_resize, copiar_destino, ejecutar_copy_string, ejecutar_io, segun_opcode,
  execute_instruccion,
}
use recursos_so.Utils.Paquete.{bytes_uint32, de_bytes}
use recursos_so.Cpu.Ejecucion.Rangos.{
  IsContexto, DaBytes, de_bytes-IsU32, registros_size-lt, avanzado, escrito,
}

-- What every instruction promises: the process is the same, its context is in range, and where it ends
-- by EXIT or by a fault the context is as before; no other instruction is remembered and the flag of the
-- interruptions stays.
pub record Efecto {S : Type 0} (c : Cpu S) (res : MotivoDesalojo × Cpu S) : Type 0 where
  pub pid : res.1.ctx.pid ≡ c.ctx.pid
  pub en_rango : IsContexto res.1.ctx
  pub intacto : (res.0 ≡ motivo_segfault) ⊎ (res.0 ≡ motivo_exit) → res.1.ctx ≡ c.ctx
  pub recordada : res.1.ultima_instruccion ≡ c.ultima_instruccion
  pub flag : res.1.flag_interrupcion ≡ c.flag_interrupcion

-- An instruction that leaves the context as it was.
quieto :
    {S : Type 0} (c : Cpu S) (m : MotivoDesalojo) (c' : Cpu S)
    → IsContexto c.ctx
    → c'.ctx ≡ c.ctx
    → c'.ultima_instruccion ≡ c.ultima_instruccion
    → c'.flag_interrupcion ≡ c.flag_interrupcion
    → Efecto c (m, c')
quieto c m c' h e u f = record {
  pid = ap (λ x. x.pid) e;
  en_rango = subst IsContexto (sym e) h;
  intacto = λ x. e;
  recordada = u;
  flag = f;
}

-- An instruction that goes on, or ends by MOTIVO_IO.
avanza :
    {S : Type 0} (c : Cpu S) (m : MotivoDesalojo) (c' : Cpu S)
    → (m ≡ cpu_continuar) ⊎ (m ≡ motivo_io)
    → IsContexto c'.ctx
    → c'.ctx.pid ≡ c.ctx.pid
    → c'.ultima_instruccion ≡ c.ultima_instruccion
    → c'.flag_interrupcion ≡ c.flag_interrupcion
    → Efecto c (m, c')
avanza c m c' o h e u f = record {
  pid = e;
  en_rango = h;
  intacto = λ x. ground arith;
  recordada = u;
  flag = f;
}

module _ {S : Type 0} (servicio : Servicio S) (tam_pag : ℕ) (da_bytes : DaBytes servicio) where
  cpu_leer-bytes :
      (pid dir size : ℕ) (s : S) (datos : List ℕ)
      → (cpu_leer servicio tam_pag pid dir size s).0 ≡ some datos
      → (length datos ≡ size) × All (λ b. b < 256) datos
  unfolding cpu_leer
  cpu_leer-bytes pid dir size s datos h = elim (Bool-cases (size == 0)) [
    | inl cero ↦ ground arith
    | inr no_cero ↦ elim (Option-cases (servicio.lectura pid dir size s).0) [
      | inl nada ↦ ground arith
      | inr (d, si) ↦
          let mismo : d ≡ datos = ground arith in
          let largo : length datos ≡ size = ground arith in
          (largo, da_bytes pid dir size s datos (si ∙ ap some mismo))
    ]
  ]

  ejecutar_mov_in-Efecto :
      (i : Operandos) (c : Cpu S)
      → IsContexto c.ctx
      → Efecto c (ejecutar_mov_in servicio tam_pag i c)
  unfolding ejecutar_mov_in traduccion_falla
  ejecutar_mov_in-Efecto i c h =
      let dir = registros_leer c.ctx.registros i.r2 in
      let c1 = (traduccion_falla servicio tam_pag dir false c).1 in
      let leido = cpu_leer servicio tam_pag c.ctx.pid dir (registros_size i.r1) c1.memoria in
      elim (Bool-cases (traduccion_falla servicio tam_pag dir false c).0) [
        | inl falla ↦ rw (falla, ejecutar_mov_in) (quieto c motivo_segfault c1 h refl refl refl)
        | inr sigue ↦ elim (Option-cases leido.0) [
          | inl nada ↦
              rw (sigue, nada, ejecutar_mov_in)
                (quieto c motivo_segfault (record c1 { memoria = leido.1 }) h refl refl refl)
          | inr (datos, si) ↦
              let (largo, bytes) =
                cpu_leer-bytes c.ctx.pid dir (registros_size i.r1) c1.memoria datos si in
              let valor = de_bytes-IsU32 datos bytes (omega (arith, registros_size-lt i.r1)) in
              rw (sigue, si, ejecutar_mov_in)
                (avanza c cpu_continuar _ (inl refl) (escrito c.ctx i.r1 (de_bytes datos) h valor)
                  refl refl refl)
        ]
      ]

  -- The end of MOV_OUT and of COPY_STRING.
  escritura-Efecto :
      (c c1 : Cpu S) (b : Bool)
      → IsContexto c.ctx
      → c1.ctx ≡ c.ctx
      → c1.ultima_instruccion ≡ c.ultima_instruccion
      → c1.flag_interrupcion ≡ c.flag_interrupcion
      → Efecto c
          (if b then (cpu_continuar, record c1 { ctx = avanzar c.ctx }) else (motivo_segfault, c1))
  escritura-Efecto c c1 true h e u f =
      avanza c cpu_continuar (record c1 { ctx = avanzar c.ctx }) (inl refl) (avanzado c.ctx h) refl
        u f
  escritura-Efecto c c1 false h e u f = quieto c motivo_segfault c1 h e u f

  ejecutar_mov_out-Efecto :
      (i : Operandos) (c : Cpu S)
      → IsContexto c.ctx
      → Efecto c (ejecutar_mov_out servicio tam_pag i c)
  unfolding ejecutar_mov_out traduccion_falla
  ejecutar_mov_out-Efecto i c h =
      let dir = registros_leer c.ctx.registros i.r1 in
      let c1 = (traduccion_falla servicio tam_pag dir true c).1 in
      let res =
        cpu_escribir servicio tam_pag c.ctx.pid dir
          (take (registros_size i.r2) (bytes_uint32 (registros_leer c.ctx.registros i.r2)))
          c1.memoria in
      elim (Bool-cases (traduccion_falla servicio tam_pag dir true c).0) [
        | inl falla ↦ rw (falla, ejecutar_mov_out) (quieto c motivo_segfault c1 h refl refl refl)
        | inr sigue ↦
            rw (sigue, ejecutar_mov_out)
              (escritura-Efecto c (record c1 { memoria = res.1 }) res.0 h refl refl refl)
      ]

  ejecutar_resize-Efecto :
      (i : Operandos) (c : Cpu S)
      → IsContexto c.ctx
      → Efecto c (ejecutar_resize servicio tam_pag i c)
  unfolding ejecutar_resize
  ejecutar_resize-Efecto i c h =
      let res = servicio.resize c.ctx.pid i.inmediato c.memoria in
      escritura-Efecto c (record c { memoria = res.1 }) res.0 h refl refl refl

  copiar_destino-Efecto :
      (destino : ℕ) (datos : List ℕ) (c0 c : Cpu S)
      → IsContexto c0.ctx
      → c.ctx ≡ c0.ctx
      → c.ultima_instruccion ≡ c0.ultima_instruccion
      → c.flag_interrupcion ≡ c0.flag_interrupcion
      → Efecto c0 (copiar_destino servicio tam_pag destino datos c)
  unfolding copiar_destino traduccion_falla
  copiar_destino-Efecto destino datos c0 c h e u f =
      let c1 = (traduccion_falla servicio tam_pag destino true c).1 in
      let res = cpu_escribir servicio tam_pag c.ctx.pid destino datos c1.memoria in
      elim (Bool-cases (traduccion_falla servicio tam_pag destino true c).0) [
        | inl falla ↦ rw (falla, copiar_destino) (quieto c0 motivo_segfault c1 h e u f)
        | inr sigue ↦ elim (Bool-cases res.0) [
          | inl si ↦
              rw (sigue, si, copiar_destino)
                (avanza c0 cpu_continuar (record c1 { memoria = res.1; ctx = avanzar c.ctx })
                  (inl refl) (avanzado c.ctx (subst IsContexto (sym e) h)) (ap (λ x. x.pid) e) u f)
          | inr nada ↦
              rw (sigue, nada, copiar_destino)
                (quieto c0 motivo_segfault (record c1 { memoria = res.1 }) h e u f)
        ]
      ]

  ejecutar_copy_string-Efecto :
      (i : Operandos) (c : Cpu S)
      → IsContexto c.ctx
      → Efecto c (ejecutar_copy_string servicio tam_pag i c)
  unfolding ejecutar_copy_string traduccion_falla
  ejecutar_copy_string-Efecto i c h =
      let dir = registros_leer c.ctx.registros reg_si in
      let destino = registros_leer c.ctx.registros reg_di in
      let c1 = (traduccion_falla servicio tam_pag dir false c).1 in
      let leido = cpu_leer servicio tam_pag c.ctx.pid dir i.inmediato c1.memoria in
      elim (Bool-cases (traduccion_falla servicio tam_pag dir false c).0) [
        | inl falla ↦
            rw (falla, ejecutar_copy_string) (quieto c motivo_segfault c1 h refl refl refl)
        | inr sigue ↦ elim (Option-cases leido.0) [
          | inl nada ↦
              rw (sigue, nada, ejecutar_copy_string)
                (quieto c motivo_segfault (record c1 { memoria = leido.1 }) h refl refl refl)
          | inr (datos, si) ↦
              rw (sigue, si, ejecutar_copy_string)
                (copiar_destino-Efecto destino datos c (record c1 { memoria = leido.1 }) h refl refl
                  refl)
        ]
      ]

  ejecutar_io-Efecto : (c : Cpu S) → IsContexto c.ctx → Efecto c (ejecutar_io servicio tam_pag c)
  unfolding ejecutar_io
  ejecutar_io-Efecto c h =
      avanza c motivo_io (record c { ctx = avanzar c.ctx }) (inr refl) (avanzado c.ctx h) refl refl
        refl

  -- SET, SUM, SUB and JNZ.
  calcula-Efecto :
      (c : Cpu S) (ctx : ContextoCpu)
      → IsContexto ctx
      → ctx.pid ≡ c.ctx.pid
      → Efecto c (cpu_continuar, record c { ctx = ctx })
  calcula-Efecto c ctx h e =
      avanza c cpu_continuar (record c { ctx = ctx }) (inl refl) h e refl refl

  ejecutar_jnz-Contexto :
      (i : Operandos) (ctx : ContextoCpu)
      → IsContexto ctx
      → i.inmediato < 2 ^ 32
      → IsContexto (ejecutar_jnz i ctx) × ((ejecutar_jnz i ctx).pid ≡ ctx.pid)
  unfolding ejecutar_jnz
  ejecutar_jnz-Contexto i ctx h l = elim (Bool-cases (registros_leer ctx.registros i.r1 == 0)) [
    | inl cero ↦ rw (cero, ejecutar_jnz) (avanzado ctx h, refl)
    | inr no_cero ↦ rw (no_cero, ejecutar_jnz) (record { pc = l; registros = h.registros }, refl)
  ]

  segun_opcode-Efecto :
      (op : Opcode) (i : Operandos) (c : Cpu S)
      → IsContexto c.ctx
      → i.inmediato < 2 ^ 32
      → Efecto c (segun_opcode servicio tam_pag op i c)
  unfolding segun_opcode ejecutar_set ejecutar_sum ejecutar_sub
  segun_opcode-Efecto inst_set i c h l =
      calcula-Efecto c (ejecutar_set i c.ctx) (escrito c.ctx i.r1 i.inmediato h l) refl
  segun_opcode-Efecto inst_sum i c h l =
      calcula-Efecto c (ejecutar_sum i c.ctx) (escrito c.ctx i.r1 _ h (omega arith)) refl
  segun_opcode-Efecto inst_sub i c h l =
      calcula-Efecto c (ejecutar_sub i c.ctx) (escrito c.ctx i.r1 _ h (omega arith)) refl
  segun_opcode-Efecto inst_jnz i c h l =
      let (en_rango, e) = ejecutar_jnz-Contexto i c.ctx h l in
      calcula-Efecto c (ejecutar_jnz i c.ctx) en_rango e
  segun_opcode-Efecto inst_io i c h l = quieto c cpu_continuar c h refl refl refl
  segun_opcode-Efecto inst_io_gen_sleep i c h l = ejecutar_io-Efecto c h
  segun_opcode-Efecto inst_io_stdin_read i c h l = ejecutar_io-Efecto c h
  segun_opcode-Efecto inst_io_stdout_write i c h l = ejecutar_io-Efecto c h
  segun_opcode-Efecto inst_io_fs_create i c h l = ejecutar_io-Efecto c h
  segun_opcode-Efecto inst_io_fs_delete i c h l = ejecutar_io-Efecto c h
  segun_opcode-Efecto inst_io_fs_truncate i c h l = ejecutar_io-Efecto c h
  segun_opcode-Efecto inst_io_fs_write i c h l = ejecutar_io-Efecto c h
  segun_opcode-Efecto inst_io_fs_read i c h l = ejecutar_io-Efecto c h
  segun_opcode-Efecto inst_wait i c h l = ejecutar_io-Efecto c h
  segun_opcode-Efecto inst_signal i c h l = ejecutar_io-Efecto c h
  segun_opcode-Efecto inst_mov_in i c h l = ejecutar_mov_in-Efecto i c h
  segun_opcode-Efecto inst_mov_out i c h l = ejecutar_mov_out-Efecto i c h
  segun_opcode-Efecto inst_resize i c h l = ejecutar_resize-Efecto i c h
  segun_opcode-Efecto inst_copy_string i c h l = ejecutar_copy_string-Efecto i c h
  segun_opcode-Efecto inst_exit i c h l = quieto c motivo_exit c h refl refl refl
  segun_opcode-Efecto fin_quantum i c h l = quieto c cpu_continuar c h refl refl refl

-- For a memory that answers reads with bytes, an instruction whose number is a uint32_t, and a context
-- in range: whatever the instruction is and whatever the memory answers, the process is the same one,
-- its registers and its program counter stay in their ranges, and where the instruction ends by EXIT or
-- by a segmentation fault they are as before. The instruction is remembered, and the flag of the
-- interruptions is not touched.
pub execute_instruccion-Efecto :
    {S : Type 0} (servicio : Servicio S) (tam_pag : ℕ) (inst : Instruccion) (c : Cpu S)
    → DaBytes servicio
    → IsContexto c.ctx
    → inst.operandos.inmediato < 2 ^ 32
    → Efecto (record c { ultima_instruccion = inst }) (execute_instruccion servicio tam_pag inst c)
unfolding execute_instruccion
execute_instruccion-Efecto servicio tam_pag inst c b h l =
    segun_opcode-Efecto servicio tam_pag b inst.opcode inst.operandos
      (record c { ultima_instruccion = inst }) h l
