-- ===== src/Cpu/Ciclo/Envio.antt =====
-- What the CPU sends back, and what an interruption does to the next process.
use recursos_so.Prelude.{
  ℕ, ◌<◌, ◌^◌, ◌≡◌, ◌≢◌, ◌⊎◌, inl, inr, refl, sym, ap, subst, ◌∙◌, Bool, true, false, List, ◌∷◌,
  Option, some, if◌then◌else◌, arith, Bool-cases, Option-cases, String,
}
use recursos_so.Modelo.{
  ContextoCpu, MotivoDesalojo, motivo_fin_quantum, motivo_io, motivo_exit, motivo_segfault,
  motivo_desalojo, cpu_continuar,
}
use recursos_so.Cpu.Mmu.{Mmu, mmu_set_contexto}
use recursos_so.Cpu.Decode.{Instruccion}
use recursos_so.Cpu.Ejecucion.{Servicio, Cpu}
use recursos_so.Cpu.Ejecucion.Rangos.{IsContexto, DaBytes}
use recursos_so.Cpu.Ciclo.{
  OpCode, op_cpu_fin_proceso, op_wait_recurso, op_signal_recurso, op_io_sleep, op_io_stdin_read,
  op_io_stdout_write, op_io_fs_create, op_io_fs_delete, op_io_fs_truncate, op_io_fs_write,
  op_io_fs_read, op_bloqueo_io, op_segfault, op_fin_de_quantum, op_desalojo, interrupcion_reset,
  Respuesta, responder, interrupcion_disparar, con_motivo, elegir_rs_code, bucle_ciclo,
  ciclo_instruccion_ejecutar, cpu_handler_atender_ejecucion,
}
use recursos_so.Cpu.Ciclo.Corrida.{alguna, Propio, bucle_ciclo-termina, bucle_ciclo-Propio}

responder-campos :
    (op : OpCode) (ctx : ContextoCpu) (i : Instruccion)
    → ((responder op ctx i).ctx ≡ ctx) × ((responder op ctx i).rs_code ≡ op)
unfolding responder
responder-campos op_cpu_fin_proceso ctx i = (refl, refl)
responder-campos op_wait_recurso ctx i = (refl, refl)
responder-campos op_signal_recurso ctx i = (refl, refl)
responder-campos op_io_sleep ctx i = (refl, refl)
responder-campos op_io_stdin_read ctx i = (refl, refl)
responder-campos op_io_stdout_write ctx i = (refl, refl)
responder-campos op_io_fs_create ctx i = (refl, refl)
responder-campos op_io_fs_delete ctx i = (refl, refl)
responder-campos op_io_fs_truncate ctx i = (refl, refl)
responder-campos op_io_fs_write ctx i = (refl, refl)
responder-campos op_io_fs_read ctx i = (refl, refl)
responder-campos op_bloqueo_io ctx i = (refl, refl)
responder-campos op_segfault ctx i = (refl, refl)
responder-campos op_fin_de_quantum ctx i = (refl, refl)
responder-campos op_desalojo ctx i = (refl, refl)

con_llegada :
    {S : Type 0} (llega : Bool) (c : Cpu S)
    → (if llega then interrupcion_disparar c else c).ctx ≡ c.ctx
con_llegada true c = refl
con_llegada false c = refl

con_llegada_marcada :
    {S : Type 0} (llega : Bool) (c : Cpu S)
    → c.flag_interrupcion ≡ true
    → (if llega then interrupcion_disparar c else c) ≡ c
con_llegada_marcada true c f = cc
con_llegada_marcada false c f = refl

mmu_set_contexto-motivo :
    (ctx : ContextoCpu) (m : Mmu) → (mmu_set_contexto ctx m).motivo_desalojo ≡ m.motivo_desalojo
unfolding mmu_set_contexto
mmu_set_contexto-motivo ctx m = ground arith

elegir_rs_code-marcado :
    {S : Type 0} (m : MotivoDesalojo) (c : Cpu S)
    → m ≡ cpu_continuar
    → c.flag_interrupcion ≡ true
    → elegir_rs_code m c ≡ (op_fin_de_quantum, interrupcion_reset c)
unfolding elegir_rs_code
elegir_rs_code-marcado cpu_continuar c e f = ground arith
elegir_rs_code-marcado motivo_fin_quantum c e f = cc
elegir_rs_code-marcado motivo_io c e f = cc
elegir_rs_code-marcado motivo_exit c e f = cc
elegir_rs_code-marcado motivo_segfault c e f = cc
elegir_rs_code-marcado motivo_desalojo c e f = cc

module _ {S : Type 0} where
  -- The code sent back: the context stays, and an interruption that is there either is what the code
  -- tells or stays in the flag.
  record Elegido (c : Cpu S) (res : OpCode × Cpu S) : Type 0 where
    ctx : res.1.ctx ≡ c.ctx
    atendida :
        c.flag_interrupcion ≡ true
        → ((res.0 ≡ op_fin_de_quantum) × (res.1.flag_interrupcion ≡ false))
          ⊎ (res.1.flag_interrupcion ≡ true)

  elegir_interrumpido :
      (c : Cpu S)
      → Elegido c (
          if c.flag_interrupcion
          then (op_fin_de_quantum, interrupcion_reset c)
          else (op_desalojo, c))
  elegir_interrumpido c = elim (Bool-cases c.flag_interrupcion) [
    | inl con ↦
        subst
          (λ b.
            Elegido c (if b then (op_fin_de_quantum, interrupcion_reset c) else (op_desalojo, c)))
          (sym con) (record { ctx = refl; atendida = λ e. inl (refl, refl) })
    | inr sin ↦
        subst
          (λ b.
            Elegido c (if b then (op_fin_de_quantum, interrupcion_reset c) else (op_desalojo, c)))
          (sym sin) (record { ctx = refl; atendida = λ e. inr e })
  ]

  elegir_rs_code-Elegido : (m : MotivoDesalojo) (c : Cpu S) → Elegido c (elegir_rs_code m c)
  unfolding elegir_rs_code
  elegir_rs_code-Elegido motivo_exit c = record { ctx = refl; atendida = λ e. inr e }
  elegir_rs_code-Elegido motivo_io c = record { ctx = refl; atendida = λ e. inr e }
  elegir_rs_code-Elegido motivo_segfault c = record { ctx = refl; atendida = λ e. inr e }
  elegir_rs_code-Elegido motivo_fin_quantum c = elegir_interrumpido c
  elegir_rs_code-Elegido motivo_desalojo c = elegir_interrumpido c
  elegir_rs_code-Elegido cpu_continuar c = elegir_interrumpido c

module _ {S : Type 0} (servicio : Servicio S) (tam_pag : ℕ) (atoi : String → ℕ)
    (string_split : String → List String) where
  -- For a memory that answers reads with bytes, and tokens whose numbers are uint32_t: where an
  -- interruption comes in one of the rounds of the cycle, whatever program the process runs, the CPU
  -- answers the request to execute it, and what it sends back is the context of the same process, with
  -- the program counter and the registers in their ranges.
  pub cpu_handler_atender_ejecucion-Propio :
      (llegan : List Bool) (llega : Bool) (ctx : ContextoCpu) (c : Cpu S)
      → DaBytes servicio
      → ((s : String) → atoi s < 2 ^ 32)
      → IsContexto ctx
      → alguna llegan ≡ true
      → (r : Respuesta) × (c' : Cpu S) × (cpu_handler_atender_ejecucion servicio tam_pag atoi
            string_split llegan llega ctx c
          ≡ some (r, c'))
        × Propio ctx.pid r.ctx
  unfolding cpu_handler_atender_ejecucion ciclo_instruccion_ejecutar
  cpu_handler_atender_ejecucion-Propio llegan llega ctx c da_bytes rango h hay =
      let c0 : Cpu S = con_motivo cpu_continuar (record c { ctx = ctx }) in
      let inicio : Cpu S = record c0 { mmu = mmu_set_contexto c0.ctx c0.mmu } in
      let (c1, e) = bucle_ciclo-termina servicio tam_pag atoi string_split llegan inicio hay in
      let p1 =
        bucle_ciclo-Propio servicio tam_pag atoi string_split ctx.pid da_bytes rango llegan inicio
          c1 (record { pid = refl; en_rango = h }) e in
      let c2 : Cpu S = (if llega then interrupcion_disparar c1 else c1) in
      let res = elegir_rs_code c2.mmu.motivo_desalojo c2 in
      let igual2 : c2.ctx ≡ c1.ctx = con_llegada llega c1 in
      let igual : (responder res.0 res.1.ctx res.1.ultima_instruccion).ctx ≡ c1.ctx =
        (responder-campos res.0 res.1.ctx res.1.ultima_instruccion).0
        ∙ (elegir_rs_code-Elegido c2.mmu.motivo_desalojo c2).ctx
        ∙ igual2 in
      (
        responder res.0 res.1.ctx res.1.ultima_instruccion,
        res.1,
        rw (e, cpu_handler_atender_ejecucion) refl,
        subst (Propio ctx.pid) (sym igual) p1,
      )

  -- An interruption that comes after the cycle is told, or stays in the flag.
  llegada-queda :
      (llegan : List Bool) (ctx : ContextoCpu) (c : Cpu S) (r : Respuesta) (c' : Cpu S)
      → cpu_handler_atender_ejecucion servicio tam_pag atoi string_split llegan true ctx c
        ≡ some (r, c')
      → r.rs_code ≢ op_fin_de_quantum
      → c'.flag_interrupcion ≡ true
  unfolding cpu_handler_atender_ejecucion
  llegada-queda llegan ctx c r c' h ne =
      let inicio : Cpu S = con_motivo cpu_continuar (record c { ctx = ctx }) in
      elim (Option-cases
        (ciclo_instruccion_ejecutar servicio tam_pag atoi string_split llegan inicio)) [
          | inl nada ↦ ground arith
          | inr (c1, e) ↦
              let c2 : Cpu S = interrupcion_disparar c1 in
              let res = elegir_rs_code c2.mmu.motivo_desalojo c2 in
              let h1 : ◌≡◌ {A = Option (Respuesta × Cpu S)}
                  (some (responder res.0 res.1.ctx res.1.ultima_instruccion, res.1))
                  (some (r, c')) =
                ground arith in
              let er : responder res.0 res.1.ctx res.1.ultima_instruccion ≡ r = cc in
              let ec : res.1 ≡ c' = cc in
              let codigo : res.0 ≡ r.rs_code =
                sym (responder-campos res.0 res.1.ctx res.1.ultima_instruccion).1
                ∙ ap (λ x. x.rs_code) er in
              elim ((elegir_rs_code-Elegido c2.mmu.motivo_desalojo c2).atendida refl) [
                | inl (fin, _) ↦ absurd (ne (sym codigo ∙ fin))
                | inr queda ↦ ap (λ x. x.flag_interrupcion) (sym ec) ∙ queda
              ]
        ]

  -- With the flag set, the cycle ends before it fetches.
  ciclo-marcado :
      (otra : Bool) (otras : List Bool) (c : Cpu S)
      → c.flag_interrupcion ≡ true
      → ciclo_instruccion_ejecutar servicio tam_pag atoi string_split (otra ∷ otras) c
        ≡ some (record c { mmu = mmu_set_contexto c.ctx c.mmu; flag_interrupcion = true })
  unfolding ciclo_instruccion_ejecutar bucle_ciclo
  ciclo-marcado true otras c f = refl
  ciclo-marcado false otras c f = ground arith

  -- Where an interruption comes after a process has left its cycle, and the CPU sends the process back
  -- with any code but the end of the quantum, the next process that the CPU is given, whatever its
  -- program, comes back with the end of its quantum and with its context as it was received.
  pub cpu_handler_atender_ejecucion-heredada :
      (llegan : List Bool) (ctx : ContextoCpu) (c : Cpu S) (r : Respuesta) (c' : Cpu S)
      → cpu_handler_atender_ejecucion servicio tam_pag atoi string_split llegan true ctx c
        ≡ some (r, c')
      → r.rs_code ≢ op_fin_de_quantum
      → (otra : Bool) (otras : List Bool) (tarde : Bool) (siguiente : ContextoCpu)
      → (c'' : Cpu S) × (cpu_handler_atender_ejecucion servicio tam_pag atoi string_split
            (otra ∷ otras)
            tarde
            siguiente
            c'
          ≡ some (responder op_fin_de_quantum siguiente c'.ultima_instruccion, c''))
  unfolding cpu_handler_atender_ejecucion
  cpu_handler_atender_ejecucion-heredada llegan ctx c r c' h ne otra otras tarde siguiente =
      let f = llegada-queda llegan ctx c r c' h ne in
      let inicio : Cpu S = con_motivo cpu_continuar (record c' { ctx = siguiente }) in
      let c1 : Cpu S = record inicio {
        mmu = mmu_set_contexto siguiente inicio.mmu;
        flag_interrupcion = true;
      } in
      let e = ciclo-marcado otra otras inicio f in
      let con_tarde : (if tarde then interrupcion_disparar c1 else c1) ≡ c1 =
        con_llegada_marcada tarde c1 refl in
      let fin =
        elegir_rs_code-marcado c1.mmu.motivo_desalojo c1
          (mmu_set_contexto-motivo siguiente inicio.mmu) refl in
      (interrupcion_reset c1, rw (e, con_tarde, fin, cpu_handler_atender_ejecucion) refl)
