-- ===== src/Kernel/Planificacion.antt =====
-- kernel/src/planificacion/{planificacion,largo_plazo,corto_plazo}.c and
-- kernel/src/peticiones/{interrupciones,interrupciones_handlers}.c: the moves of the processes between
-- the queues. Each function is one call, or one round of a thread, with its locks held in turn as the
-- code holds them; another thread runs between two calls. The answers of Memoria and of the CPU, the
-- elapsed time and the algorithm of the moment are arguments; logs are left out.
pub mod Movimientos
pub mod Coherencia
pub mod Grado
use recursos_so.Prelude.{
  ℕ, suc, ◌+◌, ◌-◌, Bool, true, false, List, [], ◌∷◌, ◌++◌, Option, none, some, String,
  if◌then◌else◌,
}
use recursos_so.Modelo.{ContextoCpu}
use recursos_so.Kernel.{Estado, Pcb, Kernel, escribir_pcb}
use recursos_so.Kernel.Colas.{buscar_pid, quitar_puntero}
use recursos_so.Kernel.Recursos.{
  recurso_wait, recurso_signal, recursos_liberar_proceso, recursos_liberar_adquiridos,
}

-- The strings MOTIVO_QUANTUM, MOTIVO_IO, MOTIVO_WAIT and MOTIVO_EXIT; `otro` is any other.
pub data Motivo : Type 0 where
  quantum io wait exit otro : Motivo

abbrev pub con_estado : (ℕ → Pcb) → ℕ → Estado → ℕ → Pcb
con_estado h p e = escribir_pcb h p (record (h p) { estado = e })

-- estado = READY; list_add(cola_ready, pcb); sem_post(&sem_hay_ready)
abbrev pub a_ready : ℕ → Kernel → Kernel
a_ready p k = record k {
  pcbs = con_estado k.pcbs p Estado.ready;
  cola_ready = k.cola_ready ++ p ∷ [];
  sem_hay_ready = k.sem_hay_ready + 1;
}

-- The VRR quantum that is left after `ms` milliseconds, where a clock runs.
abbrev pub descontar : ℕ → Pcb → Pcb
descontar ms pcb =
    if pcb.con_reloj
    then record pcb { quantum_restante = pcb.quantum_restante - ms; con_reloj = false }
    else pcb

abbrev pub a_blocked : ℕ → ℕ → Kernel → Kernel
a_blocked ms p k = record k {
  pcbs = escribir_pcb k.pcbs p (record (descontar ms (k.pcbs p)) { estado = Estado.block });
  cola_blocked = k.cola_blocked ++ p ∷ [];
}

-- The branches of manejar_interrupcion, once the process has left EXEC.
unfoldable pub destino : Motivo → ℕ → ℕ → Kernel → Kernel
destino quantum ms p k = a_ready p (record k {
  pcbs = escribir_pcb k.pcbs p (record (k.pcbs p) { quantum_restante = (k.pcbs p).quantum });
})
destino io ms p k = a_blocked ms p k
destino wait ms p k = a_blocked ms p k
destino exit ms p k = record k {
  pcbs = con_estado k.pcbs p Estado.exit;
  cola_exit = k.cola_exit ++ p ∷ [];
  sem_mp = k.sem_mp + 1;
}
destino otro ms p k = k

unfoldable pub manejar_interrupcion : ℕ → Motivo → ℕ → Kernel → Kernel
unfolding destino buscar_pid quitar_puntero
manejar_interrupcion pid motivo ms k = elim (buscar_pid k.pcbs pid k.cola_exec) [
  | none ↦ k
  | some p ↦ destino motivo ms p (record k { cola_exec = quitar_puntero p k.cola_exec })
]

unfoldable pub desalojar_proceso : ℕ → Kernel → Kernel
unfolding buscar_pid quitar_puntero
desalojar_proceso pid k = elim (buscar_pid k.pcbs pid k.cola_exec) [
  | none ↦ k
  | some p ↦
      a_ready p (record k {
        cola_exec = quitar_puntero p k.cola_exec;
        interrumpidos = pid ∷ k.interrumpidos;
      })
]

unfoldable pub ingresar_new : ℕ → Kernel → Kernel
ingresar_new p k = record k { cola_new = k.cola_new ++ p ∷ []; sem_hay_new = k.sem_hay_new + 1 }

-- A round of planificador_largo_plazo behind its waits, which took one from sem_hay_new and sem_mp.
-- `aceptado` is the answer of Memoria; a process that it refuses is destroyed.
unfoldable pub ronda_largo_plazo : Bool → Kernel → Kernel
ronda_largo_plazo aceptado k = elim k.cola_new [
  | [] ↦ record k { sem_mp = k.sem_mp + 1 }
  | p ∷ resto ↦ if aceptado then a_ready p (record k { cola_new = resto }) else record k {
    cola_new = resto;
    pcbs = con_estado k.pcbs p Estado.exit;
    sem_mp = k.sem_mp + 1;
  }
]

unfoldable pub planificador_largo_plazo : Bool → Kernel → Kernel
unfolding ronda_largo_plazo
planificador_largo_plazo aceptado k =
    ronda_largo_plazo aceptado (record k { sem_hay_new = k.sem_hay_new - 1; sem_mp = k.sem_mp - 1 })

-- The process that proximoAEjecutar took goes to EXEC, and back to READY where the CPU is not reached.
-- With a quantum a clock and a timer start.
unfoldable pub despachar : Bool → Bool → ℕ → Kernel → Kernel
unfolding quitar_puntero
despachar usa_quantum enviado p k =
    let k' = record k {
      pcbs = con_estado k.pcbs p Estado.exec;
      cola_exec = k.cola_exec ++ p ∷ [];
    } in
    if enviado
    then record k' {
      pcbs =
          escribir_pcb k'.pcbs p (record (k'.pcbs p) {
            con_reloj = if usa_quantum then true else (k'.pcbs p).con_reloj;
          });
    }
    else a_ready p (record k' { cola_exec = quitar_puntero p k'.cola_exec })

-- A round of planificador_corto_plazo behind its wait on sem_hay_ready. What proximoAEjecutar gives
-- is the argument: the process and the rest of the queue.
unfoldable pub planificador_corto_plazo :
    (List ℕ → Option (ℕ × List ℕ)) → Bool → Bool → Kernel → Kernel
unfolding despachar
planificador_corto_plazo proximo usa_quantum enviado k = elim (proximo k.cola_ready) [
  | none ↦ record k { sem_hay_ready = k.sem_hay_ready - 1 }
  | some (p, resto) ↦
      despachar usa_quantum enviado p
        (record k { cola_ready = resto; sem_hay_ready = k.sem_hay_ready - 1 })
]

-- What a timer does when its time is over: the algorithm may have changed, or the process be gone.
unfoldable pub timer_quantum : ℕ → Bool → Kernel → Kernel
unfolding buscar_pid
timer_quantum pid usa_quantum k =
    if usa_quantum
    then elim (buscar_pid k.pcbs pid k.cola_exec) [
      | none ↦ k
      | some _ ↦ record k { interrumpidos = pid ∷ k.interrumpidos }
    ]
    else k

-- A process that waited for a resource leaves BLOCKED and becomes READY.
abbrev pub desbloquear : ℕ → Kernel → Kernel
desbloquear p k = a_ready p (record k { cola_blocked = quitar_puntero p k.cola_blocked })

-- The loop over `desbloqueados`.
unfoldable pub desbloquear_todos : List ℕ → Kernel → Kernel
unfolding quitar_puntero
desbloquear_todos [] k = k
desbloquear_todos (p ∷ ps) k = desbloquear_todos ps (desbloquear p k)
