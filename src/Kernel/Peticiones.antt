-- ===== src/Kernel/Peticiones.antt =====
-- kernel/src/peticiones/interrupciones_handlers.c and planificacion_finalizar_proceso of
-- kernel/src/planificacion/planificacion.c: the requests that touch both the queues and the resources.
-- The deadlock detectors, which manejar_wait_recurso calls after it blocks a process, only log.
pub mod Esperas
pub mod Coherencia
pub mod Bloqueo
pub mod Fin
pub mod Kill
use recursos_so.Prelude.{
  ℕ, ◌+◌, Bool, true, false, List, [], ◌∷◌, ◌++◌, Option, none, some, String, ◌==◌, if◌then◌else◌,
}
use recursos_so.Modelo.{ContextoCpu}
use recursos_so.Kernel.{Estado, Pcb, Kernel, escribir_pcb}
use recursos_so.Kernel.Colas.{buscar_pid, quitar_puntero}
use recursos_so.Kernel.Recursos.{
  recurso_wait, recurso_signal, recursos_liberar_proceso, recursos_liberar_adquiridos,
}
use recursos_so.Kernel.Planificacion.{
  Motivo, con_estado, manejar_interrupcion, desbloquear, desbloquear_todos,
}

-- pcb->program_counter = ctx->pc; pcb->registros = ctx->registros
abbrev pub actualizar : ContextoCpu → ℕ → Kernel → Kernel
actualizar ctx p k = record k {
  pcbs =
      escribir_pcb k.pcbs p
        (record (k.pcbs p) { program_counter = ctx.pc; registros = ctx.registros });
}

-- The same, for the process of the context, if it is still in EXEC.
unfoldable pub actualizar_exec : ContextoCpu → Kernel → Kernel
unfolding buscar_pid
actualizar_exec ctx k = elim (buscar_pid k.pcbs ctx.pid k.cola_exec) [
  | none ↦ k
  | some p ↦ actualizar ctx p k
]

unfoldable pub manejar_fin_quantum : ContextoCpu → ℕ → Kernel → Kernel
unfolding buscar_pid
manejar_fin_quantum ctx ms k = elim (buscar_pid k.pcbs ctx.pid k.cola_exec) [
  | none ↦ k
  | some p ↦ manejar_interrupcion ctx.pid Motivo.quantum ms (actualizar ctx p k)
]

-- Which way the process goes after recurso_wait.
unfoldable pub seguir_wait : ℕ → ℕ → Kernel × Bool → Kernel
seguir_wait pid ms (k, true) = manejar_interrupcion pid Motivo.wait ms k
seguir_wait pid ms (k, false) = manejar_interrupcion pid Motivo.quantum ms k

-- `none` for the name is a NULL pointer.
unfoldable pub manejar_wait_recurso : ContextoCpu → Option String → ℕ → Kernel → Kernel
unfolding seguir_wait buscar_pid
manejar_wait_recurso ctx none ms k = manejar_interrupcion ctx.pid Motivo.quantum ms k
manejar_wait_recurso ctx (some nombre) ms k = elim (buscar_pid k.pcbs ctx.pid k.cola_exec) [
  | none ↦ k
  | some p ↦ seguir_wait ctx.pid ms (recurso_wait (actualizar ctx p k) p nombre)
]

-- Whether list_remove_element finds the pointer.
unfoldable pub esta : ℕ → List ℕ → Bool
esta p [] = false
esta p (q ∷ qs) = if p == q then true else esta p qs

unfoldable pub seguir_signal : Kernel × Option ℕ → Kernel
unfolding esta
seguir_signal (k, none) = k
seguir_signal (k, some desb) = if esta desb k.cola_blocked then desbloquear desb k else k

unfoldable pub manejar_signal_recurso : ContextoCpu → Option String → ℕ → Kernel → Kernel
unfolding seguir_signal actualizar_exec
manejar_signal_recurso ctx none ms k = manejar_interrupcion ctx.pid Motivo.quantum ms k
manejar_signal_recurso ctx (some nombre) ms k = manejar_interrupcion ctx.pid Motivo.quantum ms (
    actualizar_exec ctx
      (seguir_signal (recurso_signal k nombre (buscar_pid k.pcbs ctx.pid k.cola_exec))))

-- recursos_liberar_adquiridos, and the loop over what it gives; `none` would be a loop without end.
unfoldable pub liberar_y_desbloquear : ℕ → Kernel → Option Kernel
liberar_y_desbloquear p k = elim (recursos_liberar_adquiridos k p) [
  | none ↦ none
  | some (k', ds) ↦ some (desbloquear_todos ds k')
]

unfoldable pub manejar_fin_proceso : ContextoCpu → ℕ → Kernel → Option Kernel
unfolding liberar_y_desbloquear
manejar_fin_proceso ctx ms k = elim (buscar_pid k.pcbs ctx.pid k.cola_exec) [
  | none ↦ some k
  | some p ↦
      elim (liberar_y_desbloquear p
        (manejar_interrupcion ctx.pid Motivo.exit ms (actualizar ctx p k))) [
          | none ↦ none
          | some k' ↦ some (record k' { fines_memoria = ctx.pid ∷ k'.fines_memoria })
        ]
]

-- Where planificacion_finalizar_proceso finds the process: NEW, READY, BLOCKED or EXEC, in this order.
pub data Hallado : Type 0 where
  en_ninguna : Hallado
  en_new en_otra : ℕ → Kernel → Hallado

unfoldable pub buscar_en_exec : ℕ → Kernel → Hallado
buscar_en_exec pid k = elim (buscar_pid k.pcbs pid k.cola_exec) [
  | none ↦ en_ninguna
  | some p ↦ en_otra p (record k {
    cola_exec = quitar_puntero p k.cola_exec;
    interrumpidos = (k.pcbs p).pid ∷ k.interrumpidos;
  })
]

unfoldable pub buscar_en_blocked : ℕ → Kernel → Hallado
unfolding buscar_en_exec
buscar_en_blocked pid k = elim (buscar_pid k.pcbs pid k.cola_blocked) [
  | none ↦ buscar_en_exec pid k
  | some p ↦ en_otra p (record k { cola_blocked = quitar_puntero p k.cola_blocked })
]

unfoldable pub buscar_en_ready : ℕ → Kernel → Hallado
unfolding buscar_en_blocked
buscar_en_ready pid k = elim (buscar_pid k.pcbs pid k.cola_ready) [
  | none ↦ buscar_en_blocked pid k
  | some p ↦ en_otra p (record k { cola_ready = quitar_puntero p k.cola_ready })
]

unfoldable pub buscar_en_colas : ℕ → Kernel → Hallado
unfolding buscar_en_ready
buscar_en_colas pid k = elim (buscar_pid k.pcbs pid k.cola_new) [
  | none ↦ buscar_en_ready pid k
  | some p ↦ en_new p (record k { cola_new = quitar_puntero p k.cola_new })
]

-- estado = EXIT; list_add(cola_exit, encontrado)
abbrev pub a_exit : ℕ → Kernel → Kernel
a_exit p k = record k { pcbs = con_estado k.pcbs p Estado.exit; cola_exit = k.cola_exit ++ p ∷ [] }

unfoldable pub terminar : ℕ → Hallado → Kernel → Option Kernel
unfolding liberar_y_desbloquear
terminar pid en_ninguna k = some k
terminar pid (en_new p k') k = some (a_exit p k')
terminar pid (en_otra p k') k =
    elim (liberar_y_desbloquear p (
      recursos_liberar_proceso (record (a_exit p k') { fines_memoria = pid ∷ k'.fines_memoria })
        pid)) [ none ↦ none | some k2 ↦ some (record k2 { sem_mp = k2.sem_mp + 1 }) ]

unfoldable pub planificacion_finalizar_proceso : ℕ → Kernel → Option Kernel
unfolding terminar buscar_en_colas
planificacion_finalizar_proceso pid k = terminar pid (buscar_en_colas pid k) k
