-- ===== src/Kernel.antt =====
-- kernel/src/pcb/pcb.h, kernel/src/peticiones/recursos.h, kernel/src/planificacion/planificacion.h:
-- the state of the kernel that the planner, the resources and the deadlock detectors share.
-- A `t_pcb*` is a number, and `pcbs` is the heap that it points into: the queues alias PCBs.
pub mod Colas
pub mod Recursos
pub mod Banquero
pub mod Grafo
pub mod Algoritmo
pub mod Planificacion
pub mod Peticiones
mod Ejemplos
use recursos_so.Prelude.{ℕ, Bool, List, String, ◌==◌, if◌then◌else◌}
use recursos_so.Modelo.{Registros}
use recursos_so.Prelude.Int.{ℤ}

-- t_estado
pub data Estado : Type 0 where
  new ready exec block exit : Estado

-- t_pcb, without the fields that the modelled code only creates and frees.
pub record Pcb : Type 0 where
  pub pid : ℕ
  pub program_counter : ℕ
  pub registros : Registros
  pub estado : Estado
  pub quantum : ℕ
  pub quantum_restante : ℕ
  pub recursos_adquiridos : List String
  pub prioridad : ℤ
  -- whether tiempo_inicio_exec points to a clock
  pub con_reloj : Bool

-- t_recurso, without its mutex.
pub record Recurso : Type 0 where
  pub nombre : String
  pub instancias : ℕ
  pub cola_bloqueados : List ℕ

pub record Kernel : Type 0 where
  pub pcbs : ℕ → Pcb
  pub cola_new : List ℕ
  pub cola_ready : List ℕ
  pub cola_exec : List ℕ
  pub cola_blocked : List ℕ
  pub cola_exit : List ℕ
  -- diccionario_recursos, in the order in which dictionary_keys lists it
  pub recursos : List Recurso
  pub sem_hay_new : ℕ
  pub sem_hay_ready : ℕ
  pub sem_mp : ℕ
  -- the pids of enviar_interrupt_cpu and of solicitar_fin_proceso_memoria, the last one first
  pub interrumpidos : List ℕ
  pub fines_memoria : List ℕ

-- A store through a pointer.
abbrev pub escribir_pcb : (ℕ → Pcb) → ℕ → Pcb → ℕ → Pcb
escribir_pcb h p v q = if p == q then v else h q
