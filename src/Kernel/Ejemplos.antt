-- ===== src/Kernel/Ejemplos.antt =====
-- A kernel with four processes, on which the theorems about the kernel are applied.
pub mod Espera
use recursos_so.Prelude.{
  replicate, length, ℕ, ◌+◌, ◌≡◌, ◌↔◌, refl, Bool, true, false, List, [], ◌∷◌, some, arith, ◌==◌,
  if◌then◌else◌,
}
use recursos_so.Prelude.Int.{pos, ltb_ℤ}
use recursos_so.Modelo.{Registros, ContextoCpu}
use recursos_so.Kernel.{Estado, Pcb, Recurso, Kernel}
use recursos_so.Kernel.Colas.{cuantos}
use recursos_so.Kernel.Recursos.{buscar, recurso_wait, recurso_signal, recursos_liberar_adquiridos}
use recursos_so.Kernel.Recursos.Saldo.{saldo}
use recursos_so.Kernel.Recursos.Conserva.{uno_si, cede, saldo-recurso_wait, saldo-recurso_signal}
use recursos_so.Kernel.Recursos.Liberar.{Liberado, recursos_liberar_adquiridos-Liberado}
use recursos_so.Kernel.Banquero.{banquero_estado_seguro, activos}
use recursos_so.Kernel.Banquero.Seguro.{PuedenTerminar}
use recursos_so.Kernel.Banquero.Equivalencia.{banquero_decide}
use recursos_so.Kernel.Algoritmo.{algoritmo_obtener_prioridad, algoritmo_obtener_fifo}
use recursos_so.Kernel.Algoritmo.Eleccion.{Elegido, algoritmo_obtener_prioridad-Elegido}
use recursos_so.Kernel.Planificacion.{
  Motivo, manejar_interrupcion, desalojar_proceso, planificador_largo_plazo,
  planificador_corto_plazo,
}
use recursos_so.Kernel.Planificacion.Movimientos.{esperas, Ubicado, Coherente}
use recursos_so.Kernel.Planificacion.Coherencia.{
  manejar_interrupcion-Coherente, desalojar_proceso-Coherente, planificador_largo_plazo-Coherente,
  planificador_corto_plazo-Coherente, algoritmo_obtener_fifo-Toma,
}
use recursos_so.Kernel.Planificacion.Grado.{
  grado, grado-manejar_interrupcion, grado-desalojar_proceso, grado-planificador_largo_plazo,
  grado-planificador_corto_plazo,
}
use recursos_so.Kernel.Peticiones.{
  manejar_fin_quantum, manejar_wait_recurso, manejar_signal_recurso, manejar_fin_proceso,
  planificacion_finalizar_proceso,
}
use recursos_so.Kernel.Peticiones.Coherencia.{
  manejar_fin_quantum-Coherente, manejar_signal_recurso-Coherente,
}
use recursos_so.Kernel.Peticiones.Bloqueo.{manejar_wait_recurso-Coherente}
use recursos_so.Kernel.Peticiones.Fin.{manejar_fin_proceso-Coherente}
use recursos_so.Kernel.Peticiones.Kill.{planificacion_finalizar_proceso-Coherente}

abbrev ceros : Registros
ceros = record {
  ax = 0;
  bx = 0;
  cx = 0;
  dx = 0;
  eax = 0;
  ebx = 0;
  ecx = 0;
  edx = 0;
  si = 0;
  di = 0;
}

-- Process 1 runs and holds the resource; 2 is ready, 3 is new, and 4 waits for the resource.
abbrev pcb_de : ℕ → Pcb
pcb_de p = record {
  pid = p;
  program_counter = 0;
  registros = ceros;
  estado =
      if p == 1
      then Estado.exec
      else if p == 2
      then Estado.ready
      else if p == 3
      then Estado.new
      else Estado.block;
  quantum = 100;
  quantum_restante = 100;
  recursos_adquiridos = if p == 1 then "RA" ∷ [] else [];
  prioridad = pos p;
  con_reloj = false;
}

abbrev recurso_ra : Recurso
recurso_ra = record { nombre = "RA"; instancias = 0; cola_bloqueados = 4 ∷ [] }

abbrev cuatro : Kernel
cuatro = record {
  pcbs = pcb_de;
  cola_new = 3 ∷ [];
  cola_ready = 2 ∷ [];
  cola_exec = 1 ∷ [];
  cola_blocked = 4 ∷ [];
  cola_exit = [];
  recursos = recurso_ra ∷ [];
  sem_hay_new = 1;
  sem_hay_ready = 1;
  sem_mp = 0;
  interrumpidos = [];
  fines_memoria = [];
}

abbrev contexto_uno : ContextoCpu
contexto_uno = record { pid = 1; pc = 7; registros = ceros }

abbrev los_cuatro : List ℕ
los_cuatro = 1 ∷ 2 ∷ 3 ∷ 4 ∷ []

cuatro-Coherente : Coherente cuatro
unfolding cuantos esperas
cuatro-Coherente q = record {
  unico = ground arith;
  en_new = ground arith;
  en_ready = ground arith;
  en_exec = ground arith;
  en_blocked = ground arith;
  en_exit = ground arith;
  espera = ground arith;
}

cuantos_cuatro : cuantos 4 los_cuatro ≡ 1
unfolding cuantos
cuantos_cuatro = refl

cuantos_uno : cuantos 1 los_cuatro ≡ 1
unfolding cuantos
cuantos_uno = refl

buscar_ra : buscar "RA" cuatro.recursos ≡ some recurso_ra
unfolding buscar
buscar_ra = refl

banquero_decide_example :
    (b : Bool) × (banquero_estado_seguro cuatro ≡ some b)
    × ((b ≡ true)
        ↔ PuedenTerminar cuatro (λ r. r.instancias) (replicate (length (activos cuatro)) false))
banquero_decide_example = banquero_decide cuatro (tt, tt)

saldo-recurso_wait_example :
    saldo "RA" (recurso_wait cuatro 1 "RA").0 los_cuatro ≡ saldo "RA" cuatro los_cuatro
saldo-recurso_wait_example = saldo-recurso_wait los_cuatro "RA" "RA" cuatro 1 cuantos_uno

saldo-recurso_signal_example :
    saldo "RA" (recurso_signal cuatro "RA" (some 1)).0 los_cuatro + cede "RA" "RA" ("RA" ∷ [])
    ≡ saldo "RA" cuatro los_cuatro + uno_si true
saldo-recurso_signal_example =
    saldo-recurso_signal los_cuatro "RA" "RA" cuatro 1 recurso_ra buscar_ra (cuantos_cuatro, tt)
      cuantos_uno

recursos_liberar_adquiridos-Liberado_example :
    (k' : Kernel) × (ds : List ℕ) × (recursos_liberar_adquiridos cuatro 1 ≡ some (k', ds))
    × Liberado los_cuatro 1 cuatro k'
recursos_liberar_adquiridos-Liberado_example =
    recursos_liberar_adquiridos-Liberado los_cuatro cuatro 1 cuantos_uno ((cuantos_cuatro, tt), tt)

algoritmo_obtener_prioridad-Elegido_example :
    (q : ℕ) × (resto : List ℕ) × (algoritmo_obtener_prioridad pcb_de (4 ∷ 2 ∷ 3 ∷ [])
      ≡ some (q, resto))
    × Elegido ltb_ℤ (λ x. pos x) (4 ∷ 2 ∷ 3 ∷ []) q resto
algoritmo_obtener_prioridad-Elegido_example =
    algoritmo_obtener_prioridad-Elegido pcb_de 4 (2 ∷ 3 ∷ [])

manejar_interrupcion-Coherente_example : Ubicado 0 (manejar_interrupcion 1 Motivo.io 30 cuatro) 1
manejar_interrupcion-Coherente_example =
    manejar_interrupcion-Coherente (λ _. 0) 1 Motivo.io 30 cuatro cuatro-Coherente 1

desalojar_proceso-Coherente_example : Ubicado 0 (desalojar_proceso 1 cuatro) 1
desalojar_proceso-Coherente_example =
    desalojar_proceso-Coherente (λ _. 0) 1 cuatro cuatro-Coherente 1

planificador_largo_plazo-Coherente_example : Ubicado 0 (planificador_largo_plazo true cuatro) 3
planificador_largo_plazo-Coherente_example =
    planificador_largo_plazo-Coherente (λ _. 0) true cuatro cuatro-Coherente 3

manejar_fin_quantum-Coherente_example : Ubicado 0 (manejar_fin_quantum contexto_uno 30 cuatro) 1
manejar_fin_quantum-Coherente_example =
    manejar_fin_quantum-Coherente contexto_uno 30 cuatro cuatro-Coherente 1

manejar_wait_recurso-Coherente_example :
    Ubicado 0 (manejar_wait_recurso contexto_uno (some "RA") 30 cuatro) 1
manejar_wait_recurso-Coherente_example =
    manejar_wait_recurso-Coherente contexto_uno (some "RA") 30 cuatro cuatro-Coherente 1

manejar_signal_recurso-Coherente_example :
    Ubicado 0 (manejar_signal_recurso contexto_uno (some "RA") 30 cuatro) 4
manejar_signal_recurso-Coherente_example =
    manejar_signal_recurso-Coherente contexto_uno (some "RA") 30 cuatro cuatro-Coherente 4

manejar_fin_proceso-Coherente_example :
    (k' : Kernel) × (manejar_fin_proceso contexto_uno 30 cuatro ≡ some k') × Coherente k'
manejar_fin_proceso-Coherente_example =
    manejar_fin_proceso-Coherente contexto_uno 30 cuatro cuatro-Coherente

planificacion_finalizar_proceso-Coherente_example :
    (k' : Kernel) × (planificacion_finalizar_proceso 4 cuatro ≡ some k') × Coherente k'
planificacion_finalizar_proceso-Coherente_example =
    planificacion_finalizar_proceso-Coherente 4 cuatro (λ p q e e'. omega arith) cuatro-Coherente

planificador_corto_plazo-Coherente_example :
    Ubicado 0 (planificador_corto_plazo algoritmo_obtener_fifo true true cuatro) 2
planificador_corto_plazo-Coherente_example =
    planificador_corto_plazo-Coherente (λ _. 0) algoritmo_obtener_fifo true true cuatro
      algoritmo_obtener_fifo-Toma cuatro-Coherente 2

grado-manejar_interrupcion_example : grado (manejar_interrupcion 1 Motivo.exit 30 cuatro) ≡ 3
grado-manejar_interrupcion_example = grado-manejar_interrupcion 1 Motivo.exit 30 cuatro cc

grado-desalojar_proceso_example : grado (desalojar_proceso 1 cuatro) ≡ 3
grado-desalojar_proceso_example = grado-desalojar_proceso 1 cuatro

abbrev con_slot : Kernel
con_slot = record cuatro { sem_mp = 1 }

grado-planificador_largo_plazo_example : grado (planificador_largo_plazo true con_slot) ≡ 4
grado-planificador_largo_plazo_example = grado-planificador_largo_plazo true con_slot (omega arith)

grado-planificador_corto_plazo_example :
    grado (planificador_corto_plazo algoritmo_obtener_fifo true false cuatro) ≡ 3
grado-planificador_corto_plazo_example =
    grado-planificador_corto_plazo algoritmo_obtener_fifo true false cuatro
      algoritmo_obtener_fifo-Toma
