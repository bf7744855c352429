-- ===== src/Kernel/Ejemplos/Espera.antt =====
-- Two processes, each of which waits for the resource that the other one holds.
use recursos_so.Prelude.{
  false, ℕ, ◌≡◌, ◌↔◌, refl, Bool, true, List, [], ◌∷◌, some, ◌==◌, if◌then◌else◌,
}
use recursos_so.Prelude.Int.{pos}
use recursos_so.Kernel.{Estado, Pcb, Kernel}
use recursos_so.Kernel.Grafo.{grafo_espera_detectar_deadlock}
use recursos_so.Kernel.Grafo.Espera.{Abrazo}
use recursos_so.Kernel.Grafo.Decide.{grafo_espera_detectar_deadlock_decide}

abbrev pcb_nuevo : Pcb
pcb_nuevo = record {
  pid = 1;
  program_counter = 0;
  registros = record {
    ax = 0;
    bx = 0;
    cx = 0;
    dx = 0;
    eax = 0;
    ebx = 0;
    ecx = 0;
    edx = 0;
    si = 0;
    di = 0;
  };
  estado = Estado.new;
  quantum = 2000;
  quantum_restante = 2000;
  recursos_adquiridos = [];
  prioridad = pos 0;
  con_reloj = false;
}

abbrev sin_procesos : Kernel
sin_procesos = record {
  pcbs = λ q. pcb_nuevo;
  cola_new = [];
  cola_ready = [];
  cola_exec = [];
  cola_blocked = [];
  cola_exit = [];
  recursos = record { nombre = "RA"; instancias = 1; cola_bloqueados = [] } ∷ [];
  sem_hay_new = 0;
  sem_hay_ready = 0;
  sem_mp = 2;
  interrumpidos = [];
  fines_memoria = [];
}

abbrev bloqueado : ℕ → Pcb
bloqueado p = record pcb_nuevo {
  pid = p;
  estado = Estado.block;
  recursos_adquiridos = if p == 1 then "RA" ∷ [] else "RB" ∷ [];
}

abbrev abrazados : Kernel
abrazados = record sin_procesos {
  pcbs = bloqueado;
  cola_blocked = 1 ∷ 2 ∷ [];
  recursos =
      record { nombre = "RA"; instancias = 0; cola_bloqueados = 2 ∷ [] }
      ∷ record { nombre = "RB"; instancias = 0; cola_bloqueados = 1 ∷ [] }
      ∷ [];
}

los_dos : grafo_espera_detectar_deadlock abrazados ≡ some (true, 0 ∷ 1 ∷ [])
unfolding grafo_espera_detectar_deadlock
los_dos = refl

grafo_espera_detectar_deadlock_decide_example :
    (hay : Bool) × (ciclo : List ℕ) × (grafo_espera_detectar_deadlock abrazados ≡ some (hay, ciclo))
    × ((hay ≡ true) ↔ Abrazo abrazados)
grafo_espera_detectar_deadlock_decide_example = grafo_espera_detectar_deadlock_decide abrazados
