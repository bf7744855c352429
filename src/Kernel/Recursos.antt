-- ===== src/Kernel/Recursos.antt =====
-- kernel/src/peticiones/recursos.c: the dictionary of resources, and what WAIT, SIGNAL and the
-- end of a process do to it. The locks are held for the whole of each update.
pub mod Diccionario
pub mod Saldo
pub mod Conserva
pub mod Liberar
use recursos_so.Prelude.{
  ℕ, zero, suc, ◌+◌, ◌-◌, Bool, true, false, List, [], ◌∷◌, ◌++◌, Option, none, some, String,
  str_eq, ltb, ◌==◌, if◌then◌else◌, length,
}
use recursos_so.Kernel.{Pcb, Recurso, Kernel, escribir_pcb}

-- dictionary_get; dictionary_has_key is the test that it gives something.
unfoldable pub buscar : String → List Recurso → Option Recurso
buscar nombre [] = none
buscar nombre (r ∷ rs) = if str_eq r.nombre nombre then some r else buscar nombre rs

-- A store through the `t_recurso*` that dictionary_get gave.
unfoldable pub poner : Recurso → List Recurso → List Recurso
poner v [] = []
poner v (r ∷ rs) = if str_eq r.nombre v.nombre then v ∷ rs else r ∷ poner v rs

-- list_add(pcb->recursos_adquiridos, strdup(nombre))
abbrev pub adquirir : (ℕ → Pcb) → ℕ → String → ℕ → Pcb
adquirir h p nombre =
    escribir_pcb h p
      (record (h p) { recursos_adquiridos = (h p).recursos_adquiridos ++ nombre ∷ [] })

-- Returns whether the process has to block.
unfoldable pub recurso_wait : Kernel → ℕ → String → Kernel × Bool
unfolding buscar poner
recurso_wait k pcb nombre = elim (buscar nombre k.recursos) [
  | none ↦ (k, false)
  | some r ↦
      if ltb 0 r.instancias
      then (
        record k {
          recursos = poner (record r { instancias = r.instancias - 1 }) k.recursos;
          pcbs = adquirir k.pcbs pcb nombre;
        },
        false,
      )
      else (
        record k {
          recursos =
              poner (record r { cola_bloqueados = r.cola_bloqueados ++ pcb ∷ [] }) k.recursos;
        },
        true,
      )
]

-- The first occurrence of the name goes.
unfoldable pub quitar : String → List String → List String
quitar nombre [] = []
quitar nombre (x ∷ xs) = if str_eq x nombre then xs else x ∷ quitar nombre xs

-- A process that signals gives its instance up; there may be no such process.
unfoldable pub soltar : (ℕ → Pcb) → Option ℕ → String → ℕ → Pcb
unfolding quitar
soltar h none nombre = h
soltar h (some p) nombre =
    escribir_pcb h p
      (record (h p) { recursos_adquiridos = quitar nombre (h p).recursos_adquiridos })

-- The instance goes to the first process that waits for it, or back to the resource.
unfoldable pub entregar : Kernel → Recurso → String → Kernel × Option ℕ
unfolding poner
entregar k r nombre = elim r.cola_bloqueados [
  | [] ↦
      (record k { recursos = poner (record r { instancias = r.instancias + 1 }) k.recursos }, none)
  | desb ∷ resto ↦ (
    record k {
      recursos = poner (record r { cola_bloqueados = resto }) k.recursos;
      pcbs = adquirir k.pcbs desb nombre;
    },
    some desb,
  )
]

-- Returns the process that the signal unblocks.
unfoldable pub recurso_signal : Kernel → String → Option ℕ → Kernel × Option ℕ
unfolding buscar soltar entregar
recurso_signal k nombre signaler = elim (buscar nombre k.recursos) [
  | none ↦ (k, none)
  | some r ↦ entregar (record k { pcbs = soltar k.pcbs signaler nombre }) r nombre
]

-- The first entry of the queue that points to a PCB with that pid goes.
unfoldable pub quitar_pid : (ℕ → Pcb) → ℕ → List ℕ → List ℕ
quitar_pid h pid [] = []
quitar_pid h pid (b ∷ bs) = if (h b).pid == pid then bs else b ∷ quitar_pid h pid bs

unfoldable pub liberar_colas : (ℕ → Pcb) → ℕ → List Recurso → List Recurso
unfolding quitar_pid
liberar_colas h pid [] = []
liberar_colas h pid (r ∷ rs) =
    record r { cola_bloqueados = quitar_pid h pid r.cola_bloqueados } ∷ liberar_colas h pid rs

unfoldable pub recursos_liberar_proceso : Kernel → ℕ → Kernel
unfolding liberar_colas
recursos_liberar_proceso k pid = record k { recursos = liberar_colas k.pcbs pid k.recursos }

abbrev pub como_lista : Kernel × Option ℕ → Kernel × List ℕ
como_lista (k, desb) = (k, elim desb [ none ↦ [] | some p ↦ p ∷ [] ])

-- One round of the loop below, once the name has left the list of the process.
unfoldable pub devolver : Kernel → String → Kernel × List ℕ
unfolding buscar entregar
devolver k nombre = elim (buscar nombre k.recursos) [
  | none ↦ (k, [])
  | some r ↦ como_lista (entregar k r nombre)
]

abbrev pub con_nombres : Kernel → ℕ → List String → Kernel
con_nombres k p xs = record k {
  pcbs = escribir_pcb k.pcbs p (record (k.pcbs p) { recursos_adquiridos = xs });
}

-- `while (!list_is_empty(pcb->recursos_adquiridos))`, on fuel: the names of `pcb` go one by one,
-- and `desbloqueados` collects the processes that got them. `none` means that the fuel ran out.
unfoldable pub liberar_bucle : ℕ → Kernel → ℕ → List ℕ → Option (Kernel × List ℕ)
unfolding devolver
liberar_bucle zero k pcb desbloqueados = elim (k.pcbs pcb).recursos_adquiridos [
  | [] ↦ some (k, desbloqueados)
  | _ ∷ _ ↦ none
]
liberar_bucle (suc fuel) k pcb desbloqueados = elim (k.pcbs pcb).recursos_adquiridos [
  | [] ↦ some (k, desbloqueados)
  | nombre ∷ resto ↦
      let (k', nuevos) = devolver (con_nombres k pcb resto) nombre in
      liberar_bucle fuel k' pcb (desbloqueados ++ nuevos)
]

-- The entries of all the queues.
unfoldable pub en_espera : List Recurso → ℕ
en_espera [] = 0
en_espera (r ∷ rs) = length r.cola_bloqueados + en_espera rs

-- A round takes a name from `pcb` or, where that very process got it back, an entry of a queue.
abbrev pub pendiente : Kernel → ℕ → ℕ
pendiente k pcb = length (k.pcbs pcb).recursos_adquiridos + en_espera k.recursos

unfoldable pub recursos_liberar_adquiridos : Kernel → ℕ → Option (Kernel × List ℕ)
unfolding liberar_bucle en_espera
recursos_liberar_adquiridos k pcb = liberar_bucle (pendiente k pcb) k pcb []
