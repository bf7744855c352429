-- ===== src/Kernel/Banquero.antt =====
-- kernel/src/deteccion_deadlock/banquero.c: the matrices, and the search for a safe sequence.
pub mod Segura
pub mod Rondas
pub mod Correcto
pub mod Decide
pub mod Colas
pub mod Seguro
pub mod Matrices
pub mod Equivalencia
use recursos_so.Prelude.{
  ℕ, zero, suc, ◌+◌, Bool, true, false, ◌&&◌, List, [], ◌∷◌, ◌++◌, map, Option, none, some, String,
  str_eq, ltb, ◌==◌, if◌then◌else◌, length, get_or, set, replicate,
}
use recursos_so.Kernel.{Estado, Pcb, Recurso, Kernel}

-- asignado[p][r]++ at the first r whose name is `nombre`, and nothing where there is none.
unfoldable pub anotar : List Recurso → String → List ℕ → List ℕ
anotar [] nombre fila = fila
anotar (r ∷ rs) nombre [] = []
anotar (r ∷ rs) nombre (n ∷ fila) =
    if str_eq nombre r.nombre then (n + 1) ∷ fila else n ∷ anotar rs nombre fila

-- The row of a process: one step for each name in its `recursos_adquiridos`.
unfoldable pub fila_asignado : List Recurso → List String → List ℕ → List ℕ
fila_asignado rs [] fila = fila
fila_asignado rs (nombre ∷ nombres) fila = fila_asignado rs nombres (anotar rs nombre fila)

-- Whether some blocked process of the queue has that pid.
unfoldable pub en_cola : (ℕ → Pcb) → ℕ → List ℕ → Bool
en_cola h pid [] = false
en_cola h pid (b ∷ bs) = if (h b).pid == pid then true else en_cola h pid bs

unfoldable pub fila_necesidad : (ℕ → Pcb) → List Recurso → ℕ → List ℕ
unfolding en_cola
fila_necesidad h [] pid = []
fila_necesidad h (r ∷ rs) pid =
    (if en_cola h pid r.cola_bloqueados then 1 else 0) ∷ fila_necesidad h rs pid

abbrev pub es_block : Estado → Bool
es_block Estado.block = true
es_block _ = false

-- The variables of the simulation.
pub record Simulacion : Type 0 where
  pub work : List ℕ
  pub terminado : List Bool
  pub completados : ℕ
  pub progreso : Bool

-- Whether necesidad[p] <= work, cell by cell.
unfoldable pub puede : List ℕ → List ℕ → Bool
puede [] work = true
puede (n ∷ ns) [] = true
puede (n ∷ ns) (w ∷ ws) = if ltb w n then false else puede ns ws

-- work[r] += asignado[p][r], for every r.
unfoldable pub sumar : List ℕ → List ℕ → List ℕ
sumar [] bs = []
sumar (w ∷ ws) [] = w ∷ ws
sumar (w ∷ ws) (b ∷ bs) = (w + b) ∷ sumar ws bs

-- The body of the `for` over the processes.
unfoldable pub intentar : List (List ℕ) → List (List ℕ) → ℕ → Simulacion → Simulacion
intentar asignado necesidad p s =
    if get_or s.terminado p true
    then s
    else if puede (get_or necesidad p []) s.work
    then record {
      work = sumar s.work (get_or asignado p []);
      terminado = set s.terminado p true;
      completados = suc s.completados;
      progreso = true;
    }
    else s

-- The `for`: `k` rounds from process `p` on.
unfoldable pub barrer : List (List ℕ) → List (List ℕ) → ℕ → ℕ → Simulacion → Simulacion
barrer asignado necesidad zero p s = s
barrer asignado necesidad (suc k) p s =
    barrer asignado necesidad k (suc p) (intentar asignado necesidad p s)

-- The `while`, on fuel; `none` means that the fuel ran out.
unfoldable pub bucle : List (List ℕ) → List (List ℕ) → ℕ → ℕ → Simulacion → Option Simulacion
bucle asignado necesidad n zero s = none
bucle asignado necesidad n (suc fuel) s = elim (s.progreso && ltb s.completados n) [
  | true ↦
      bucle asignado necesidad n fuel
        (barrer asignado necesidad n 0 (record s { progreso = false }))
  | false ↦ some s
]

abbrev pub inicial : List ℕ → ℕ → Simulacion
inicial disponible n = record {
  work = disponible;
  terminado = replicate n false;
  completados = 0;
  progreso = true;
}

-- completados == num_procesos, once the loop has ended.
unfoldable pub simular : List ℕ → List (List ℕ) → List (List ℕ) → ℕ → Option Bool
simular disponible asignado necesidad n =
    elim (bucle asignado necesidad n (suc (suc n)) (inicial disponible n)) [
      | none ↦ none
      | some s ↦ some (s.completados == n)
    ]

-- The processes that are in READY, EXEC or BLOCKED.
abbrev pub activos : Kernel → List ℕ
activos k = k.cola_ready ++ (k.cola_exec ++ k.cola_blocked)

abbrev pub disponibles : Kernel → List ℕ
disponibles k = map (λ r. r.instancias) k.recursos

abbrev pub asignados : Kernel → List (List ℕ)
asignados k =
    map
      (λ p.
        fila_asignado k.recursos (k.pcbs p).recursos_adquiridos (replicate (length k.recursos) 0))
      (activos k)

abbrev pub necesidades : Kernel → List (List ℕ)
necesidades k =
    map
      (λ p.
        if es_block (k.pcbs p).estado
        then fila_necesidad k.pcbs k.recursos (k.pcbs p).pid
        else replicate (length k.recursos) 0)
      (activos k)

unfoldable pub banquero_estado_seguro : Kernel → Option Bool
banquero_estado_seguro k =
    if length k.recursos == 0
    then some true
    else if length (activos k) == 0
    then some true
    else simular (disponibles k) (asignados k) (necesidades k) (length (activos k))
