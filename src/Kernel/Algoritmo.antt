-- ===== src/Kernel/Algoritmo.antt =====
-- kernel/src/planificacion/algoritmo.c: the choice of the next process from the READY queue.
-- HRRN compares response ratios of type `double`, computed from a clock of the commons library:
-- the ratio of each process and the test `>` are parameters.
pub mod Eleccion
use recursos_so.Prelude.{
  ℕ, zero, suc, ◌+◌, Bool, true, false, List, [], ◌∷◌, Option, none, some, arith, ◌==◌,
  if◌then◌else◌,
}
use recursos_so.Prelude.Int.{ℤ, ltb_ℤ}
use recursos_so.Kernel.{Pcb}

-- list_remove(cola, idx)
unfoldable pub list_remove : ℕ → List ℕ → Option (ℕ × List ℕ)
list_remove i [] = none
list_remove zero (p ∷ ps) = some (p, ps)
list_remove (suc i) (p ∷ ps) = elim (list_remove i ps) [
  | none ↦ none
  | some (q, qs) ↦ some (q, p ∷ qs)
]

unfoldable pub algoritmo_obtener_fifo : List ℕ → Option (ℕ × List ℕ)
unfolding list_remove
algoritmo_obtener_fifo cola = list_remove 0 cola

abbrev pub algoritmo_obtener_rr : List ℕ → Option (ℕ × List ℕ)
algoritmo_obtener_rr = algoritmo_obtener_fifo

abbrev pub algoritmo_obtener_vrr : List ℕ → Option (ℕ × List ℕ)
algoritmo_obtener_vrr = algoritmo_obtener_fifo

-- The loop from index `i` on: `idx` is the best index so far, and `v` its value.
unfoldable pub buscar_mejor : {V : Type 0} → (V → V → Bool) → (ℕ → V) → List ℕ → ℕ → ℕ → V → ℕ
buscar_mejor mejor valor [] i idx v = idx
buscar_mejor mejor valor (p ∷ ps) i idx v = elim (mejor (valor p) v) [
  | true ↦ buscar_mejor mejor valor ps (suc i) i (valor p)
  | false ↦ buscar_mejor mejor valor ps (suc i) idx v
]

unfoldable pub obtener_mejor :
    {V : Type 0} → (V → V → Bool) → (ℕ → V) → List ℕ → Option (ℕ × List ℕ)
unfolding buscar_mejor list_remove
obtener_mejor mejor valor [] = none
obtener_mejor mejor valor (p ∷ ps) =
    list_remove (buscar_mejor mejor valor ps 1 0 (valor p)) (p ∷ ps)

-- `rr > max`
abbrev pub algoritmo_obtener_hrrn :
    {V : Type 0} → (V → V → Bool) → (ℕ → V) → List ℕ → Option (ℕ × List ℕ)
algoritmo_obtener_hrrn mayor respuesta = obtener_mejor mayor respuesta

-- `p->prioridad < min_prio`
unfoldable pub algoritmo_obtener_prioridad : (ℕ → Pcb) → List ℕ → Option (ℕ × List ℕ)
unfolding obtener_mejor
algoritmo_obtener_prioridad h = obtener_mejor ltb_ℤ (λ p. (h p).prioridad)
