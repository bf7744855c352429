-- ===== src/Cpu/Tlb.antt =====
-- cpu/src/tlb/tlb.c. The entries in use are a list: `size` is its length, and the slots past it, which
-- no function reads, are left out. The clock of the uses, a uint64_t, is taken as a number.
pub mod Leyes
pub mod Victima
use recursos_so.Prelude.{
  ℕ, zero, suc, ◌+◌, ◌%◌, Bool, true, false, not, ◌&&◌, List, [], ◌∷◌, ◌++◌, Option, none, some,
  ltb, if◌then◌else◌, length, set, ◌==◌,
}

-- t_tlb_entry
pub record Entrada : Type 0 where
  pub pid : ℕ
  pub pagina : ℕ
  pub marco : ℕ
  pub last_use : ℕ

-- t_tlb, with the static clock_lru and fifo_ptr.
pub record Tlb : Type 0 where
  pub entradas : List Entrada
  pub max : ℕ
  pub lru : Bool
  pub clock_lru : ℕ
  pub fifo_ptr : ℕ

-- The clock is not set back.
unfoldable pub tlb_init : ℕ → Bool → Tlb → Tlb
tlb_init entradas lru t = record t { entradas = []; max = entradas; lru = lru; fifo_ptr = 0 }

abbrev pub es_de : ℕ → ℕ → Entrada → Bool
es_de pid pagina e = (e.pid == pid) && (e.pagina == pagina)

-- The loop of tlb_lookup: the entry that was hit has the new time of use.
unfoldable pub buscar_entrada : ℕ → ℕ → ℕ → List Entrada → Option (ℕ × List Entrada)
buscar_entrada ahora pid pagina [] = none
buscar_entrada ahora pid pagina (e ∷ es) =
    let resto = buscar_entrada ahora pid pagina es in
    if es_de pid pagina e
    then some (e.marco, record e { last_use = ahora } ∷ es)
    else elim resto [ none ↦ none | some (marco, es1) ↦ some (marco, e ∷ es1) ]

unfoldable pub tlb_lookup : ℕ → ℕ → Tlb → Option ℕ × Tlb
unfolding buscar_entrada
tlb_lookup pid pagina t = elim (buscar_entrada (t.clock_lru + 1) pid pagina t.entradas) [
  | none ↦ (none, t)
  | some (marco, es) ↦ (some marco, record t { entradas = es; clock_lru = t.clock_lru + 1 })
]

-- The loop of elegir_victima: from slot `i` on, with the least so far in slot `min`.
unfoldable pub menos_usada : List Entrada → ℕ → ℕ → ℕ → ℕ
menos_usada [] i min uso = min
menos_usada (e ∷ es) i min uso =
    if ltb e.last_use uso
    then menos_usada es (suc i) i e.last_use
    else menos_usada es (suc i) min uso

-- elegir_victima; it is called with LRU, for which it looks at the uses.
unfoldable pub elegir_victima : Tlb → ℕ
unfolding menos_usada
elegir_victima t =
    if t.lru then elim t.entradas [ [] ↦ 0 | e ∷ es ↦ menos_usada es 1 0 e.last_use ] else 0

-- `victima` of tlb_update, and the fifo_ptr after it.
unfoldable pub victima : Tlb → ℕ
victima t = if t.lru then elegir_victima t else t.fifo_ptr

unfoldable pub fifo_siguiente : Tlb → ℕ
fifo_siguiente t = if t.lru then t.fifo_ptr else (t.fifo_ptr + 1) % t.max

unfoldable pub tlb_update : ℕ → ℕ → ℕ → Tlb → Tlb
tlb_update pid pagina marco t =
    let nueva : Entrada = record {
      pid = pid;
      pagina = pagina;
      marco = marco;
      last_use = t.clock_lru + 1;
    } in
    let t1 = record t { clock_lru = t.clock_lru + 1 } in
    if ltb (length t.entradas) t.max
    then record t1 { entradas = t.entradas ++ nueva ∷ [] }
    else record t1 { entradas = set t.entradas (victima t) nueva; fifo_ptr = fifo_siguiente t }

-- The loop of tlb_clear_pid: the entries after one that goes are moved over it.
unfoldable pub sin_pid : ℕ → List Entrada → List Entrada
sin_pid pid [] = []
sin_pid pid (e ∷ es) = if e.pid == pid then sin_pid pid es else e ∷ sin_pid pid es

unfoldable pub tlb_clear_pid : ℕ → Tlb → Tlb
unfolding sin_pid
tlb_clear_pid pid t = record t { entradas = sin_pid pid t.entradas }

unfoldable pub tlb_flush : Tlb → Tlb
tlb_flush t = record t { entradas = [] }
