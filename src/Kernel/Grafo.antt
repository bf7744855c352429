-- ===== src/Kernel/Grafo.antt =====
-- kernel/src/deteccion_deadlock/grafo_espera.c: the wait-for graph and the search for a cycle in it.
pub mod Caminos
pub mod Dfs
pub mod Bloqueados
pub mod Espera
pub mod Poseedores
pub mod Aristas
pub mod Decide
use recursos_so.Prelude.{
  ℕ, zero, suc, ◌-◌, Bool, true, false, List, [], ◌∷◌, map, Option, none, some, String, str_eq, ltb,
  ◌==◌, if◌then◌else◌, length, get_or, set, replicate,
}
use recursos_so.Kernel.{Pcb, Recurso, Kernel}
use recursos_so.Kernel.Banquero.{en_cola, es_block, activos}

-- t_nodo_grafo, without the pointer to the PCB, which is only logged.
pub record Nodo : Type 0 where
  pub pid : ℕ
  pub recurso_esperado : Option String
  pub espera_a : List ℕ

-- The first resource whose queue has the pid.
unfoldable pub buscar_recurso_esperado : (ℕ → Pcb) → ℕ → List Recurso → Option String
unfolding en_cola
buscar_recurso_esperado h pid [] = none
buscar_recurso_esperado h pid (r ∷ rs) =
    if en_cola h pid r.cola_bloqueados then some r.nombre else buscar_recurso_esperado h pid rs

-- strcmp(res, nombre_recurso) == 0 for some resource of the list.
unfoldable pub tiene_recurso : String → List String → Bool
tiene_recurso nombre [] = false
tiene_recurso nombre (res ∷ rs) = if str_eq res nombre then true else tiene_recurso nombre rs

unfoldable pub buscar_poseedores : (ℕ → Pcb) → String → List ℕ → List ℕ
unfolding tiene_recurso
buscar_poseedores h nombre [] = []
buscar_poseedores h nombre (p ∷ todos) =
    if tiene_recurso nombre (h p).recursos_adquiridos
    then (h p).pid ∷ buscar_poseedores h nombre todos
    else buscar_poseedores h nombre todos

-- The holders, without the process itself.
unfoldable pub sin_el_mismo : ℕ → List ℕ → List ℕ
sin_el_mismo pid [] = []
sin_el_mismo pid (q ∷ qs) = if q == pid then sin_el_mismo pid qs else q ∷ sin_el_mismo pid qs

unfoldable pub nodo_de : Kernel → List ℕ → ℕ → Nodo
unfolding buscar_recurso_esperado buscar_poseedores sin_el_mismo
nodo_de k todos p =
    if es_block (k.pcbs p).estado
    then elim (buscar_recurso_esperado k.pcbs (k.pcbs p).pid k.recursos) [
      | none ↦ record { pid = (k.pcbs p).pid; recurso_esperado = none; espera_a = [] }
      | some recurso ↦ record {
        pid = (k.pcbs p).pid;
        recurso_esperado = some recurso;
        espera_a = sin_el_mismo (k.pcbs p).pid (buscar_poseedores k.pcbs recurso todos);
      }
    ]
    else record { pid = (k.pcbs p).pid; recurso_esperado = none; espera_a = [] }

-- num_nodos_bloqueados: the nodes that wait for a resource.
unfoldable pub bloqueados : List Nodo → ℕ
bloqueados [] = 0
bloqueados (nodo ∷ nodos) = elim nodo.recurso_esperado [
  | none ↦ bloqueados nodos
  | some r ↦ suc (bloqueados nodos)
]

-- idx_dest: the first node with the pid.
unfoldable pub indice : List Nodo → ℕ → Option ℕ
indice [] pid = none
indice (nodo ∷ nodos) pid =
    if nodo.pid == pid
    then some 0
    else elim (indice nodos pid) [ none ↦ none | some i ↦ some (suc i) ]

-- estado: 0, 1 and 2.
pub data Marca : Type 0 where
  no_visitado en_pila completado : Marca

-- The arrays of the search; `ciclo` is pila_ciclo up to tam_ciclo, and `none` in `padre` is -1.
pub record Busqueda : Type 0 where
  pub estado : List Marca
  pub padre : List (Option ℕ)
  pub ciclo : List ℕ

abbrev pub marca : Busqueda → ℕ → Marca
marca b i = get_or b.estado i Marca.no_visitado

abbrev pub marcar : ℕ → Marca → Busqueda → Busqueda
marcar i v b = record b { estado = set b.estado i v }

-- The loop that goes up from `k`, with room for `libre` more.
unfoldable pub reconstruir : List (Option ℕ) → ℕ → ℕ → Option ℕ → List ℕ
reconstruir padre dest zero k = []
reconstruir padre dest (suc libre) none = []
reconstruir padre dest (suc libre) (some k) =
    if k == dest then [] else k ∷ reconstruir padre dest libre (get_or padre k none)

abbrev pub nodo_vacio : Nodo
nodo_vacio = record { pid = 0; recurso_esperado = none; espera_a = [] }

module _ (nodos : List Nodo) where
  -- The loop over the edges that are left; `bajar` is the call of dfs_ciclo in it.
  unfoldable pub recorrer :
      (ℕ → Busqueda → Option (Bool × Busqueda)) → ℕ → List ℕ → Busqueda → Option (Bool × Busqueda)
  unfolding indice reconstruir
  recorrer bajar actual [] b = some (false, marcar actual Marca.completado b)
  recorrer bajar actual (dest ∷ espera_a) b = elim (indice nodos dest) [
    | none ↦ recorrer bajar actual espera_a b
    | some j ↦ elim (marca b j) [
      | Marca.en_pila ↦
          some
            (true, record b { ciclo = j ∷ reconstruir b.padre j (length nodos - 1) (some actual) })
      | Marca.no_visitado ↦ elim (bajar j (record b { padre = set b.padre j (some actual) })) [
        | none ↦ none
        | some (hay, b') ↦ elim hay [
          | true ↦ some (true, b')
          | false ↦ recorrer bajar actual espera_a b'
        ]
      ]
      | Marca.completado ↦ recorrer bajar actual espera_a b
    ]
  ]

  -- On fuel; `none` means that the fuel ran out.
  unfoldable pub dfs_ciclo : ℕ → ℕ → Busqueda → Option (Bool × Busqueda)
  unfolding recorrer
  dfs_ciclo zero actual b = none
  dfs_ciclo (suc fuel) actual b =
      recorrer (dfs_ciclo fuel) actual (get_or nodos actual nodo_vacio).espera_a
        (marcar actual Marca.en_pila b)

  -- The loop over the nodes: `n` rounds from node `i` on.
  unfoldable pub buscar_ciclo : ℕ → ℕ → Busqueda → Option (Bool × Busqueda)
  unfolding dfs_ciclo
  buscar_ciclo zero i b = some (false, b)
  buscar_ciclo (suc n) i b = elim (marca b i) [
    | Marca.no_visitado ↦
        if length (get_or nodos i nodo_vacio).espera_a == 0
        then buscar_ciclo n (suc i) b
        else elim (dfs_ciclo (length nodos) i b) [
          | none ↦ none
          | some (hay, b') ↦ elim hay [ true ↦ some (true, b') | false ↦ buscar_ciclo n (suc i) b' ]
        ]
    | Marca.en_pila ↦ buscar_ciclo n (suc i) b
    | Marca.completado ↦ buscar_ciclo n (suc i) b
  ]

abbrev pub sin_visitar : ℕ → Busqueda
sin_visitar n = record {
  estado = replicate n Marca.no_visitado;
  padre = replicate n none;
  ciclo = [];
}

abbrev pub nodos_de : Kernel → List Nodo
nodos_de k = map (nodo_de k (activos k)) (activos k)

-- Whether there is a deadlock, and the nodes of the cycle that it logs.
unfoldable pub grafo_espera_detectar_deadlock : Kernel → Option (Bool × List ℕ)
unfolding nodo_de bloqueados buscar_ciclo
grafo_espera_detectar_deadlock k =
    let nodos = nodos_de k in
    if length nodos == 0
    then some (false, [])
    else if ltb (bloqueados nodos) 2
    then some (false, [])
    else elim (buscar_ciclo nodos (length nodos) 0 (sin_visitar (length nodos))) [
      | none ↦ none
      | some (hay, b) ↦ some (hay, b.ciclo)
    ]
