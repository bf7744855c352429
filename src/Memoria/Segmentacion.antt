-- ===== src/Memoria/Segmentacion.antt =====
-- memoria/src/gestion/segmentacion.c and memoria_ram.c: one segment for each process, in a memory whose
-- free blocks are a list sorted by base. A size is not negative, and blocks and segments lie inside the
-- memory, whose size is an int: so the sums of a base and a size are below 2 ^ 32 and do not wrap.
-- What a process asks for may wrap, and is written with `% 2 ^ 32`.
pub mod Cobertura
pub mod Particion
pub mod Contenido
use recursos_so.Prelude.Int.{a_int, ltb_ℤ}
use recursos_so.Prelude.{
  ℕ, zero, suc, ◌+◌, ◌-◌, ◌%◌, ◌^◌, Bool, true, false, List, [], ◌∷◌, ◌++◌, Option, none, some, ltb,
  leb, ◌==◌, if◌then◌else◌, length, take, drop,
}

-- t_bloque_libre
pub record Bloque : Type 0 where
  pub base : ℕ
  pub tamanio : ℕ

-- An entry of tablas_segmentos: the pid that the key spells, and its t_segmento.
pub record Segmento : Type 0 where
  pub pid : ℕ
  pub base : ℕ
  pub limite : ℕ

pub record Segmentacion : Type 0 where
  pub lista_libres : List Bloque
  pub tablas_segmentos : List Segmento
  pub ram : List ℕ

-- seg_init_if_needed: one free block over all the memory.
unfoldable pub seg_init : ℕ → List ℕ → Segmentacion
seg_init tam_memoria ram = record {
  lista_libres = record { base = 0; tamanio = tam_memoria } ∷ [];
  tablas_segmentos = [];
  ram = ram;
}

-- dictionary_get, dictionary_remove, and a store through the pointer to the segment.
unfoldable pub buscar_segmento : ℕ → List Segmento → Option Segmento
buscar_segmento pid [] = none
buscar_segmento pid (s ∷ ss) = if s.pid == pid then some s else buscar_segmento pid ss

unfoldable pub quitar_segmento : ℕ → List Segmento → List Segmento
quitar_segmento pid [] = []
quitar_segmento pid (s ∷ ss) = if s.pid == pid then ss else s ∷ quitar_segmento pid ss

unfoldable pub poner_segmento : Segmento → List Segmento → List Segmento
poner_segmento v [] = []
poner_segmento v (s ∷ ss) = if s.pid == v.pid then v ∷ ss else s ∷ poner_segmento v ss

-- buscar_bloque_first_fit, and the allocated part taken from the front of the block: its base, and the
-- free list after it.
unfoldable pub tomar_bloque : ℕ → List Bloque → Option (ℕ × List Bloque)
tomar_bloque tamanio [] = none
tomar_bloque tamanio (b ∷ bs) =
    let resto = tomar_bloque tamanio bs in
    if leb tamanio b.tamanio
    then some (
      b.base,
      if tamanio == b.tamanio
          then bs
          else record { base = b.base + tamanio; tamanio = b.tamanio - tamanio } ∷ bs,
    )
    else elim resto [ none ↦ none | some (base, bs1) ↦ some (base, b ∷ bs1) ]

-- devolver_bloque: inserted before the first block with a greater base.
unfoldable pub devolver_bloque : ℕ → ℕ → List Bloque → List Bloque
devolver_bloque base tamanio [] = record { base = base; tamanio = tamanio } ∷ []
devolver_bloque base tamanio (b ∷ bs) =
    if ltb base b.base
    then record { base = base; tamanio = tamanio } ∷ b ∷ bs
    else b ∷ devolver_bloque base tamanio bs

-- The loop of merge_bloques_adyacentes with `actual` at index i and the blocks behind it.
unfoldable pub merge_desde : Bloque → List Bloque → List Bloque
merge_desde actual [] = actual ∷ []
merge_desde actual (siguiente ∷ bs) =
    let junto = merge_desde (record actual { tamanio = actual.tamanio + siguiente.tamanio }) bs in
    let aparte = merge_desde siguiente bs in
    if actual.base + actual.tamanio == siguiente.base then junto else actual ∷ aparte

unfoldable pub merge_bloques_adyacentes : List Bloque → List Bloque
merge_bloques_adyacentes [] = []
merge_bloques_adyacentes (b ∷ bs) = merge_desde b bs

-- The loop of segmentacion_resize that looks for a free block at `fin` with `extra` bytes.
unfoldable pub extender : ℕ → ℕ → List Bloque → Option (List Bloque)
extender fin extra [] = none
extender fin extra (b ∷ bs) =
    let resto = extender fin extra bs in
    if b.base == fin
    then if leb extra b.tamanio
      then some (
          if b.tamanio == extra
          then bs
          else record { base = b.base + extra; tamanio = b.tamanio - extra } ∷ bs)
      else elim resto [ none ↦ none | some bs1 ↦ some (b ∷ bs1) ]
    else elim resto [ none ↦ none | some bs1 ↦ some (b ∷ bs1) ]

-- leer_memoria_fisica and escribir_memoria_fisica; `none` is false, out of the memory.
unfoldable pub leer_memoria_fisica : ℕ → ℕ → List ℕ → Option (List ℕ)
leer_memoria_fisica dir size ram =
    if ltb (length ram) ((dir + size) % 2 ^ 32) then none else some (take size (drop dir ram))

unfoldable pub escribir_memoria_fisica : ℕ → List ℕ → List ℕ → Option (List ℕ)
escribir_memoria_fisica dir datos ram =
    if ltb (length ram) ((dir + length datos) % 2 ^ 32)
    then none
    else some (take dir ram ++ (datos ++ drop (dir + length datos) ram))

unfoldable pub segmentacion_crear_proceso : ℕ → ℕ → Segmentacion → Bool × Segmentacion
unfolding buscar_segmento tomar_bloque
segmentacion_crear_proceso pid tamanio s = elim (buscar_segmento pid s.tablas_segmentos) [
  | some _ ↦ (false, s)
  | none ↦ elim (tomar_bloque tamanio s.lista_libres) [
    | none ↦ (false, s)
    | some (base, libres) ↦ (
      true,
      record s {
        lista_libres = libres;
        tablas_segmentos = record { pid = pid; base = base; limite = tamanio } ∷ s.tablas_segmentos;
      },
    )
  ]
]

unfoldable pub segmentacion_destruir_proceso : ℕ → Segmentacion → Segmentacion
unfolding buscar_segmento quitar_segmento devolver_bloque merge_bloques_adyacentes
segmentacion_destruir_proceso pid s = elim (buscar_segmento pid s.tablas_segmentos) [
  | none ↦ s
  | some seg ↦ record s {
    lista_libres = merge_bloques_adyacentes (devolver_bloque seg.base seg.limite s.lista_libres);
    tablas_segmentos = quitar_segmento pid s.tablas_segmentos;
  }
]

-- The copy of a segment to its new place. A read that fails would leave what malloc gave; none does, inside
-- the memory.
unfoldable pub copiar : ℕ → ℕ → ℕ → List ℕ → List ℕ
unfolding leer_memoria_fisica escribir_memoria_fisica
copiar desde hasta tamanio ram = elim (leer_memoria_fisica desde tamanio ram) [
  | none ↦ ram
  | some datos ↦ elim (escribir_memoria_fisica hasta datos ram) [ none ↦ ram | some r ↦ r ]
]

-- The branches of segmentacion_resize for the segment that was found: smaller, and larger in place or moved.
unfoldable pub reducir : Segmento → ℕ → Segmentacion → Segmentacion
unfolding poner_segmento devolver_bloque merge_bloques_adyacentes
reducir seg nuevo s = record s {
  lista_libres = merge_bloques_adyacentes (
      devolver_bloque ((seg.base + nuevo) % 2 ^ 32) ((seg.limite + 2 ^ 32 - nuevo) % 2 ^ 32)
        s.lista_libres);
  tablas_segmentos = poner_segmento (record seg { limite = nuevo }) s.tablas_segmentos;
}

unfoldable pub mover : Segmento → ℕ → Segmentacion → Bool × Segmentacion
unfolding poner_segmento tomar_bloque devolver_bloque merge_bloques_adyacentes copiar
mover seg nuevo s = elim (tomar_bloque nuevo s.lista_libres) [
  | none ↦ (false, s)
  | some (nueva_base, libres) ↦ (
    true,
    record {
      lista_libres = merge_bloques_adyacentes (devolver_bloque seg.base seg.limite libres);
      tablas_segmentos =
          poner_segmento (record seg { base = nueva_base; limite = nuevo }) s.tablas_segmentos;
      ram = copiar seg.base nueva_base seg.limite s.ram;
    },
  )
]

unfoldable pub agrandar : Segmento → ℕ → Segmentacion → Bool × Segmentacion
unfolding poner_segmento extender mover
agrandar seg nuevo s = elim (extender (seg.base + seg.limite) (nuevo - seg.limite) s.lista_libres) [
  | some libres ↦ (
    true,
    record s {
      lista_libres = libres;
      tablas_segmentos = poner_segmento (record seg { limite = nuevo }) s.tablas_segmentos;
    },
  )
  | none ↦ mover seg nuevo s
]

-- `nuevo` has the bits of an int, which the comparison with the limit reads as such.
unfoldable pub segmentacion_resize : ℕ → ℕ → Segmentacion → Bool × Segmentacion
unfolding buscar_segmento reducir agrandar
segmentacion_resize pid nuevo s = elim (buscar_segmento pid s.tablas_segmentos) [
  | none ↦ (false, s)
  | some seg ↦
      if nuevo == seg.limite
      then (true, s)
      else if ltb_ℤ (a_int nuevo) (a_int seg.limite)
      then (true, reducir seg nuevo s)
      else agrandar seg nuevo s
]

-- Zero also stands for an error.
unfoldable pub segmentacion_traducir : ℕ → ℕ → Segmentacion → ℕ
unfolding buscar_segmento
segmentacion_traducir pid dir_logica s = elim (buscar_segmento pid s.tablas_segmentos) [
  | none ↦ 0
  | some seg ↦ if leb seg.limite dir_logica then 0 else seg.base + dir_logica
]

-- `none` is false.
unfoldable pub segmentacion_escribir : ℕ → ℕ → List ℕ → Segmentacion → Option Segmentacion
unfolding buscar_segmento escribir_memoria_fisica
segmentacion_escribir pid dir_logica datos s = elim (buscar_segmento pid s.tablas_segmentos) [
  | none ↦ none
  | some seg ↦
      if ltb seg.limite ((dir_logica + length datos) % 2 ^ 32)
      then none
      else elim (escribir_memoria_fisica ((seg.base + dir_logica) % 2 ^ 32) datos s.ram) [
        | none ↦ none
        | some ram ↦ some (record s { ram = ram })
      ]
]

unfoldable pub segmentacion_leer : ℕ → ℕ → ℕ → Segmentacion → Option (List ℕ)
unfolding buscar_segmento leer_memoria_fisica
segmentacion_leer pid dir_logica size s = elim (buscar_segmento pid s.tablas_segmentos) [
  | none ↦ none
  | some seg ↦
      if ltb seg.limite ((dir_logica + size) % 2 ^ 32)
      then none
      else leer_memoria_fisica ((seg.base + dir_logica) % 2 ^ 32) size s.ram
]
