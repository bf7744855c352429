-- ===== src/Memoria/Paginacion/Alcance.antt =====
-- The life of the paged memory: from the start on, through any operations.
use recursos_so.Prelude.{
  ℕ, zero, suc, ◌/◌, length-replicate, ◌<◌, ◌≡◌, inl, inr, refl, sym, ◌∙◌, subst, Bool, true, false,
  List, [], Option, some, leb, length, get_or, replicate, arith, Bool-cases, Option-cases,
}
use recursos_so.Memoria.Reemplazo.{Duenio, leer_pagina}
use recursos_so.Memoria.Frames.{frames_init}
use recursos_so.Memoria.Paginacion.{
  Paginado, tabla_de, usar_pagina, paginacion_crear_proceso, paginacion_destruir_proceso,
  paginacion_resize, paginacion_obtener_entrada,
}
use recursos_so.Memoria.Acceso.{ensuciar_pagina, escribir_trozo, leer_trozo}
use recursos_so.Memoria.Paginacion.Tablas.{tabla_de-largo, leer_pagina-largo}
use recursos_so.Memoria.Paginacion.Orden.{Orden, Orden-Mismas, marcar-Mismas}
use recursos_so.Memoria.Paginacion.Entrada.{EsOrdenado, paginacion_obtener_entrada-Atendida}
use recursos_so.Memoria.Paginacion.Procesos.{
  paginacion_crear_proceso-EsOrdenado, paginacion_destruir_proceso-EsOrdenado,
  paginacion_resize-EsOrdenado,
}

-- One operation on the memory, with any arguments and results of the file system. An access to a page
-- that is present is a step of its own: the mutex is free before it.
pub data Paso (tam_pag : ℕ) : Paginado → Paginado → Type 0 where
  crear :
      {m : Paginado} (pid tamanio : ℕ)
      → Paso tam_pag m (paginacion_crear_proceso tam_pag pid tamanio m).1
  destruir : {m : Paginado} (pid : ℕ) → Paso tam_pag m (paginacion_destruir_proceso pid m)
  redimensionar :
      {m : Paginado} {res : Bool × Paginado} (pid nuevo : ℕ)
      → paginacion_resize tam_pag pid nuevo m ≡ some res
      → Paso tam_pag m res.1
  pedir :
      {m : Paginado} (abre : Bool) (sucio : List ℕ) (pid nro : ℕ)
      → Paso tam_pag m (paginacion_obtener_entrada tam_pag abre sucio pid nro m).1
  escribe :
      {m : Paginado} (d : Duenio) (dir : ℕ) (datos : List ℕ)
      → (leer_pagina m.reloj.tablas d).presente ≡ true
      → Paso tam_pag m (escribir_trozo tam_pag d dir datos m)
  lee :
      {m : Paginado} (sucio : List ℕ) (d : Duenio) (dir n : ℕ)
      → (leer_pagina m.reloj.tablas d).presente ≡ true
      → Paso tam_pag m (leer_trozo tam_pag sucio d dir n m).1

-- The memory after its start with the frames of frames_init and no process, or a step later.
pub data Alcanzable (tam_pag tam_memoria : ℕ) : Paginado → Type 0 where
  inicio :
      {m : Paginado}
      → frames_init tam_memoria tam_pag ≡ some m.bits
      → m.reloj.tablas ≡ []
      → Alcanzable tam_pag tam_memoria m
  luego :
      {m m' : Paginado}
      → Alcanzable tam_pag tam_memoria m
      → Paso tam_pag m m'
      → Alcanzable tam_pag tam_memoria m'

todos_libres : (n f : ℕ) → f < n → get_or (replicate n false) f true ≡ false
todos_libres zero f l = elim l [ ]
todos_libres (suc n) zero l = refl
todos_libres (suc n) (suc f) l = todos_libres n f (omega arith)

-- A page out of the table changes nothing.
pedir-EsOrdenado :
    (tam_pag : ℕ) (abre : Bool) (sucio : List ℕ) (pid nro : ℕ) (m : Paginado)
    → EsOrdenado m
    → EsOrdenado (paginacion_obtener_entrada tam_pag abre sucio pid nro m).1
unfolding paginacion_obtener_entrada
pedir-EsOrdenado tam_pag abre sucio pid nro m o =
    elim (Option-cases (tabla_de m.reloj.tablas pid)) [
      | inl nada ↦ rw (nada, paginacion_obtener_entrada) o
      | inr (tabla, con) ↦ elim (Bool-cases (leb (length tabla) nro)) [
        | inl fuera ↦ rw (con, fuera, paginacion_obtener_entrada) o
        | inr cabe ↦
            (paginacion_obtener_entrada-Atendida tam_pag abre sucio pid nro m o
              (ground (arith, tabla_de-largo m.reloj.tablas pid tabla con))).orden
      ]
    ]

escribir_trozo-EsOrdenado :
    (tam_pag : ℕ) (d : Duenio) (dir : ℕ) (datos : List ℕ) (m : Paginado)
    → (leer_pagina m.reloj.tablas d).presente ≡ true
    → EsOrdenado m
    → EsOrdenado (escribir_trozo tam_pag d dir datos m)
unfolding escribir_trozo ensuciar_pagina
escribir_trozo-EsOrdenado tam_pag d dir datos m p o =
    let ts = m.reloj.tablas in
    Orden-Mismas ts (ensuciar_pagina ts d) m.bits
      (marcar-Mismas ts d (record (leer_pagina ts d) { uso = true; modificado = true }) refl refl
        (leer_pagina-largo ts d p))
      o

leer_trozo-EsOrdenado :
    (tam_pag : ℕ) (sucio : List ℕ) (d : Duenio) (dir n : ℕ) (m : Paginado)
    → (leer_pagina m.reloj.tablas d).presente ≡ true
    → EsOrdenado m
    → EsOrdenado (leer_trozo tam_pag sucio d dir n m).1
unfolding leer_trozo usar_pagina
leer_trozo-EsOrdenado tam_pag sucio d dir n m p o =
    let ts = m.reloj.tablas in
    Orden-Mismas ts (usar_pagina ts d) m.bits
      (marcar-Mismas ts d (record (leer_pagina ts d) { uso = true }) refl refl
        (leer_pagina-largo ts d p))
      o

Paso-EsOrdenado : (tam_pag : ℕ) (m m' : Paginado) → Paso tam_pag m m' → EsOrdenado m → EsOrdenado m'
Paso-EsOrdenado tam_pag m m' (crear pid tamanio) o =
    paginacion_crear_proceso-EsOrdenado tam_pag pid tamanio m o
Paso-EsOrdenado tam_pag m m' (destruir pid) o = paginacion_destruir_proceso-EsOrdenado pid m o
Paso-EsOrdenado tam_pag m m' (redimensionar {res} pid nuevo fin) o =
    paginacion_resize-EsOrdenado tam_pag pid nuevo m res fin o
Paso-EsOrdenado tam_pag m m' (pedir abre sucio pid nro) o =
    pedir-EsOrdenado tam_pag abre sucio pid nro m o
Paso-EsOrdenado tam_pag m m' (escribe d dir datos p) o =
    escribir_trozo-EsOrdenado tam_pag d dir datos m p o
Paso-EsOrdenado tam_pag m m' (lee sucio d dir n p) o =
    leer_trozo-EsOrdenado tam_pag sucio d dir n m p o

inicio-EsOrdenado :
    (tam_pag tam_memoria : ℕ) (m : Paginado)
    → frames_init tam_memoria tam_pag ≡ some m.bits
    → m.reloj.tablas ≡ []
    → EsOrdenado m
unfolding frames_init leer_pagina
inicio-EsOrdenado tam_pag tam_memoria m eb et =
    let n = tam_memoria / tam_pag in
    let s : ◌≡◌ {A = Option (List Bool)} (some (replicate n false)) (some m.bits) = ground arith in
    let ebits : replicate n false ≡ m.bits = cc in
    subst (Orden m.reloj.tablas) ebits (
      subst (λ ts. Orden ts (replicate n false)) (sym et)
        (record {
          unicos = tt;
          exclusivos = λ d e f x y. absurd (cc (x.presente));
          con_frame = λ d p. absurd (cc p);
          tomados = λ d f x. absurd (cc (x.presente));
          con_duenio = λ f l t.
              absurd (
                cc (sym t ∙ todos_libres n f (omega (arith, length-replicate {A = Bool} n false))));
        }))

-- In every memory that the start and any creations and ends of processes, resizes that come to their end,
-- page faults and accesses lead to: no process has two tables, no frame has two pages, each page that is present
-- is in a frame of the memory that is taken, and each frame that is taken has a page.
pub Alcanzable-EsOrdenado :
    (tam_pag tam_memoria : ℕ) (m : Paginado) → Alcanzable tam_pag tam_memoria m → EsOrdenado m
Alcanzable-EsOrdenado tam_pag tam_memoria m (luego {m = antes} a p) =
    Paso-EsOrdenado tam_pag antes m p (Alcanzable-EsOrdenado tam_pag tam_memoria antes a)
Alcanzable-EsOrdenado tam_pag tam_memoria m (inicio eb et) =
    inicio-EsOrdenado tam_pag tam_memoria m eb et
