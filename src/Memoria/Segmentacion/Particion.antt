-- ===== src/Memoria/Segmentacion/Particion.antt =====
-- The operations of segmentacion.c, and which bytes are free or in a segment.
use recursos_so.Prelude.Int.{a_int, ltb_ℤ}
use recursos_so.Prelude.{
  ◌<◌, ◌^◌, ◌%◌, true, false, dec_lt, lt→ltb, ℕ, ◌+◌, ◌-◌, ◌≤◌, ◌≡◌, ap, ◌∙◌, List, some, ltb, ◌==◌,
  if◌then◌else◌, arith, Bool-cases, Option-cases, inl, inr,
}
use recursos_so.Memoria.Segmentacion.{
  Segmento, Segmentacion, seg_init, buscar_segmento, tomar_bloque, devolver_bloque, extender,
  segmentacion_crear_proceso, segmentacion_destruir_proceso, reducir, mover, agrandar,
  segmentacion_resize,
}
use recursos_so.Memoria.Segmentacion.Cobertura.{
  cubre, libres_en, ocupados_en, cubre-resto, libres_en-tomar_bloque, libres_en-extender,
  libres_en-devolver_bloque, libres_en-merge_bloques_adyacentes, ocupados_en-quitar_segmento,
  ocupados_en-poner_segmento, pid-buscar_segmento,
}

-- A byte below `tam_memoria` is covered once, and no other is.
abbrev pub EsParticion : ℕ → Segmentacion → Type 0
EsParticion tam s =
    (a : ℕ)
    → libres_en a s.lista_libres + ocupados_en a s.tablas_segmentos ≡ (if ltb a tam then 1 else 0)

pub seg_init-EsParticion : (tam : ℕ) (ram : List ℕ) → EsParticion tam (seg_init tam ram)
unfolding seg_init libres_en ocupados_en cubre
seg_init-EsParticion tam ram a = ground arith

-- If each byte below `tam` is in exactly one free block or segment, and no other byte in any, this
-- holds after the creation of a process, whether or not there is room and whether or not the process
-- exists.
pub segmentacion_crear_proceso-EsParticion :
    (tam pid tamanio : ℕ) (s : Segmentacion)
    → EsParticion tam s
    → EsParticion tam (segmentacion_crear_proceso pid tamanio s).1
unfolding segmentacion_crear_proceso ocupados_en
segmentacion_crear_proceso-EsParticion tam pid tamanio s p a =
    elim (Option-cases (buscar_segmento pid s.tablas_segmentos)) [
      | inr (seg, hay) ↦ rw (hay, segmentacion_crear_proceso) (p a)
      | inl nuevo ↦ elim (Option-cases (tomar_bloque tamanio s.lista_libres)) [
        | inl lleno ↦ rw (nuevo, lleno, segmentacion_crear_proceso) (p a)
        | inr ((base, libres), toma) ↦
            rw (nuevo, toma, segmentacion_crear_proceso)
              (omega (arith, p a, libres_en-tomar_bloque a tamanio s.lista_libres base libres toma))
      ]
    ]

-- If each byte below `tam` is in exactly one free block or segment, and no other byte in any, this
-- holds after the end of a process, whether or not it has a segment.
pub segmentacion_destruir_proceso-EsParticion :
    (tam pid : ℕ) (s : Segmentacion)
    → EsParticion tam s
    → EsParticion tam (segmentacion_destruir_proceso pid s)
unfolding segmentacion_destruir_proceso
segmentacion_destruir_proceso-EsParticion tam pid s p a =
    elim (Option-cases (buscar_segmento pid s.tablas_segmentos)) [
      | inl nada ↦ rw (nada, segmentacion_destruir_proceso) (p a)
      | inr (seg, hay) ↦
          rw (hay, segmentacion_destruir_proceso)
            (omega (
              arith,
              p a,
              ocupados_en-quitar_segmento a pid s.tablas_segmentos seg hay,
              libres_en-devolver_bloque a seg.base seg.limite s.lista_libres,
              libres_en-merge_bloques_adyacentes a
                  (devolver_bloque seg.base seg.limite s.lista_libres),
            ))
    ]

menor_int : (n m : ℕ) → n < 2 ^ 31 → m < 2 ^ 31 → ltb_ℤ (a_int n) (a_int m) ≡ true → n < m
menor_int n m ln lm h =
    let h1 : ltb (n + 0) (m + 0) ≡ true = rw (lt→ltb n (2 ^ 31) ln, lt→ltb m (2 ^ 31) lm) at h in
    ground arith

mayor_int : (n m : ℕ) → n < 2 ^ 31 → m < 2 ^ 31 → ltb_ℤ (a_int n) (a_int m) ≡ false → m ≤ n
mayor_int n m ln lm h =
    let h1 : ltb (n + 0) (m + 0) ≡ false = rw (lt→ltb n (2 ^ 31) ln, lt→ltb m (2 ^ 31) lm) at h in
    ground arith

-- If each byte below `tam` is in exactly one free block or segment, and no other byte in any, then after
-- the end of a process that has a segment this still holds, and each byte of its segment is free once more
-- and in one segment fewer, while every other byte is as it was.
pub segmentacion_destruir_proceso-libera :
    (tam pid : ℕ) (s : Segmentacion) (seg : Segmento)
    → EsParticion tam s
    → buscar_segmento pid s.tablas_segmentos ≡ some seg
    → EsParticion tam (segmentacion_destruir_proceso pid s)
      × ((a : ℕ)
          → (libres_en a (segmentacion_destruir_proceso pid s).lista_libres
              ≡ libres_en a s.lista_libres + cubre a seg.base seg.limite)
            × (ocupados_en a (segmentacion_destruir_proceso pid s).tablas_segmentos
                  + cubre a seg.base seg.limite
                ≡ ocupados_en a s.tablas_segmentos))
unfolding segmentacion_destruir_proceso
segmentacion_destruir_proceso-libera tam pid s seg p hay = (
  segmentacion_destruir_proceso-EsParticion tam pid s p,
  λ a.
      rw (hay, segmentacion_destruir_proceso)
        (
          omega (
            arith,
            libres_en-devolver_bloque a seg.base seg.limite s.lista_libres,
            libres_en-merge_bloques_adyacentes a
                (devolver_bloque seg.base seg.limite s.lista_libres),
          ),
          omega (arith, ocupados_en-quitar_segmento a pid s.tablas_segmentos seg hay),
        ),
)

module _ (tam : ℕ) (s : Segmentacion) (p : EsParticion tam s) (seg : Segmento)
    (hay : buscar_segmento seg.pid s.tablas_segmentos ≡ some seg) (nuevo : ℕ) where
  reducir-EsParticion :
      nuevo ≤ seg.limite → seg.base + seg.limite < 2 ^ 32 → EsParticion tam (reducir seg nuevo s)
  unfolding reducir
  reducir-EsParticion l corto a =
      let base : (seg.base + nuevo) % 2 ^ 32 ≡ seg.base + nuevo = omega arith in
      let diff : (seg.limite + 2 ^ 32 - nuevo) % 2 ^ 32 ≡ seg.limite - nuevo = omega arith in
      rw (base, diff)
        (omega (
          arith,
          p a,
          cubre-resto a seg.base nuevo seg.limite l,
          ocupados_en-poner_segmento a (record seg { limite = nuevo }) s.tablas_segmentos seg hay,
          libres_en-devolver_bloque a (seg.base + nuevo) (seg.limite - nuevo) s.lista_libres,
          libres_en-merge_bloques_adyacentes a
              (devolver_bloque (seg.base + nuevo) (seg.limite - nuevo) s.lista_libres),
        ))

  mover-EsParticion : EsParticion tam (mover seg nuevo s).1
  unfolding mover
  mover-EsParticion a = elim (Option-cases (tomar_bloque nuevo s.lista_libres)) [
    | inl lleno ↦ rw (lleno, mover) (p a)
    | inr ((base, libres), toma) ↦
        rw (toma, mover)
          (omega (
            arith,
            p a,
            libres_en-tomar_bloque a nuevo s.lista_libres base libres toma,
            ocupados_en-poner_segmento a (record seg { base = base; limite = nuevo })
                s.tablas_segmentos seg hay,
            libres_en-devolver_bloque a seg.base seg.limite libres,
            libres_en-merge_bloques_adyacentes a (devolver_bloque seg.base seg.limite libres),
          ))
  ]

  agrandar-EsParticion : seg.limite ≤ nuevo → EsParticion tam (agrandar seg nuevo s).1
  unfolding agrandar
  agrandar-EsParticion l a =
      let fin = seg.base + seg.limite in
      let extra = nuevo - seg.limite in
      elim (Option-cases (extender fin extra s.lista_libres)) [
        | inl no_cabe ↦ rw (no_cabe, agrandar) (mover-EsParticion a)
        | inr (libres, cabe) ↦
            rw (cabe, agrandar)
              (omega (
                arith,
                p a,
                libres_en-extender a fin extra s.lista_libres libres cabe,
                cubre-resto a seg.base seg.limite nuevo l,
                ocupados_en-poner_segmento a (record seg { limite = nuevo }) s.tablas_segmentos seg
                    hay,
              ))
      ]

-- A segment lies below the end of the memory.
pub segmento-dentro :
    (tam pid : ℕ) (s : Segmentacion) (seg : Segmento)
    → EsParticion tam s
    → buscar_segmento pid s.tablas_segmentos ≡ some seg
    → 0 < seg.limite
    → seg.base + seg.limite ≤ tam
unfolding cubre
segmento-dentro tam pid s seg p hay l =
    let a = seg.base + (seg.limite - 1) in
    let o = ocupados_en-quitar_segmento a pid s.tablas_segmentos seg hay in
    let c : cubre a seg.base seg.limite ≡ 1 = ground arith in
    let q = p a in
    elim (Bool-cases (ltb a tam)) [ inl menor ↦ ground arith | inr mayor ↦ absurd (ground arith) ]

-- In a memory of fewer than 2 ^ 31 bytes, if each byte is in exactly one free block or segment, and no
-- other byte in any, this holds after a resize to fewer than 2 ^ 31 bytes, whether the process is
-- unknown, shrinks, grows in place, moves, or finds no room.
pub segmentacion_resize-EsParticion :
    (tam pid nuevo : ℕ) (s : Segmentacion)
    → tam < 2 ^ 31
    → nuevo < 2 ^ 31
    → EsParticion tam s
    → EsParticion tam (segmentacion_resize pid nuevo s).1
unfolding segmentacion_resize
segmentacion_resize-EsParticion tam pid nuevo s tl nl p a =
    elim (Option-cases (buscar_segmento pid s.tablas_segmentos)) [
      | inl nada ↦ rw (nada, segmentacion_resize) (p a)
      | inr (seg, hay) ↦
          let propio : buscar_segmento seg.pid s.tablas_segmentos ≡ some seg =
            ap (λ n. buscar_segmento n s.tablas_segmentos)
              (pid-buscar_segmento pid s.tablas_segmentos seg hay)
            ∙ hay in
          let dentro = segmento-dentro tam pid s seg p hay in
          let corto : seg.limite < 2 ^ 31 = elim (dec_lt 0 seg.limite) [
            | yes l ↦ let d = dentro l in omega arith
            | no n ↦ omega arith
          ] in
          elim (Bool-cases (nuevo == seg.limite)) [
            | inl igual ↦ rw (hay, igual, segmentacion_resize) (p a)
            | inr otro ↦ elim (Bool-cases (ltb_ℤ (a_int nuevo) (a_int seg.limite))) [
              | inl menos ↦
                  let l = menor_int nuevo seg.limite nl corto menos in
                  let d = dentro (omega arith) in
                  rw (hay, otro, menos, segmentacion_resize)
                    (reducir-EsParticion tam s p seg propio nuevo (omega arith) (omega arith) a)
              | inr mas ↦
                  rw (hay, otro, mas, segmentacion_resize)
                    (agrandar-EsParticion tam s p seg propio nuevo
                      (mayor_int nuevo seg.limite nl corto mas) a)
            ]
          ]
    ]
