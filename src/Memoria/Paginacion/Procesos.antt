-- ===== src/Memoria/Paginacion/Procesos.antt =====
-- The creation, the end and the resize of a process.
use recursos_so.Prelude.Int.{ℤ, pos, negsuc, pos_part, a_int}
use recursos_so.Prelude.{
  Option, ℕ, zero, suc, ◌-◌, ◌≡◌, ◌≢◌, ◌⊎◌, inl, inr, refl, sym, ap, ◌∙◌, subst, Bool, List, [],
  ◌∷◌, ◌++◌, none, some, ◌==◌, ltb, length, get_or, take, drop, replicate, All, arith, Bool-cases,
  Option-cases, ℕ_discrete,
}
use recursos_so.Memoria.Reemplazo.{Pagina, Tabla, Duenio, pagina_vacia, leer_pagina}
use recursos_so.Memoria.Paginacion.{
  Paginado, tabla_de, cambiar_tabla, quitar_tabla, paginas_de, liberar_paginas,
  paginacion_crear_proceso, paginacion_destruir_proceso, paginacion_resize,
}
use recursos_so.Memoria.Paginacion.Tablas.{
  duenio, pids, tabla_de-leer, leer-cambiar_propio, leer-cambiar_otro, pids-cambiar,
}
use recursos_so.Memoria.Paginacion.Victimas.{Unicos}
use recursos_so.Memoria.Paginacion.Orden.{Orden}
use recursos_so.Memoria.Paginacion.Entrada.{EsOrdenado}
use recursos_so.Memoria.Paginacion.Liberacion.{Recorte, Orden-Recorte}

leer-quitar_otro :
    (ts : List Tabla) (d : Duenio) (pid : ℕ)
    → d.pid ≢ pid
    → leer_pagina (quitar_tabla ts pid) d ≡ leer_pagina ts d
unfolding leer_pagina quitar_tabla
leer-quitar_otro [] d pid ne = refl
leer-quitar_otro (t ∷ ts) d pid ne = ground (arith, leer-quitar_otro ts d pid ne)

-- A process without a table has no pages.
leer-ausente :
    (ts : List Tabla) (d : Duenio)
    → All (λ q. q ≢ d.pid) (pids ts)
    → leer_pagina ts d ≡ pagina_vacia
unfolding leer_pagina
leer-ausente [] d a = refl
leer-ausente (t ∷ ts) d (ne, a) = ground (arith, leer-ausente ts d a)

leer-quitar_propio :
    (ts : List Tabla) (d : Duenio)
    → Unicos (pids ts)
    → leer_pagina (quitar_tabla ts d.pid) d ≡ pagina_vacia
unfolding leer_pagina quitar_tabla
leer-quitar_propio [] d u = refl
leer-quitar_propio (t ∷ ts) d (a, u) = elim (ℕ_discrete t.pid d.pid) [
  | yes mismo ↦
      let a1 : All (λ q. q ≢ d.pid) (pids ts) = subst (λ p. All (λ q. q ≢ p) (pids ts)) mismo a in
      ground (arith, leer-ausente ts d a1)
  | no ne ↦ ground (arith, leer-quitar_propio ts d u)
]

All-quitar :
    (ts : List Tabla) (pid p : ℕ)
    → All (λ q. q ≢ p) (pids ts)
    → All (λ q. q ≢ p) (pids (quitar_tabla ts pid))
unfolding quitar_tabla
All-quitar [] pid p a = tt
All-quitar (t ∷ ts) pid p (ne, a) = elim (Bool-cases (t.pid == pid)) [
  | inl si ↦ rw (si, quitar_tabla) a
  | inr distinto ↦ rw (distinto, quitar_tabla) (ne, All-quitar ts pid p a)
]

Unicos-quitar : (ts : List Tabla) (pid : ℕ) → Unicos (pids ts) → Unicos (pids (quitar_tabla ts pid))
unfolding quitar_tabla
Unicos-quitar [] pid u = tt
Unicos-quitar (t ∷ ts) pid (a, u) = elim (Bool-cases (t.pid == pid)) [
  | inl si ↦ rw (si, quitar_tabla) u
  | inr distinto ↦ rw (distinto, quitar_tabla) (All-quitar ts pid t.pid a, Unicos-quitar ts pid u)
]

ausente : (ts : List Tabla) (pid : ℕ) → tabla_de ts pid ≡ none → All (λ q. q ≢ pid) (pids ts)
unfolding tabla_de
ausente [] pid h = tt
ausente (t ∷ ts) pid h = elim (Bool-cases (t.pid == pid)) [
  | inl si ↦ ground arith
  | inr distinto ↦ ((λ e. ground arith), ausente ts pid (ground arith))
]

get_or-vacias : (n i : ℕ) → get_or (replicate n pagina_vacia) i pagina_vacia ≡ pagina_vacia
get_or-vacias zero i = refl
get_or-vacias (suc n) zero = refl
get_or-vacias (suc n) (suc i) = get_or-vacias n i

get_or-agregadas :
    (ps : List Pagina) (n i : ℕ)
    → get_or (ps ++ replicate n pagina_vacia) i pagina_vacia ≡ get_or ps i pagina_vacia
get_or-agregadas [] n i = get_or-vacias n i
get_or-agregadas (p ∷ ps) n zero = refl
get_or-agregadas (p ∷ ps) n (suc i) = get_or-agregadas ps n i

-- A page is among the first `n`, or among the others.
get_or-partida :
    (ps : List Pagina) (n i : ℕ)
    → (get_or (take n ps) i pagina_vacia ≡ get_or ps i pagina_vacia)
      ⊎ ((get_or (take n ps) i pagina_vacia ≡ pagina_vacia)
          × ((j : ℕ) × (get_or (drop n ps) j pagina_vacia ≡ get_or ps i pagina_vacia)))
get_or-partida ps zero i = inr (refl, (i, refl))
get_or-partida [] (suc n) i = inl refl
get_or-partida (p ∷ ps) (suc n) zero = inl refl
get_or-partida (p ∷ ps) (suc n) (suc i) = get_or-partida ps n i

get_or-resto :
    (ps : List Pagina) (n i : ℕ)
    → (j : ℕ) × (get_or ps j pagina_vacia ≡ get_or (drop n ps) i pagina_vacia)
      × (get_or (take n ps) j pagina_vacia ≡ pagina_vacia)
get_or-resto ps zero i = (i, refl, refl)
get_or-resto [] (suc n) i = (i, refl, refl)
get_or-resto (p ∷ ps) (suc n) i = let (j, e, v) = get_or-resto ps n i in (suc j, e, v)

-- No page is taken.
sin_recorte :
    (ts us : List Tabla) (bits : List Bool)
    → Unicos (pids us)
    → ((d : Duenio) → leer_pagina us d ≡ leer_pagina ts d)
    → Orden ts bits
    → Orden us bits
unfolding liberar_paginas
sin_recorte ts us bits u igual o =
    Orden-Recorte ts us [] bits
      (record {
        unicos = u;
        quedan = λ d p. igual d;
        quitadas = λ i p. absurd (cc p);
        todas = λ d. inl (igual d);
      })
      o

ℤ-cases : (x : ℤ) → ((n : ℕ) × (x ≡ pos n)) ⊎ ((n : ℕ) × (x ≡ negsuc n))
ℤ-cases (pos n) = inl (n, refl)
ℤ-cases (negsuc n) = inr (n, refl)

-- The creation of a process keeps the frames and the pages in order, whether it is new or not.
pub paginacion_crear_proceso-EsOrdenado :
    (tam_pag pid tamanio : ℕ) (m : Paginado)
    → EsOrdenado m
    → EsOrdenado (paginacion_crear_proceso tam_pag pid tamanio m).1
unfolding paginacion_crear_proceso leer_pagina
paginacion_crear_proceso-EsOrdenado tam_pag pid tamanio m o =
    let ts = m.reloj.tablas in
    elim (Option-cases (tabla_de ts pid)) [
      | inr (ps, hay) ↦ rw (hay, paginacion_crear_proceso) o
      | inl nada ↦
          let n = pos_part (paginas_de tam_pag (a_int tamanio)) in
          let t : Tabla = record { pid = pid; paginas = replicate n pagina_vacia } in
          let a = ausente ts pid nada in
          rw (nada, paginacion_crear_proceso)
            (sin_recorte ts (t ∷ ts) m.bits (a, o.unicos)
              (λ d. elim (ℕ_discrete pid d.pid) [
                | yes mismo ↦
                    let v = leer-ausente ts d (subst (λ p. All (λ q. q ≢ p) (pids ts)) mismo a) in
                    ground (arith, v, get_or-vacias n d.nro_pagina)
                | no ne ↦ ground arith
              ])
              o)
    ]

quitar-Recorte :
    (ts : List Tabla) (pid : ℕ) (ps : List Pagina)
    → tabla_de ts pid ≡ some ps
    → Unicos (pids ts)
    → Recorte ts (quitar_tabla ts pid) ps
quitar-Recorte ts pid ps con u =
    let vacia : (d : Duenio) → d.pid ≡ pid → leer_pagina (quitar_tabla ts pid) d ≡ pagina_vacia =
      λ d e.
        subst (λ p. leer_pagina (quitar_tabla ts p) d ≡ pagina_vacia) e
          (leer-quitar_propio ts d u) in
    record {
      unicos = Unicos-quitar ts pid u;
      quedan = λ d p. elim (ℕ_discrete d.pid pid) [
        | yes mismo ↦ absurd (cc (sym (ap (λ x. x.presente) (vacia d mismo)) ∙ p))
        | no ne ↦ leer-quitar_otro ts d pid ne
      ];
      quitadas = λ i p. (
        duenio pid i,
        tabla_de-leer ts (duenio pid i) ps con,
        ap (λ x. x.presente) (vacia (duenio pid i) refl),
      );
      todas = λ d. elim (ℕ_discrete d.pid pid) [
        | yes mismo ↦ inr (
          d.nro_pagina,
          sym (tabla_de-leer ts d ps (subst (λ p. tabla_de ts p ≡ some ps) (sym mismo) con)),
        )
        | no ne ↦ inl (leer-quitar_otro ts d pid ne)
      ];
    }

-- The end of a process keeps the frames and the pages in order: its frames are free, and the pages of
-- the others stay where they are.
pub paginacion_destruir_proceso-EsOrdenado :
    (pid : ℕ) (m : Paginado) → EsOrdenado m → EsOrdenado (paginacion_destruir_proceso pid m)
unfolding paginacion_destruir_proceso
paginacion_destruir_proceso-EsOrdenado pid m o =
    let ts = m.reloj.tablas in
    elim (Option-cases (tabla_de ts pid)) [
      | inl nada ↦ rw (nada, paginacion_destruir_proceso) o
      | inr (ps, con) ↦
          rw (con, paginacion_destruir_proceso)
            (Orden-Recorte ts (quitar_tabla ts pid) ps m.bits
              (quitar-Recorte ts pid ps con o.unicos) o)
    ]

cambiar-leer :
    (ts : List Tabla) (pid : ℕ) (ps qs : List Pagina) (d : Duenio)
    → tabla_de ts pid ≡ some ps
    → d.pid ≡ pid
    → (leer_pagina (cambiar_tabla ts pid qs) d ≡ get_or qs d.nro_pagina pagina_vacia)
      × (leer_pagina ts d ≡ get_or ps d.nro_pagina pagina_vacia)
cambiar-leer ts pid ps qs d con e =
    let con1 : tabla_de ts d.pid ≡ some ps = subst (λ p. tabla_de ts p ≡ some ps) (sym e) con in
    (
      subst (λ p. leer_pagina (cambiar_tabla ts p qs) d ≡ get_or qs d.nro_pagina pagina_vacia) e
          (leer-cambiar_propio ts d ps qs con1),
      tabla_de-leer ts d ps con1,
    )

acortar-Recorte :
    (ts : List Tabla) (pid n : ℕ) (ps : List Pagina)
    → tabla_de ts pid ≡ some ps
    → Unicos (pids ts)
    → Recorte ts (cambiar_tabla ts pid (take n ps)) (drop n ps)
acortar-Recorte ts pid n ps con u = record {
  unicos = subst Unicos (sym (pids-cambiar ts pid (take n ps))) u;
  quedan = λ d p. elim (ℕ_discrete d.pid pid) [
    | no ne ↦ leer-cambiar_otro ts d pid (take n ps) ne
    | yes mismo ↦
        let (nueva, vieja) = cambiar-leer ts pid ps (take n ps) d con mismo in
        elim (get_or-partida ps n d.nro_pagina) [
          | inl igual ↦ nueva ∙ igual ∙ sym vieja
          | inr (v, _) ↦ absurd (cc (sym (ap (λ x. x.presente) (nueva ∙ v)) ∙ p))
        ]
  ];
  quitadas = λ i p.
      let (j, igual, v) = get_or-resto ps n i in
      let (nueva, vieja) = cambiar-leer ts pid ps (take n ps) (duenio pid j) con refl in
      (duenio pid j, vieja ∙ igual, ap (λ x. x.presente) (nueva ∙ v));
  todas = λ d. elim (ℕ_discrete d.pid pid) [
    | no ne ↦ inl (leer-cambiar_otro ts d pid (take n ps) ne)
    | yes mismo ↦
        let (nueva, vieja) = cambiar-leer ts pid ps (take n ps) d con mismo in
        elim (get_or-partida ps n d.nro_pagina) [
          | inl igual ↦ inl (nueva ∙ igual ∙ sym vieja)
          | inr (_, (j, e)) ↦ inr (j, e ∙ sym vieja)
        ]
  ];
}

abbrev OrdenadoSi : Option (Bool × Paginado) → Type 0
OrdenadoSi none = Unit
OrdenadoSi (some res) = EsOrdenado res.1

resize-OrdenadoSi :
    (tam_pag pid nuevo : ℕ) (m : Paginado)
    → EsOrdenado m
    → OrdenadoSi (paginacion_resize tam_pag pid nuevo m)
unfolding paginacion_resize
resize-OrdenadoSi tam_pag pid nuevo m o =
    let ts = m.reloj.tablas in
    elim (Option-cases (tabla_de ts pid)) [
      | inl nada ↦ rw (nada, paginacion_resize) o
      | inr (ps, con) ↦ elim (ℤ-cases (paginas_de tam_pag (a_int nuevo))) [
        | inr (n, menor) ↦ rw (con, menor, paginacion_resize) tt
        | inl (n, e) ↦ elim (Bool-cases (ltb (length ps) n)) [
          | inr menos ↦
              rw (con, e, menos, paginacion_resize)
                (Orden-Recorte ts (cambiar_tabla ts pid (take n ps)) (drop n ps) m.bits
                  (acortar-Recorte ts pid n ps con o.unicos) o)
          | inl mas ↦
              let qs = ps ++ replicate (n - length ps) pagina_vacia in
              rw (con, e, mas, paginacion_resize)
                (sin_recorte ts (cambiar_tabla ts pid qs) m.bits
                  (subst Unicos (sym (pids-cambiar ts pid qs)) o.unicos)
                  (λ d. elim (ℕ_discrete d.pid pid) [
                    | no ne ↦ leer-cambiar_otro ts d pid qs ne
                    | yes mismo ↦
                        let (nueva, vieja) = cambiar-leer ts pid ps qs d con mismo in
                        nueva ∙ get_or-agregadas ps (n - length ps) d.nro_pagina ∙ sym vieja
                  ])
                  o)
        ]
      ]
    ]

-- The resize of a process, larger, smaller or of none, keeps the frames and the pages in order where it
-- comes to its end: the frames of the pages that go are free, and every other page stays where it is.
pub paginacion_resize-EsOrdenado :
    (tam_pag pid nuevo : ℕ) (m : Paginado) (res : Bool × Paginado)
    → paginacion_resize tam_pag pid nuevo m ≡ some res
    → EsOrdenado m
    → EsOrdenado res.1
paginacion_resize-EsOrdenado tam_pag pid nuevo m res fin o =
    subst OrdenadoSi fin (resize-OrdenadoSi tam_pag pid nuevo m o)
