-- ===== src/Memoria/Paginacion/Entrada.antt =====
-- paginacion_obtener_entrada: the page fault keeps the frames and the pages in order, and is served.
use recursos_so.Prelude.{
  length-set, ℕ, ◌<◌, ◌≡◌, inl, inr, refl, sym, ap, ◌∙◌, subst, Bool, true, false, List, [], ◌∷◌,
  Option, none, some, leb, length, get_or, arith, Bool-cases, Option-cases,
}
use recursos_so.Memoria.Frames.{obtener_frame_libre}
use recursos_so.Memoria.Frames.Leyes.{Obtenido, obtener_frame_libre-Obtenido}
use recursos_so.Memoria.Reemplazo.{
  Pagina, Tabla, Duenio, pagina_vacia, leer_pagina, elegir_victima_clock,
}
use recursos_so.Memoria.Swap.{swap_escribir_pagina}
use recursos_so.Memoria.Paginacion.{
  Paginado, con_tablas, usar_pagina, tabla_de, escribir_pagina, cargar, sacar, reemplazar,
  paginacion_obtener_entrada,
}
use recursos_so.Memoria.Paginacion.Tablas.{
  duenio, largo, Duenio-cases, leer_pagina-largo, tabla_de-largo, tabla_de-hay, leer-escribir_otro,
  largo-escribir,
}
use recursos_so.Memoria.Paginacion.Victimas.{En, Mismas}
use recursos_so.Memoria.Paginacion.Clock.{elegir_victima_clock-Elegida, elegir_victima_clock-hay}
use recursos_so.Memoria.Paginacion.Orden.{
  Orden, Orden-Mismas, mismas-En, Hueco, Hueco-Obtenido, Hueco-desalojado, Orden-cargada,
  marcar-Mismas, cargada, vaciada,
}

-- The frames and the pages of the memory are in order.
abbrev pub EsOrdenado : Paginado → Type 0
EsOrdenado m = Orden m.reloj.tablas m.bits

-- After a request for the page `d` all is in order, where it succeeds the page is in a frame, and it
-- succeeds where there are frames and the swap file can be opened. No process gets or loses pages.
pub record Atendida (d : Duenio) (abre : Bool) (m : Paginado) (res : Bool × Paginado) : Type 0 where
  pub orden : EsOrdenado res.1
  pub en_frame : res.0 ≡ true → (f : ℕ) × En res.1.reloj.tablas d f
  pub exito : abre ≡ true → 0 < length m.bits → res.0 ≡ true
  pub largos : (pid : ℕ) → largo res.1.reloj.tablas pid ≡ largo m.reloj.tablas pid
  pub frames : length res.1.bits ≡ length m.bits

-- A page that is loaded into a frame without one.
cargar-Atendida :
    (tam_pag : ℕ) (abre : Bool) (sucio : List ℕ) (d : Duenio) (h : ℕ) (m m0 : Paginado)
    → Hueco m.reloj.tablas m.bits h
    → d.nro_pagina < largo m.reloj.tablas d.pid
    → (leer_pagina m.reloj.tablas d).presente ≡ false
    → ((pid : ℕ) → largo m.reloj.tablas pid ≡ largo m0.reloj.tablas pid)
    → length m.bits ≡ length m0.bits
    → Atendida d abre m0 (true, cargar tam_pag abre sucio d h m)
unfolding cargar
cargar-Atendida tam_pag abre sucio d h m m0 o l falta lp lb =
    let (orden, en) = Orden-cargada m.reloj.tablas m.bits d h o l falta in
    record {
      orden = orden;
      en_frame = λ e. (h, en);
      exito = λ e f. refl;
      largos = λ pid. largo-escribir m.reloj.tablas d (cargada h) pid ∙ lp pid;
      frames = lb;
    }

-- A request that fails, for want of the swap file.
rechazo :
    (d : Duenio) (abre : Bool) (m0 m : Paginado)
    → EsOrdenado m
    → (abre ≡ true → 0 < length m0.bits → false ≡ true)
    → ((pid : ℕ) → largo m.reloj.tablas pid ≡ largo m0.reloj.tablas pid)
    → length m.bits ≡ length m0.bits
    → Atendida d abre m0 (false, m)
rechazo d abre m0 m o e lp lb = record {
  orden = o;
  en_frame = λ x. absurd (cc x);
  exito = e;
  largos = lp;
  frames = lb;
}

module _ (tam_pag : ℕ) (abre : Bool) (sucio : List ℕ) where
  sacar-exito :
      (v : Duenio) (f : ℕ) (m : Paginado) → abre ≡ true → (sacar tam_pag abre sucio v f m).0 ≡ true
  unfolding sacar swap_escribir_pagina
  sacar-exito v f m e = ground arith

  -- A page that is not present is not once another, or it, was emptied.
  sigue_sin :
      (ts us : List Tabla) (v d : Duenio) (f : ℕ)
      → Mismas ts us
      → En us v f
      → (leer_pagina ts d).presente ≡ false
      → (leer_pagina (escribir_pagina us v pagina_vacia) d).presente ≡ false
  sigue_sin ts us v d f m en falta = elim (Duenio-cases v d) [
    | inl mismo ↦
        subst (λ x. (leer_pagina (escribir_pagina us v pagina_vacia) x).presente ≡ false) mismo
          (vaciada us v (leer_pagina-largo us v en.presente))
    | inr ne ↦
        ap (λ x. x.presente) (leer-escribir_otro us v d pagina_vacia ne) ∙ m.presente d ∙ falta
  ]

  -- With every frame taken: the clock, the victim and the load.
  reemplazar-Atendida :
      (d : Duenio) (m : Paginado)
      → EsOrdenado m
      → (0 < length m.bits → get_or m.bits 0 true ≡ true)
      → d.nro_pagina < largo m.reloj.tablas d.pid
      → (leer_pagina m.reloj.tablas d).presente ≡ false
      → Atendida d abre m (reemplazar tam_pag abre sucio d m)
  unfolding reemplazar
  reemplazar-Atendida d m o lleno l falta =
      let res = elegir_victima_clock (length m.bits) m.reloj in
      let m1 : Paginado = record m { reloj = res.1 } in
      let e = elegir_victima_clock-Elegida (length m.bits) m.reloj o.unicos in
      let o1 : EsOrdenado m1 = Orden-Mismas m.reloj.tablas res.1.tablas m.bits e.mismas o in
      elim (Option-cases res.0) [
        | inl nada ↦
            rw (nada, reemplazar)
              (rechazo d abre m m1 o1
                (λ a hay.
                  let (x, en) = o.con_duenio 0 hay (lleno hay) in
                  let (v, si) = elegir_victima_clock-hay (length m.bits) 0 m.reloj x en hay in
                  absurd (cc (sym nada ∙ si)))
                e.mismas.largo refl)
        | inr (v, hay) ↦
            let (f, ef, en) = e.en_frame v hay in
            let en1 : En res.1.tablas v.duenio f =
              mismas-En m.reloj.tablas res.1.tablas v.duenio f e.mismas en in
            let (tabla_v, con) =
              tabla_de-hay res.1.tablas v.duenio.pid v.duenio.nro_pagina
                (leer_pagina-largo res.1.tablas v.duenio en1.presente) in
            elim (Bool-cases (sacar tam_pag abre sucio v.duenio f m1).0) [
              | inr no_salio ↦
                  rw (hay, ef, con, no_salio, reemplazar)
                    (rechazo d abre m m1 o1 (λ a x. sym no_salio ∙ sacar-exito v.duenio f m1 a)
                      e.mismas.largo refl)
              | inl salio ↦
                  rw (hay, ef, con, salio, reemplazar)
                    (cargar-Atendida tam_pag abre sucio d f
                      (record m1 {
                        reloj = record res.1 {
                          tablas = escribir_pagina res.1.tablas v.duenio pagina_vacia;
                        };
                        swap = (sacar tam_pag abre sucio v.duenio f m1).1;
                      })
                      m (Hueco-desalojado res.1.tablas m.bits v.duenio f o1 en1)
                      (subst (λ n. d.nro_pagina < n)
                        (sym (
                          largo-escribir res.1.tablas v.duenio pagina_vacia d.pid
                          ∙ e.mismas.largo d.pid))
                        l)
                      (sigue_sin m.reloj.tablas res.1.tablas v.duenio d f e.mismas en1 falta)
                      (λ p. largo-escribir res.1.tablas v.duenio pagina_vacia p ∙ e.mismas.largo p)
                      refl)
            ]
      ]

  todo_tomado :
      (bits : List Bool)
      → obtener_frame_libre bits ≡ none
      → 0 < length bits
      → get_or bits 0 true ≡ true
  unfolding obtener_frame_libre
  todo_tomado [] h l = refl
  todo_tomado (true ∷ bits) h l = refl
  todo_tomado (false ∷ bits) h l = cc

  -- A page that is present is used.
  uso-Mismas :
      (ts : List Tabla) (d : Duenio) → d.nro_pagina < largo ts d.pid → Mismas ts (usar_pagina ts d)
  unfolding usar_pagina
  uso-Mismas ts d l = marcar-Mismas ts d (record (leer_pagina ts d) { uso = true }) refl refl l

  -- The hit.
  acierto :
      (pid nro : ℕ) (m : Paginado) (tabla : List Pagina)
      → tabla_de m.reloj.tablas pid ≡ some tabla
      → leb (length tabla) nro ≡ false
      → (leer_pagina m.reloj.tablas (duenio pid nro)).presente ≡ true
      → paginacion_obtener_entrada tam_pag abre sucio pid nro m
        ≡ (true, con_tablas (usar_pagina m.reloj.tablas (duenio pid nro)) m)
  unfolding paginacion_obtener_entrada
  acierto pid nro m tabla con cabe esta = ground arith

  -- From a memory in order, a request for a page that the process has keeps it in order on every branch:
  -- no process has two tables, no frame two pages, each page that is present is in a frame that is taken,
  -- and each frame that is taken has such a page. Where the request succeeds the page is in a frame; and
  -- it succeeds, with a free frame or with a victim, if there is a frame at all and the swap file can be
  -- opened.
  pub paginacion_obtener_entrada-Atendida :
      (pid nro : ℕ) (m : Paginado)
      → EsOrdenado m
      → nro < largo m.reloj.tablas pid
      → Atendida (duenio pid nro) abre m (paginacion_obtener_entrada tam_pag abre sucio pid nro m)
  unfolding paginacion_obtener_entrada
  paginacion_obtener_entrada-Atendida pid nro m o l =
      let d = duenio pid nro in
      let ts = m.reloj.tablas in
      let (tabla, con) = tabla_de-hay ts pid nro l in
      let cabe : leb (length tabla) nro ≡ false = ground (arith, tabla_de-largo ts pid tabla con) in
      elim (Bool-cases (leer_pagina ts d).presente) [
        | inl esta ↦
            let mi = uso-Mismas ts d l in
            let (f, en) = o.con_frame d esta in
            let e : paginacion_obtener_entrada tam_pag abre sucio pid nro m
                ≡ (true, con_tablas (usar_pagina ts d) m) =
              acierto pid nro m tabla con cabe esta in
            subst (Atendida d abre m) (sym e) (record {
              orden = Orden-Mismas ts (usar_pagina ts d) m.bits mi o;
              en_frame = λ e. (f, mismas-En ts (usar_pagina ts d) d f mi en);
              exito = λ e x. refl;
              largos = mi.largo;
              frames = refl;
            })
        | inr falta ↦ elim (Option-cases (obtener_frame_libre m.bits)) [
          | inl nada ↦
              rw (con, cabe, falta, nada, paginacion_obtener_entrada)
                (reemplazar-Atendida d m o (todo_tomado m.bits nada) l falta)
          | inr ((h, bits), libre) ↦ elim (obtener_frame_libre-Obtenido m.bits) [
            | inl (e, _) ↦ absurd (cc (sym e ∙ libre))
            | inr (g, bits2, e, ob) ↦
                let s : ◌≡◌ {A = Option (ℕ × List Bool)} (some (g, bits2)) (some (h, bits)) =
                  sym e ∙ libre in
                let eg : g ≡ h = cc in
                let eb : bits2 ≡ bits = cc in
                let ob1 : Obtenido m.bits h bits =
                  subst (Obtenido m.bits h) eb (subst (λ x. Obtenido m.bits x bits2) eg ob) in
                rw (con, cabe, falta, libre, paginacion_obtener_entrada)
                  (cargar-Atendida tam_pag abre sucio d h (record m { bits = bits }) m
                    (Hueco-Obtenido ts m.bits bits h o ob1) l falta (λ p. refl)
                    (ap length ob1.tomado ∙ length-set m.bits h true))
          ]
        ]
      ]
