-- ===== src/Memoria/Paginacion/Orden.antt =====
-- The frames and the pages that are present in them, and what a page fault does to both.
use recursos_so.Prelude.{
  ℕ, ◌<◌, ◌≡◌, ◌≢◌, inl, inr, sym, ap, ◌∙◌, subst, Bool, true, false, List, Option, some, length,
  get_or, arith, length-set, get_or-set_self, get_or-set_ne, ℕ_discrete,
}
use recursos_so.Memoria.Frames.Leyes.{Obtenido}
use recursos_so.Memoria.Reemplazo.{Pagina, Tabla, Duenio, pagina_vacia, leer_pagina}
use recursos_so.Memoria.Paginacion.{escribir_pagina}
use recursos_so.Memoria.Paginacion.Tablas.{
  largo, pids, Distintos, Duenio-cases, leer_pagina-largo, leer-escribir_mismo, leer-escribir_otro,
  largo-escribir, pids-escribir,
}
use recursos_so.Memoria.Paginacion.Victimas.{Unicos, En, Mismas}

-- No process has two tables, no frame two pages, a page that is present is in a frame that is taken, and
-- a frame that is taken has a page.
pub record Orden (ts : List Tabla) (bits : List Bool) : Type 0 where
  pub unicos : Unicos (pids ts)
  pub exclusivos : (d e : Duenio) (f : ℕ) → En ts d f → En ts e f → d ≡ e
  pub con_frame : (d : Duenio) → (leer_pagina ts d).presente ≡ true → (f : ℕ) × En ts d f
  pub tomados : (d : Duenio) (f : ℕ) → En ts d f → (f < length bits) × (get_or bits f true ≡ true)
  pub con_duenio : (f : ℕ) → f < length bits → get_or bits f true ≡ true → (d : Duenio) × En ts d f

-- The same, but for one frame that is taken and has no page yet.
pub record Hueco (ts : List Tabla) (bits : List Bool) (h : ℕ) : Type 0 where
  pub unicos : Unicos (pids ts)
  pub exclusivos : (d e : Duenio) (f : ℕ) → En ts d f → En ts e f → d ≡ e
  pub con_frame : (d : Duenio) → (leer_pagina ts d).presente ≡ true → (f : ℕ) × En ts d f
  pub tomados :
      (d : Duenio) (f : ℕ) → En ts d f → (f < length bits) × (get_or bits f true ≡ true) × (f ≢ h)
  pub en_rango : h < length bits
  pub tomado : get_or bits h true ≡ true
  pub con_duenio :
      (f : ℕ) → f < length bits → get_or bits f true ≡ true → f ≢ h → (d : Duenio) × En ts d f

En-mismas : (ts us : List Tabla) (d : Duenio) (f : ℕ) → Mismas ts us → En us d f → En ts d f
En-mismas ts us d f m e = record {
  presente = sym (m.presente d) ∙ e.presente;
  frame = sym (m.frame d) ∙ e.frame;
}

pub mismas-En : (ts us : List Tabla) (d : Duenio) (f : ℕ) → Mismas ts us → En ts d f → En us d f
mismas-En ts us d f m e = record {
  presente = m.presente d ∙ e.presente;
  frame = m.frame d ∙ e.frame;
}

pub Orden-Mismas :
    (ts us : List Tabla) (bits : List Bool) → Mismas ts us → Orden ts bits → Orden us bits
Orden-Mismas ts us bits m o = record {
  unicos = subst Unicos (sym m.pids) o.unicos;
  exclusivos = λ d e f a b. o.exclusivos d e f (En-mismas ts us d f m a) (En-mismas ts us e f m b);
  con_frame =
      λ d p. let (f, e) = o.con_frame d (sym (m.presente d) ∙ p) in (f, mismas-En ts us d f m e);
  tomados = λ d f e. o.tomados d f (En-mismas ts us d f m e);
  con_duenio = λ f l t. let (d, e) = o.con_duenio f l t in (d, mismas-En ts us d f m e);
}

-- A write to one page leaves the others where they are.
En-escrita :
    (ts : List Tabla) (d e : Duenio) (p : Pagina) (f : ℕ)
    → Distintos d e
    → En (escribir_pagina ts d p) e f
    → En ts e f
En-escrita ts d e p f ne h =
    let igual = leer-escribir_otro ts d e p ne in
    record {
      presente = ap (λ x. x.presente) (sym igual) ∙ h.presente;
      frame = ap (λ x. x.frame) (sym igual) ∙ h.frame;
    }

escrita-En :
    (ts : List Tabla) (d e : Duenio) (p : Pagina) (f : ℕ)
    → Distintos d e
    → En ts e f
    → En (escribir_pagina ts d p) e f
escrita-En ts d e p f ne h =
    let igual = leer-escribir_otro ts d e p ne in
    record {
      presente = ap (λ x. x.presente) igual ∙ h.presente;
      frame = ap (λ x. x.frame) igual ∙ h.frame;
    }

-- The page is not present once it is emptied.
pub vaciada :
    (ts : List Tabla) (v : Duenio)
    → v.nro_pagina < largo ts v.pid
    → (leer_pagina (escribir_pagina ts v pagina_vacia) v).presente ≡ false
vaciada ts v l = ap (λ x. x.presente) (leer-escribir_mismo ts v pagina_vacia l)

-- What is present after the page `v` was emptied was present before, and is another page.
pub quedaba :
    (ts : List Tabla) (v e : Duenio)
    → v.nro_pagina < largo ts v.pid
    → (leer_pagina (escribir_pagina ts v pagina_vacia) e).presente ≡ true
    → Distintos v e
quedaba ts v e l h = elim (Duenio-cases v e) [
  | inr ne ↦ ne
  | inl mismo ↦
      let si =
        subst (λ x. (leer_pagina (escribir_pagina ts v pagina_vacia) x).presente ≡ true) (sym mismo)
          h in
      absurd (cc (sym (vaciada ts v l) ∙ si))
]

-- A frame that an allocation gives.
pub Hueco-Obtenido :
    (ts : List Tabla) (bits bits' : List Bool) (h : ℕ)
    → Orden ts bits
    → Obtenido bits h bits'
    → Hueco ts bits' h
Hueco-Obtenido ts bits bits' h o g =
    let lb : length bits' ≡ length bits = ap length g.tomado ∙ length-set bits h true in
    let otro : (f : ℕ) → f ≢ h → get_or bits' f true ≡ get_or bits f true = λ f ne.
      ap (λ b. get_or b f true) g.tomado ∙ get_or-set_ne bits h f true true (λ e. ne (sym e)) in
    let libre : (f : ℕ) → get_or bits f true ≡ true → f ≢ h =
      λ f t e. absurd (cc (sym (subst (λ x. get_or bits x true ≡ true) e t) ∙ g.libre)) in
    record {
      unicos = o.unicos;
      exclusivos = o.exclusivos;
      con_frame = o.con_frame;
      tomados =
          λ d f e. let (l, t) = o.tomados d f e in (omega arith, otro f (libre f t) ∙ t, libre f t);
      en_rango = omega (arith, g.en_rango);
      tomado = ap (λ b. get_or b h true) g.tomado ∙ get_or-set_self bits h true true g.en_rango;
      con_duenio = λ f l t ne. o.con_duenio f (omega arith) (sym (otro f ne) ∙ t);
    }

-- The frame of a victim that is emptied.
pub Hueco-desalojado :
    (ts : List Tabla) (bits : List Bool) (v : Duenio) (h : ℕ)
    → Orden ts bits
    → En ts v h
    → Hueco (escribir_pagina ts v pagina_vacia) bits h
Hueco-desalojado ts bits v h o en =
    let us = escribir_pagina ts v pagina_vacia in
    let lv = leer_pagina-largo ts v en.presente in
    let antes : (e : Duenio) (f : ℕ) → En us e f → En ts e f =
      λ e f x. En-escrita ts v e pagina_vacia f (quedaba ts v e lv x.presente) x in
    record {
      unicos = subst Unicos (sym (pids-escribir ts v pagina_vacia)) o.unicos;
      exclusivos = λ d e f a b. o.exclusivos d e f (antes d f a) (antes e f b);
      con_frame = λ d p.
          let ne = quedaba ts v d lv p in
          let (f, e) =
            o.con_frame d
              (ap (λ x. x.presente) (sym (leer-escribir_otro ts v d pagina_vacia ne)) ∙ p) in
          (f, escrita-En ts v d pagina_vacia f ne e);
      tomados = λ d f e.
          let (l, t) = o.tomados d f (antes d f e) in
          (
            l,
            t,
            λ mismo.
                let igual : d ≡ v = o.exclusivos d v h (subst (En ts d) mismo (antes d f e)) en in
                elim (quedaba ts v d lv e.presente) [
                  | inl x ↦ x (ap (λ y. y.pid) (sym igual))
                  | inr x ↦ x (ap (λ y. y.nro_pagina) (sym igual))
                ],
          );
      en_rango = (o.tomados v h en).0;
      tomado = (o.tomados v h en).1;
      con_duenio = λ f l t ne.
          let (d, e) = o.con_duenio f l t in
          elim (Duenio-cases v d) [
            | inr otro ↦ (d, escrita-En ts v d pagina_vacia f otro e)
            | inl mismo ↦
                let s : ◌≡◌ {A = Option ℕ} (some f) (some h) =
                  sym e.frame ∙ ap (λ x. (leer_pagina ts x).frame) (sym mismo) ∙ en.frame in
                let igual : f ≡ h = cc in absurd (ne igual)
          ];
    }

abbrev pub cargada : ℕ → Pagina
cargada h = record { frame = some h; presente = true; modificado = false; uso = true }

-- The page that is loaded into the frame.
pub Orden-cargada :
    (ts : List Tabla) (bits : List Bool) (d : Duenio) (h : ℕ)
    → Hueco ts bits h
    → d.nro_pagina < largo ts d.pid
    → (leer_pagina ts d).presente ≡ false
    → Orden (escribir_pagina ts d (cargada h)) bits × En (escribir_pagina ts d (cargada h)) d h
Orden-cargada ts bits d h o l falta =
    let us = escribir_pagina ts d (cargada h) in
    let propia = leer-escribir_mismo ts d (cargada h) l in
    let en : En us d h = record {
      presente = ap (λ x. x.presente) propia;
      frame = ap (λ x. x.frame) propia;
    } in
    let su_frame : (f : ℕ) → En us d f → f ≡ h =
      λ f x. let s : ◌≡◌ {A = Option ℕ} (some f) (some h) = sym x.frame ∙ en.frame in cc in
    (
      record {
        unicos = subst Unicos (sym (pids-escribir ts d (cargada h))) o.unicos;
        exclusivos = λ a b f x y. elim (Duenio-cases d a) [
          | inl da ↦ elim (Duenio-cases d b) [
            | inl db ↦ sym da ∙ db
            | inr nb ↦ absurd (
                (o.tomados b f (En-escrita ts d b (cargada h) f nb y)).2
                  (su_frame f (subst (λ z. En us z f) (sym da) x)))
          ]
          | inr na ↦ elim (Duenio-cases d b) [
            | inl db ↦ absurd (
                (o.tomados a f (En-escrita ts d a (cargada h) f na x)).2
                  (su_frame f (subst (λ z. En us z f) (sym db) y)))
            | inr nb ↦
                o.exclusivos a b f (En-escrita ts d a (cargada h) f na x)
                  (En-escrita ts d b (cargada h) f nb y)
          ]
        ];
        con_frame = λ e p. elim (Duenio-cases d e) [
          | inl de ↦ (h, subst (λ z. En us z h) de en)
          | inr ne ↦
              let (f, x) =
                o.con_frame e
                  (ap (λ x. x.presente) (sym (leer-escribir_otro ts d e (cargada h) ne)) ∙ p) in
              (f, escrita-En ts d e (cargada h) f ne x)
        ];
        tomados = λ e f x. elim (Duenio-cases d e) [
          | inl de ↦
              let igual = su_frame f (subst (λ z. En us z f) (sym de) x) in
              subst (λ g. (g < length bits) × (get_or bits g true ≡ true)) (sym igual)
                (o.en_rango, o.tomado)
          | inr ne ↦ let (a, b, _) = o.tomados e f (En-escrita ts d e (cargada h) f ne x) in (a, b)
        ];
        con_duenio = λ f lf t. elim (ℕ_discrete f h) [
          | yes igual ↦ (d, subst (En us d) (sym igual) en)
          | no ne ↦
              let (e, x) = o.con_duenio f lf t ne in
              elim (Duenio-cases d e) [
                | inr otro ↦ (e, escrita-En ts d e (cargada h) f otro x)
                | inl de ↦
                    absurd (cc (sym (ap (λ z. (leer_pagina ts z).presente) de) ∙ falta, x.presente))
              ]
        ];
      },
      en,
    )

-- A write to the marks of a page leaves it in its frame.
pub marcar-Mismas :
    (ts : List Tabla) (d : Duenio) (p : Pagina)
    → p.presente ≡ (leer_pagina ts d).presente
    → p.frame ≡ (leer_pagina ts d).frame
    → d.nro_pagina < largo ts d.pid
    → Mismas ts (escribir_pagina ts d p)
marcar-Mismas ts d p ep ef l = record {
  pids = pids-escribir ts d p;
  largo = largo-escribir ts d p;
  presente = λ e. elim (Duenio-cases d e) [
    | inl de ↦
        subst (λ x. (leer_pagina (escribir_pagina ts d p) x).presente ≡ (leer_pagina ts x).presente)
          de (ap (λ x. x.presente) (leer-escribir_mismo ts d p l) ∙ ep)
    | inr ne ↦ ap (λ x. x.presente) (leer-escribir_otro ts d e p ne)
  ];
  frame = λ e. elim (Duenio-cases d e) [
    | inl de ↦
        subst (λ x. (leer_pagina (escribir_pagina ts d p) x).frame ≡ (leer_pagina ts x).frame) de
          (ap (λ x. x.frame) (leer-escribir_mismo ts d p l) ∙ ef)
    | inr ne ↦ ap (λ x. x.frame) (leer-escribir_otro ts d e p ne)
  ];
}
