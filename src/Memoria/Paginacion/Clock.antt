-- ===== src/Memoria/Paginacion/Clock.antt =====
-- reemplazo.c on page tables in order: the victim is a page that is present in its frame.
use recursos_so.Prelude.{
  ℕ, zero, suc, ◌+◌, ◌*◌, ◌%◌, ◌<◌, ◌≡◌, inl, inr, refl, sym, ap, ◌∙◌, subst, true, false, List, [],
  ◌∷◌, ◌++◌, Option, none, some, if◌then◌else◌, ◌==◌, leb, length, get_or, replicate, arith,
  Bool-cases, Option-cases,
}
use recursos_so.Memoria.Reemplazo.{
  Pagina, Tabla, Duenio, pagina_vacia, leer_pagina, limpiar_uso, duenios, Reloj, Victima, barrer,
  elegir_victima_clock,
}
use recursos_so.Memoria.Reemplazo.Garantia.{elegir_victima_clock-Encontrada}
use recursos_so.Memoria.Paginacion.Tablas.{pids, get_or-presente}
use recursos_so.Memoria.Paginacion.Victimas.{
  En, Unicos, Mismas, Ciertos, duenios-Ciertos, todas-Vista, vacios-Ciertos, Mismas-refl,
  Mismas-trans, limpiar_uso-Mismas,
}

-- What the clock promises: only use bits change, and a victim is present in the frame.
pub record Elegida (ts : List Tabla) (res : Option Victima × Reloj) : Type 0 where
  pub mismas : Mismas ts res.1.tablas
  pub en_frame : (v : Victima) → res.0 ≡ some v → (f : ℕ) × (v.frame ≡ some f) × En ts v.duenio f

barrer-Elegida :
    (ts : List Tabla) (owners : List (Option Duenio))
    → Ciertos ts owners
    → (rondas : ℕ) (r : Reloj) → Mismas ts r.tablas
    → Elegida ts (barrer owners rondas r)
unfolding barrer
barrer-Elegida ts owners c zero r m = record { mismas = m; en_frame = λ v e. absurd (cc e) }
barrer-Elegida ts owners c (suc rondas) r m =
    let sigue : Reloj = record r { clock_hand = (r.clock_hand + 1) % length owners } in
    elim (Option-cases (get_or owners r.clock_hand none)) [
      | inl nada ↦ rw (nada, barrer) (barrer-Elegida ts owners c rondas sigue m)
      | inr (d, es) ↦ elim (Bool-cases (leer_pagina r.tablas d).uso) [
        | inl usada ↦
            rw (es, usada, barrer)
              (barrer-Elegida ts owners c rondas (record sigue { tablas = limpiar_uso r.tablas d })
                (Mismas-trans ts r.tablas (limpiar_uso r.tablas d) m
                  (limpiar_uso-Mismas r.tablas d)))
        | inr libre ↦
            let en = c r.clock_hand d es in
            rw (es, libre, barrer)
              (record {
                mismas = m;
                en_frame = λ v e.
                    let s : ◌≡◌ {A = Option Victima}
                        (some (record { duenio = d; frame = (leer_pagina r.tablas d).frame }))
                        (some v) =
                      e in
                    let ev : ◌≡◌ {A = Victima}
                        (record { duenio = d; frame = (leer_pagina r.tablas d).frame }) v =
                      cc in
                    (
                      r.clock_hand,
                      sym (ap (λ x. x.frame) ev) ∙ m.frame d ∙ en.frame,
                      subst (λ x. En ts x r.clock_hand) (ap (λ x. x.duenio) ev) en,
                    );
              })
      ]
    ]

pub elegir_victima_clock-Elegida :
    (total : ℕ) (r : Reloj)
    → Unicos (pids r.tablas)
    → Elegida r.tablas (elegir_victima_clock total r)
unfolding elegir_victima_clock
elegir_victima_clock-Elegida total r u = elim (Bool-cases (total == 0)) [
  | inl cero ↦
      rw (cero, elegir_victima_clock)
        (record { mismas = Mismas-refl r.tablas; en_frame = λ v e. absurd (cc e) })
  | inr hay ↦
      let vacios = replicate {A = Option Duenio} total none in
      rw (hay, elegir_victima_clock)
        (barrer-Elegida r.tablas (duenios r.tablas vacios)
          (duenios-Ciertos r.tablas r.tablas vacios (todas-Vista r.tablas u)
            (vacios-Ciertos r.tablas total))
          (total * 2) (record r { clock_hand = if leb total r.clock_hand then 0 else r.clock_hand })
          (Mismas-refl r.tablas))
]

partir_paginas :
    (ps : List Pagina) (n : ℕ)
    → n < length ps
    → (xs : List Pagina) × (ys : List Pagina) × (ps ≡ xs ++ get_or ps n pagina_vacia ∷ ys)
partir_paginas [] n l = elim l [ ]
partir_paginas (p ∷ ps) zero l = ([], ps, refl)
partir_paginas (p ∷ ps) (suc n) l =
    let (xs, ys, e) = partir_paginas ps n (omega arith) in (p ∷ xs, ys, ap (◌∷◌ p) e)

-- The table and the place of a page that is present.
partir_tablas :
    (ts : List Tabla) (d : Duenio)
    → (leer_pagina ts d).presente ≡ true
    → (antes : List Tabla) × (t : Tabla) × (bs : List Tabla) × (xs : List Pagina) × (ys : List
        Pagina)
      × (ts ≡ antes ++ t ∷ bs)
      × (t.paginas ≡ xs ++ leer_pagina ts d ∷ ys)
unfolding leer_pagina
partir_tablas [] d h = cc
partir_tablas (t ∷ ts) d h = elim (Bool-cases (t.pid == d.pid)) [
  | inl si ↦
      let h1 : (get_or t.paginas d.nro_pagina pagina_vacia).presente ≡ true = ground arith in
      let (xs, ys, e) =
        partir_paginas t.paginas d.nro_pagina (get_or-presente t.paginas d.nro_pagina h1) in
      ([], t, ts, xs, ys, refl, ground arith)
  | inr distinto ↦
      let (antes, u, bs, xs, ys, e, e') = partir_tablas ts d (ground arith) in
      (t ∷ antes, u, bs, xs, ys, ap (◌∷◌ t) e, ground arith)
]

-- Where a page is present in one of the frames, the clock has a victim.
pub elegir_victima_clock-hay :
    (total f : ℕ) (r : Reloj) (d : Duenio)
    → En r.tablas d f
    → f < total
    → (v : Victima) × ((elegir_victima_clock total r).0 ≡ some v)
elegir_victima_clock-hay total f r d en l =
    let (antes, t, bs, xs, ys, e, e') = partir_tablas r.tablas d en.presente in
    let enc =
      elegir_victima_clock-Encontrada total f r antes bs t xs ys (leer_pagina r.tablas d) e e'
        (en.presente, en.frame) l in
    (enc.victima, enc.hay)

-- What the clock gives: a page that is present in a frame, whose use bit is clear by then, while only
-- use bits have changed.
pub record Sacada (total : ℕ) (ts : List Tabla) (res : Option Victima × Reloj) : Type 0 where
  pub victima : Victima
  pub hay : res.0 ≡ some victima
  pub frame : ℕ
  pub su_frame : victima.frame ≡ some frame
  pub en_frame : En ts victima.duenio frame
  pub sin_uso : (leer_pagina res.1.tablas victima.duenio).uso ≡ false
  pub mismas : Mismas ts res.1.tablas
  pub mano : res.1.clock_hand < total

-- With one table for each process, if some page is present in a frame below the number of frames, the
-- clock gives a victim within its two turns: a page that is present in the frame that comes with it,
-- whose use bit is clear by then; the pages are present in the frames in which they were, and the hand
-- is inside the frames.
pub elegir_victima_clock-Sacada :
    (total f : ℕ) (r : Reloj) (d : Duenio)
    → Unicos (pids r.tablas)
    → En r.tablas d f
    → f < total
    → Sacada total r.tablas (elegir_victima_clock total r)
elegir_victima_clock-Sacada total f r d u en l =
    let (antes, t, bs, xs, ys, e, e') = partir_tablas r.tablas d en.presente in
    let enc =
      elegir_victima_clock-Encontrada total f r antes bs t xs ys (leer_pagina r.tablas d) e e'
        (en.presente, en.frame) l in
    let ele = elegir_victima_clock-Elegida total r u in
    let (g, eg, eng) = ele.en_frame enc.victima enc.hay in
    record {
      victima = enc.victima;
      hay = enc.hay;
      frame = g;
      su_frame = eg;
      en_frame = eng;
      sin_uso = enc.sin_uso;
      mismas = ele.mismas;
      mano = enc.mano;
    }
