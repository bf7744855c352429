-- ===== src/Memoria/Paginacion/Liberacion.antt =====
-- The frames that a process gives back, and the pages that stay.
use recursos_so.Prelude.{
  ℕ, zero, suc, ◌<◌, ◌≡◌, ◌≢◌, ◌⊎◌, inl, inr, refl, sym, ap, ◌∙◌, subst, Bool, true, false, List,
  [], ◌∷◌, some, length, get_or, arith, Bool-cases, Option-cases, length-set, get_or-set_self,
  get_or-set_ne, ℕ_discrete,
}
use recursos_so.Memoria.Frames.{liberar_frame}
use recursos_so.Memoria.Reemplazo.{Pagina, Tabla, Duenio, pagina_vacia, leer_pagina}
use recursos_so.Memoria.Paginacion.{liberar_paginas}
use recursos_so.Memoria.Paginacion.Tablas.{pids}
use recursos_so.Memoria.Paginacion.Victimas.{Unicos, En}
use recursos_so.Memoria.Paginacion.Orden.{Orden}

liberar_frame-get :
    (g f : ℕ) (bits : List Bool)
    → (f ≢ g → get_or (liberar_frame g bits) f true ≡ get_or bits f true)
      × (f ≡ g → f < length bits → get_or (liberar_frame g bits) f true ≡ false)
      × (length (liberar_frame g bits) ≡ length bits)
unfolding liberar_frame
liberar_frame-get g f bits = (
  (λ ne. ground (arith, get_or-set_ne bits g f false true (λ e. ne (sym e)))),
  (λ e l. ground (arith, get_or-set_self bits g false true (omega arith))),
  ground (arith, length-set bits g false),
)

length-liberar :
    (ps : List Pagina) (bits : List Bool) → length (liberar_paginas ps bits) ≡ length bits
unfolding liberar_paginas
length-liberar [] bits = refl
length-liberar (p ∷ ps) bits = elim (Bool-cases p.presente) [
  | inr no_esta ↦ rw (no_esta, liberar_paginas) (length-liberar ps bits)
  | inl esta ↦ elim (Option-cases p.frame) [
    | inl nada ↦ rw (esta, nada, liberar_paginas) (length-liberar ps bits)
    | inr (g, e) ↦
        rw (esta, e, liberar_paginas)
          ((liberar_frame-get g 0 (liberar_paginas ps bits)).2 ∙ length-liberar ps bits)
  ]
]

-- A frame of none of the pages stays as it is.
liberar-otro :
    (ps : List Pagina) (bits : List Bool) (f : ℕ)
    → ((i : ℕ)
        → (get_or ps i pagina_vacia).presente ≡ true
        → (get_or ps i pagina_vacia).frame ≢ some f)
    → get_or (liberar_paginas ps bits) f true ≡ get_or bits f true
unfolding liberar_paginas
liberar-otro [] bits f h = refl
liberar-otro (p ∷ ps) bits f h =
    let resto = liberar-otro ps bits f (λ i. h (suc i)) in
    elim (Bool-cases p.presente) [
      | inr no_esta ↦ rw (no_esta, liberar_paginas) resto
      | inl esta ↦ elim (Option-cases p.frame) [
        | inl nada ↦ rw (esta, nada, liberar_paginas) resto
        | inr (g, e) ↦
            rw (esta, e, liberar_paginas)
              ((liberar_frame-get g f (liberar_paginas ps bits)).0
                  (λ mismo. h 0 esta (e ∙ ap some (sym mismo)))
                ∙ resto)
      ]
    ]

-- The frame of one of the pages is free.
liberar-libera :
    (ps : List Pagina) (bits : List Bool) (f i : ℕ)
    → (get_or ps i pagina_vacia).presente ≡ true
    → (get_or ps i pagina_vacia).frame ≡ some f
    → f < length bits
    → get_or (liberar_paginas ps bits) f true ≡ false
unfolding liberar_paginas
liberar-libera [] bits f i h e l = cc
liberar-libera (p ∷ ps) bits f zero h e l =
    rw (h, e, liberar_paginas)
      ((liberar_frame-get f f (liberar_paginas ps bits)).1 refl
        (omega (arith, length-liberar ps bits)))
liberar-libera (p ∷ ps) bits f (suc i) h e l =
    let resto = liberar-libera ps bits f i h e l in
    elim (Bool-cases p.presente) [
      | inr no_esta ↦ rw (no_esta, liberar_paginas) resto
      | inl esta ↦ elim (Option-cases p.frame) [
        | inl nada ↦ rw (esta, nada, liberar_paginas) resto
        | inr (g, eg) ↦ elim (ℕ_discrete f g) [
          | yes mismo ↦
              rw (esta, eg, liberar_paginas)
                ((liberar_frame-get g f (liberar_paginas ps bits)).1 mismo
                  (omega (arith, length-liberar ps bits)))
          | no ne ↦
              rw (esta, eg, liberar_paginas)
                ((liberar_frame-get g f (liberar_paginas ps bits)).0 ne ∙ resto)
        ]
      ]
    ]

liberar-true :
    (ps : List Pagina) (bits : List Bool) (f : ℕ)
    → get_or (liberar_paginas ps bits) f true ≡ true
    → f < length bits
    → get_or bits f true ≡ true
unfolding liberar_paginas
liberar-true [] bits f h l = h
liberar-true (p ∷ ps) bits f h l = elim (Bool-cases p.presente) [
  | inr no_esta ↦ liberar-true ps bits f (ground arith) l
  | inl esta ↦ elim (Option-cases p.frame) [
    | inl nada ↦ liberar-true ps bits f (ground arith) l
    | inr (g, e) ↦
        let h1 : get_or (liberar_frame g (liberar_paginas ps bits)) f true ≡ true = ground arith in
        let (otro, mismo, _) = liberar_frame-get g f (liberar_paginas ps bits) in
        elim (ℕ_discrete f g) [
          | yes eq ↦ absurd (cc (sym (mismo eq (omega (arith, length-liberar ps bits))) ∙ h1))
          | no ne ↦ liberar-true ps bits f (sym (otro ne) ∙ h1) l
        ]
  ]
]

-- The pages `ps` are taken from the tables, and nothing else changes.
pub record Recorte (ts us : List Tabla) (ps : List Pagina) : Type 0 where
  pub unicos : Unicos (pids us)
  pub quedan :
      (d : Duenio) → (leer_pagina us d).presente ≡ true → leer_pagina us d ≡ leer_pagina ts d
  pub quitadas :
      (i : ℕ)
      → (get_or ps i pagina_vacia).presente ≡ true
      → (e : Duenio) × (leer_pagina ts e ≡ get_or ps i pagina_vacia)
        × ((leer_pagina us e).presente ≡ false)
  pub todas :
      (d : Duenio)
      → (leer_pagina us d ≡ leer_pagina ts d)
        ⊎ ((i : ℕ) × (get_or ps i pagina_vacia ≡ leer_pagina ts d))

pub Orden-Recorte :
    (ts us : List Tabla) (ps : List Pagina) (bits : List Bool)
    → Recorte ts us ps
    → Orden ts bits
    → Orden us (liberar_paginas ps bits)
Orden-Recorte ts us ps bits r o =
    let antes : (d : Duenio) (f : ℕ) → En us d f → En ts d f = λ d f e.
      let igual = r.quedan d e.presente in
      record {
        presente = ap (λ p. p.presente) (sym igual) ∙ e.presente;
        frame = ap (λ p. p.frame) (sym igual) ∙ e.frame;
      } in
    let largo = length-liberar ps bits in
    record {
      unicos = r.unicos;
      exclusivos = λ d e f x y. o.exclusivos d e f (antes d f x) (antes e f y);
      con_frame = λ d p.
          let igual = r.quedan d p in
          let (f, x) = o.con_frame d (ap (λ p. p.presente) (sym igual) ∙ p) in
          (f, record { presente = p; frame = ap (λ p. p.frame) igual ∙ x.frame });
      tomados = λ d f e.
          let (l, t) = o.tomados d f (antes d f e) in
          (
            omega arith,
            liberar-otro ps bits f (λ i p ef.
                  let (x, igual, falta) = r.quitadas i p in
                  let xd =
                    o.exclusivos x d f
                      (record {
                        presente = ap (λ q. q.presente) igual ∙ p;
                        frame = ap (λ q. q.frame) igual ∙ ef;
                      })
                      (antes d f e) in
                  absurd (
                    cc (
                      sym (subst (λ z. (leer_pagina us z).presente ≡ false) xd falta)
                      ∙ e.presente)))
                ∙ t,
          );
      con_duenio = λ f l t.
          let lf : f < length bits = omega arith in
          let (d, e) = o.con_duenio f lf (liberar-true ps bits f t lf) in
          elim (r.todas d) [
            | inl igual ↦ (
              d,
              record {
                presente = ap (λ p. p.presente) igual ∙ e.presente;
                frame = ap (λ p. p.frame) igual ∙ e.frame;
              },
            )
            | inr (i, igual) ↦ absurd (
                cc (
                  sym t
                  ∙ liberar-libera ps bits f i (ap (λ p. p.presente) igual ∙ e.presente)
                      (ap (λ p. p.frame) igual ∙ e.frame) lf))
          ];
    }
