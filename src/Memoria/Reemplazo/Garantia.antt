-- ===== src/Memoria/Reemplazo/Garantia.antt =====
-- elegir_victima_clock: the table of owners, and the victim.
use recursos_so.Prelude.{
  ℕ, suc, ◌*◌, ◌<◌, ◌≡◌, inl, inr, refl, sym, ap, ◌∙◌, Bool, true, false, List, [], ◌∷◌, ◌++◌,
  Option, none, some, leb, if◌then◌else◌, length, get_or, replicate, arith, Option-cases,
  length-set, length-replicate, get_or-set_self, get_or-set_ne, ◌==◌, ℕ_discrete, subst,
}
use recursos_so.Memoria.Reemplazo.{
  Pagina, Tabla, Duenio, anotar, anotar_tabla, duenios, Reloj, barrer, elegir_victima_clock,
}
use recursos_so.Memoria.Reemplazo.Barrido.{Encontrada, llega_dos_vueltas}

abbrev con_duenio : Option Duenio → Bool
con_duenio none = false
con_duenio (some d) = true

abbrev tiene_duenio : List (Option Duenio) → ℕ → Bool
tiene_duenio owners f = con_duenio (get_or owners f none)

length-anotar :
    (pid nro : ℕ) (pag : Pagina) (owners : List (Option Duenio))
    → length (anotar pid nro pag owners) ≡ length owners
unfolding anotar
length-anotar pid nro pag owners = elim (Option-cases pag.frame) [
  | inl e ↦ ground arith
  | inr (f, e) ↦ ground (arith, length-set owners f (some (record { pid = pid; nro_pagina = nro })))
]

length-anotar_tabla :
    (pid nro : ℕ) (ps : List Pagina) (owners : List (Option Duenio))
    → length (anotar_tabla pid nro ps owners) ≡ length owners
unfolding anotar_tabla
length-anotar_tabla pid nro [] owners = refl
length-anotar_tabla pid nro (p ∷ ps) owners =
    length-anotar_tabla pid (suc nro) ps (anotar pid nro p owners) ∙ length-anotar pid nro p owners

length-duenios :
    (ts : List Tabla) (owners : List (Option Duenio)) → length (duenios ts owners) ≡ length owners
unfolding duenios
length-duenios [] owners = refl
length-duenios (t ∷ ts) owners =
    length-duenios ts (anotar_tabla t.pid 0 t.paginas owners)
    ∙ length-anotar_tabla t.pid 0 t.paginas owners

-- A slot that has an owner keeps one.
anotar-tiene :
    (pid nro : ℕ) (pag : Pagina) (owners : List (Option Duenio)) (f : ℕ)
    → tiene_duenio owners f ≡ true
    → tiene_duenio (anotar pid nro pag owners) f ≡ true
unfolding anotar
anotar-tiene pid nro pag owners f h = elim (Option-cases pag.frame) [
  | inl e ↦ ground arith
  | inr (g, e) ↦ elim (ℕ_discrete g f) [
    | yes same ↦
        ground
          (arith, get_or-set_self owners g (some (record { pid = pid; nro_pagina = nro })) none)
    | no ne ↦
        ground
          (arith, get_or-set_ne owners g f (some (record { pid = pid; nro_pagina = nro })) none ne)
  ]
]

anotar_tabla-tiene :
    (pid nro : ℕ) (ps : List Pagina) (owners : List (Option Duenio)) (f : ℕ)
    → tiene_duenio owners f ≡ true
    → tiene_duenio (anotar_tabla pid nro ps owners) f ≡ true
unfolding anotar_tabla
anotar_tabla-tiene pid nro [] owners f h = h
anotar_tabla-tiene pid nro (p ∷ ps) owners f h =
    anotar_tabla-tiene pid (suc nro) ps (anotar pid nro p owners) f
      (anotar-tiene pid nro p owners f h)

duenios-tiene :
    (ts : List Tabla) (owners : List (Option Duenio)) (f : ℕ)
    → tiene_duenio owners f ≡ true
    → tiene_duenio (duenios ts owners) f ≡ true
unfolding duenios
duenios-tiene [] owners f h = h
duenios-tiene (t ∷ ts) owners f h =
    duenios-tiene ts (anotar_tabla t.pid 0 t.paginas owners) f
      (anotar_tabla-tiene t.pid 0 t.paginas owners f h)

-- The page is in that frame.
abbrev pub EnFrame : Pagina → ℕ → Type 0
EnFrame pag f = (pag.presente ≡ true) × (pag.frame ≡ some f)

anotar-propio :
    (pid nro : ℕ) (pag : Pagina) (owners : List (Option Duenio)) (f : ℕ)
    → EnFrame pag f
    → f < length owners
    → tiene_duenio (anotar pid nro pag owners) f ≡ true
unfolding anotar
anotar-propio pid nro pag owners f (p, e) l =
    ground (arith, get_or-set_self owners f (some (record { pid = pid; nro_pagina = nro })) none l)

anotar_tabla-propio :
    (pid nro : ℕ) (ps qs : List Pagina) (pag : Pagina) (owners : List (Option Duenio)) (f : ℕ)
    → EnFrame pag f
    → f < length owners
    → tiene_duenio (anotar_tabla pid nro (ps ++ pag ∷ qs) owners) f ≡ true
unfolding anotar_tabla
anotar_tabla-propio pid nro [] qs pag owners f e l =
    anotar_tabla-tiene pid (suc nro) qs (anotar pid nro pag owners) f
      (anotar-propio pid nro pag owners f e l)
anotar_tabla-propio pid nro (p ∷ ps) qs pag owners f e l =
    anotar_tabla-propio pid (suc nro) ps qs pag (anotar pid nro p owners) f e
      (omega (arith, length-anotar pid nro p owners))

duenios-propio :
    (ts us : List Tabla) (t : Tabla) (ps qs : List Pagina) (pag : Pagina)
    (owners : List (Option Duenio)) (f : ℕ)
    → t.paginas ≡ ps ++ pag ∷ qs
    → EnFrame pag f
    → f < length owners
    → tiene_duenio (duenios (ts ++ t ∷ us) owners) f ≡ true
unfolding duenios
duenios-propio [] us t ps qs pag owners f h e l =
    duenios-tiene us (anotar_tabla t.pid 0 t.paginas owners) f
      (rw h (anotar_tabla-propio t.pid 0 ps qs pag owners f e l))
duenios-propio (x ∷ ts) us t ps qs pag owners f h e l =
    duenios-propio ts us t ps qs pag (anotar_tabla x.pid 0 x.paginas owners) f h e
      (omega (arith, length-anotar_tabla x.pid 0 x.paginas owners))

no_cero : (n f : ℕ) → f < n → (n == 0) ≡ false
no_cero n f l = ground arith

-- If some page of some process is present in a frame below the number of frames, the clock gives a
-- victim within its two turns: a page whose use bit is then clear, with the frame that this page is
-- in; and the hand stays inside the frames.
pub elegir_victima_clock-Encontrada :
    (total f : ℕ) (r : Reloj) (ts us : List Tabla) (t : Tabla) (ps qs : List Pagina) (pag : Pagina)
    → r.tablas ≡ ts ++ t ∷ us
    → t.paginas ≡ ps ++ pag ∷ qs
    → EnFrame pag f
    → f < total
    → Encontrada total (elegir_victima_clock total r)
unfolding elegir_victima_clock
elegir_victima_clock-Encontrada total f r ts us t ps qs pag ht hp e l =
    let vacios = replicate {A = Option Duenio} total none in
    let owners = duenios r.tablas vacios in
    let r1 = record r { clock_hand = if leb total r.clock_hand then 0 else r.clock_hand } in
    let largo : length owners ≡ total =
      length-duenios r.tablas vacios ∙ length-replicate total none in
    let hay : tiene_duenio owners f ≡ true = rw ht (
      duenios-propio ts us t ps qs pag vacios f hp e
        (omega (arith, length-replicate {A = Option Duenio} total none))) in
    elim (Option-cases (get_or owners f none)) [
      | inl nada ↦ absurd (cc (sym (ap con_duenio nada) ∙ hay))
      | inr (d, es) ↦
          let res =
            llega_dos_vueltas owners f d es (total * 2) r1 (ground arith) (omega arith)
              (omega arith) in
          rw (no_cero total f l)
            (subst (λ n. Encontrada n (barrer owners (total * 2) r1)) largo res)
    ]
