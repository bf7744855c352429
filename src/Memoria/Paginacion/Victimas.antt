-- ===== src/Memoria/Paginacion/Victimas.antt =====
-- The table of owners of reemplazo.c on page tables that belong to different processes: each owner is a
-- page that is present in that frame.
use recursos_so.Prelude.{
  ℕ, zero, suc, ◌+◌, ◌≡◌, ◌≢◌, inl, inr, refl, sym, ap, ◌∙◌, subst, true, false, List, [], ◌∷◌,
  Option, none, some, ltb, length, get_or, set, All, replicate, arith, Bool-cases, Option-cases,
  length-set, get_or-set_self, get_or-set_ne, ℕ_discrete,
}
use recursos_so.Memoria.Reemplazo.{
  Pagina, Tabla, Duenio, pagina_vacia, leer_pagina, limpiar_uso, anotar, anotar_tabla, duenios,
}
use recursos_so.Memoria.Paginacion.Tablas.{duenio, largo, pids}

-- No two tables are of the same process.
abbrev pub Unicos : List ℕ → Type 0
Unicos [] = Unit
Unicos (p ∷ ps) = All (λ q. q ≢ p) ps × Unicos ps

-- The page is present in the frame.
pub record En (ts : List Tabla) (d : Duenio) (f : ℕ) : Type 0 where
  pub presente : (leer_pagina ts d).presente ≡ true
  pub frame : (leer_pagina ts d).frame ≡ some f

-- The same pages are present in the same frames.
pub record Mismas (ts us : List Tabla) : Type 0 where
  pub pids : pids us ≡ pids ts
  pub largo : (pid : ℕ) → largo us pid ≡ largo ts pid
  pub presente : (d : Duenio) → (leer_pagina us d).presente ≡ (leer_pagina ts d).presente
  pub frame : (d : Duenio) → (leer_pagina us d).frame ≡ (leer_pagina ts d).frame

pub Mismas-refl : (ts : List Tabla) → Mismas ts ts
Mismas-refl ts = record { pids = refl; largo = λ p. refl; presente = λ d. refl; frame = λ d. refl }

pub Mismas-trans : (ts us vs : List Tabla) → Mismas ts us → Mismas us vs → Mismas ts vs
Mismas-trans ts us vs a b = record {
  pids = b.pids ∙ a.pids;
  largo = λ p. b.largo p ∙ a.largo p;
  presente = λ d. b.presente d ∙ a.presente d;
  frame = λ d. b.frame d ∙ a.frame d;
}

get_or-uso :
    (ps : List Pagina) (i j : ℕ)
    → let qs = set ps i (record (get_or ps i pagina_vacia) { uso = false }) in
      ((get_or qs j pagina_vacia).presente ≡ (get_or ps j pagina_vacia).presente)
      × ((get_or qs j pagina_vacia).frame ≡ (get_or ps j pagina_vacia).frame)
get_or-uso [] i j = (refl, refl)
get_or-uso (p ∷ ps) zero zero = (refl, refl)
get_or-uso (p ∷ ps) zero (suc j) = (refl, refl)
get_or-uso (p ∷ ps) (suc i) zero = (refl, refl)
get_or-uso (p ∷ ps) (suc i) (suc j) = get_or-uso ps i j

limpiar_uso-pids : (ts : List Tabla) (d : Duenio) → pids (limpiar_uso ts d) ≡ pids ts
unfolding limpiar_uso
limpiar_uso-pids [] d = refl
limpiar_uso-pids (t ∷ ts) d = ground (arith, limpiar_uso-pids ts d)

limpiar_uso-largo :
    (ts : List Tabla) (d : Duenio) (pid : ℕ) → largo (limpiar_uso ts d) pid ≡ largo ts pid
unfolding limpiar_uso largo
limpiar_uso-largo [] d pid = refl
limpiar_uso-largo (t ∷ ts) d pid = ground (
  arith,
  length-set t.paginas d.nro_pagina
      (record (get_or t.paginas d.nro_pagina pagina_vacia) { uso = false }),
  limpiar_uso-largo ts d pid,
)

limpiar_uso-pagina :
    (ts : List Tabla) (d e : Duenio)
    → ((leer_pagina (limpiar_uso ts d) e).presente ≡ (leer_pagina ts e).presente)
      × ((leer_pagina (limpiar_uso ts d) e).frame ≡ (leer_pagina ts e).frame)
unfolding limpiar_uso leer_pagina
limpiar_uso-pagina [] d e = (refl, refl)
limpiar_uso-pagina (t ∷ ts) d e =
    let (p, f) = get_or-uso t.paginas d.nro_pagina e.nro_pagina in
    let (p', f') = limpiar_uso-pagina ts d e in (ground arith, ground arith)

pub limpiar_uso-Mismas : (ts : List Tabla) (d : Duenio) → Mismas ts (limpiar_uso ts d)
limpiar_uso-Mismas ts d = record {
  pids = limpiar_uso-pids ts d;
  largo = limpiar_uso-largo ts d;
  presente = λ e. (limpiar_uso-pagina ts d e).0;
  frame = λ e. (limpiar_uso-pagina ts d e).1;
}

-- Each slot of the table of owners leads to a page that is present in that frame.
abbrev pub Ciertos : List Tabla → List (Option Duenio) → Type 0
Ciertos ts owners = (f : ℕ) (d : Duenio) → get_or owners f none ≡ some d → En ts d f

anotar-Ciertos :
    (ts : List Tabla) (pid nro : ℕ) (pag : Pagina) (owners : List (Option Duenio))
    → leer_pagina ts (duenio pid nro) ≡ pag
    → Ciertos ts owners
    → Ciertos ts (anotar pid nro pag owners)
unfolding anotar
anotar-Ciertos ts pid nro pag owners e c f d h = elim (Option-cases pag.frame) [
  | inl nada ↦ c f d (ground arith)
  | inr (g, en) ↦ elim (Bool-cases pag.presente) [
    | inr no_esta ↦ c f d (ground arith)
    | inl esta ↦ elim (Bool-cases (ltb g (length owners))) [
      | inr fuera ↦ c f d (ground arith)
      | inl dentro ↦ elim (ℕ_discrete g f) [
        | no ne ↦ c f d (ground (arith, get_or-set_ne owners g f (some (duenio pid nro)) none ne))
        | yes mismo ↦
            let propio = get_or-set_self owners g (some (duenio pid nro)) none (ground arith) in
            let s : ◌≡◌ {A = Option Duenio} (some (duenio pid nro)) (some d) = ground arith in
            let ed : duenio pid nro ≡ d = cc in
            subst (λ x. En ts x f) ed
              (record {
                presente = ap (λ p. p.presente) e ∙ esta;
                frame = ap (λ p. p.frame) e ∙ en ∙ ap some mismo;
              })
      ]
    ]
  ]
]

anotar_tabla-Ciertos :
    (ts : List Tabla) (pid nro : ℕ) (ps : List Pagina) (owners : List (Option Duenio))
    → ((i : ℕ) → leer_pagina ts (duenio pid (nro + i)) ≡ get_or ps i pagina_vacia)
    → Ciertos ts owners
    → Ciertos ts (anotar_tabla pid nro ps owners)
unfolding anotar_tabla
anotar_tabla-Ciertos ts pid nro [] owners v c = c
anotar_tabla-Ciertos ts pid nro (p ∷ ps) owners v c =
    anotar_tabla-Ciertos ts pid (suc nro) ps (anotar pid nro p owners)
      (λ i.
        subst (λ n. leer_pagina ts (duenio pid n) ≡ get_or ps i pagina_vacia) (omega arith)
          (v (suc i)))
      (anotar-Ciertos ts pid nro p owners
        (subst (λ n. leer_pagina ts (duenio pid n) ≡ p) (omega arith) (v 0)) c)

-- The table is the one that a pointer into its process leads to.
abbrev Vista : List Tabla → Tabla → Type 0
Vista ts t = (i : ℕ) → leer_pagina ts (duenio t.pid i) ≡ get_or t.paginas i pagina_vacia

pub duenios-Ciertos :
    (ts us : List Tabla) (owners : List (Option Duenio))
    → All (Vista ts) us
    → Ciertos ts owners
    → Ciertos ts (duenios us owners)
unfolding duenios
duenios-Ciertos ts [] owners v c = c
duenios-Ciertos ts (u ∷ us) owners (v, vs) c =
    duenios-Ciertos ts us (anotar_tabla u.pid 0 u.paginas owners) vs (
      anotar_tabla-Ciertos ts u.pid 0 u.paginas owners
        (λ i.
          subst (λ n. leer_pagina ts (duenio u.pid n) ≡ get_or u.paginas i pagina_vacia)
            (omega arith) (v i))
        c)

-- A table in front, of another process, hides none.
Vista-cons :
    (t : Tabla) (ts us : List Tabla)
    → All (λ q. q ≢ t.pid) (pids us)
    → All (Vista ts) us
    → All (Vista (t ∷ ts)) us
unfolding leer_pagina
Vista-cons t ts [] a v = tt
Vista-cons t ts (u ∷ us) (ne, a) (v, vs) = ((λ i. ground (arith, v i)), Vista-cons t ts us a vs)

pub todas-Vista : (ts : List Tabla) → Unicos (pids ts) → All (Vista ts) ts
unfolding leer_pagina
todas-Vista [] u = tt
todas-Vista (t ∷ ts) (a, u) = ((λ i. ground arith), Vista-cons t ts ts a (todas-Vista ts u))

get_or-vacios : (n f : ℕ) → get_or (replicate {A = Option Duenio} n none) f none ≡ none
get_or-vacios zero f = refl
get_or-vacios (suc n) zero = refl
get_or-vacios (suc n) (suc f) = get_or-vacios n f

pub vacios-Ciertos : (ts : List Tabla) (n : ℕ) → Ciertos ts (replicate n none)
vacios-Ciertos ts n f d h = cc (sym (get_or-vacios n f) ∙ h)
