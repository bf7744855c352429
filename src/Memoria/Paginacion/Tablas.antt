-- ===== src/Memoria/Paginacion/Tablas.antt =====
-- The page tables as cells that are read and written.
use recursos_so.Prelude.{
  ℕ, zero, suc, ◌<◌, ◌≡◌, ◌≢◌, ◌⊎◌, inl, inr, refl, ap, true, List, [], ◌∷◌, none, some,
  if◌then◌else◌, ◌==◌, length, get_or, arith, Bool-cases, length-set, get_or-set_self,
  get_or-set_ne, ℕ_discrete,
}
use recursos_so.Memoria.Reemplazo.{Pagina, Tabla, Duenio, pagina_vacia, leer_pagina}
use recursos_so.Memoria.Paginacion.{tabla_de, cambiar_tabla, escribir_pagina}

abbrev pub duenio : ℕ → ℕ → Duenio
duenio pid nro = record { pid = pid; nro_pagina = nro }

-- The number of pages of a process.
unfoldable pub largo : List Tabla → ℕ → ℕ
largo [] pid = 0
largo (t ∷ ts) pid = if t.pid == pid then length t.paginas else largo ts pid

abbrev pub pids : List Tabla → List ℕ
pids [] = []
pids (t ∷ ts) = t.pid ∷ pids ts

-- Two pages differ in the process or in the number.
abbrev pub Distintos : Duenio → Duenio → Type 0
Distintos d e = (d.pid ≢ e.pid) ⊎ (d.nro_pagina ≢ e.nro_pagina)

pub Duenio-cases : (d e : Duenio) → (d ≡ e) ⊎ Distintos d e
Duenio-cases d e = elim (ℕ_discrete d.pid e.pid) [
  | no ne ↦ inr (inl ne)
  | yes p ↦ elim (ℕ_discrete d.nro_pagina e.nro_pagina) [
    | no ne ↦ inr (inr ne)
    | yes q ↦ inl (λ i. record { pid = p i; nro_pagina = q i })
  ]
]

-- A page out of the table is not present.
pub get_or-presente :
    (ps : List Pagina) (n : ℕ) → (get_or ps n pagina_vacia).presente ≡ true → n < length ps
get_or-presente [] n h = cc
get_or-presente (p ∷ ps) zero h = omega arith
get_or-presente (p ∷ ps) (suc n) h = omega (arith, get_or-presente ps n h)

pub leer_pagina-largo :
    (ts : List Tabla) (d : Duenio)
    → (leer_pagina ts d).presente ≡ true
    → d.nro_pagina < largo ts d.pid
unfolding leer_pagina largo
leer_pagina-largo [] d h = cc
leer_pagina-largo (t ∷ ts) d h = elim (Bool-cases (t.pid == d.pid)) [
  | inl si ↦
      let h1 : (get_or t.paginas d.nro_pagina pagina_vacia).presente ≡ true = ground arith in
      ground (arith, get_or-presente t.paginas d.nro_pagina h1)
  | inr distinto ↦
      let h1 : (leer_pagina ts d).presente ≡ true = ground arith in
      ground (arith, leer_pagina-largo ts d h1)
]

pub tabla_de-largo :
    (ts : List Tabla) (pid : ℕ) (ps : List Pagina)
    → tabla_de ts pid ≡ some ps
    → largo ts pid ≡ length ps
unfolding tabla_de largo
tabla_de-largo [] pid ps h = cc
tabla_de-largo (t ∷ ts) pid ps h = elim (Bool-cases (t.pid == pid)) [
  | inl si ↦ let e : t.paginas ≡ ps = ground arith in ground (arith, ap length e)
  | inr distinto ↦ ground (arith, tabla_de-largo ts pid ps (ground arith))
]

pub tabla_de-leer :
    (ts : List Tabla) (d : Duenio) (ps : List Pagina)
    → tabla_de ts d.pid ≡ some ps
    → leer_pagina ts d ≡ get_or ps d.nro_pagina pagina_vacia
unfolding tabla_de leer_pagina
tabla_de-leer [] d ps h = cc
tabla_de-leer (t ∷ ts) d ps h = elim (Bool-cases (t.pid == d.pid)) [
  | inl si ↦
      let e : t.paginas ≡ ps = ground arith in
      rw si (ap (λ l. get_or l d.nro_pagina pagina_vacia) e)
  | inr distinto ↦ rw distinto (tabla_de-leer ts d ps (ground arith))
]

pub tabla_de-none :
    (ts : List Tabla) (d : Duenio) → tabla_de ts d.pid ≡ none → leer_pagina ts d ≡ pagina_vacia
unfolding tabla_de leer_pagina
tabla_de-none [] d h = refl
tabla_de-none (t ∷ ts) d h = elim (Bool-cases (t.pid == d.pid)) [
  | inl si ↦ ground arith
  | inr distinto ↦ rw distinto (tabla_de-none ts d (ground arith))
]

pub tabla_de-hay :
    (ts : List Tabla) (pid n : ℕ)
    → n < largo ts pid
    → (ps : List Pagina) × (tabla_de ts pid ≡ some ps)
unfolding tabla_de largo
tabla_de-hay [] pid n l = elim l [ ]
tabla_de-hay (t ∷ ts) pid n l = elim (Bool-cases (t.pid == pid)) [
  | inl si ↦ (t.paginas, rw si refl)
  | inr distinto ↦ let (ps, e) = tabla_de-hay ts pid n (ground arith) in (ps, rw distinto e)
]

-- A write is read back, and no other page changes.
pub leer-escribir_mismo :
    (ts : List Tabla) (d : Duenio) (p : Pagina)
    → d.nro_pagina < largo ts d.pid
    → leer_pagina (escribir_pagina ts d p) d ≡ p
unfolding leer_pagina escribir_pagina largo
leer-escribir_mismo [] d p l = elim l [ ]
leer-escribir_mismo (t ∷ ts) d p l = elim (Bool-cases (t.pid == d.pid)) [
  | inl si ↦ rw (si, si) (get_or-set_self t.paginas d.nro_pagina p pagina_vacia (ground arith))
  | inr distinto ↦ rw (distinto, distinto) (leer-escribir_mismo ts d p (ground arith))
]

pub leer-escribir_otro :
    (ts : List Tabla) (d e : Duenio) (p : Pagina)
    → Distintos d e
    → leer_pagina (escribir_pagina ts d p) e ≡ leer_pagina ts e
unfolding leer_pagina escribir_pagina
leer-escribir_otro [] d e p ne = refl
leer-escribir_otro (t ∷ ts) d e p ne = elim (Bool-cases (t.pid == d.pid)) [
  | inl si ↦ elim ne [
    | inl otro ↦ ground arith
    | inr otra ↦
        ground (arith, get_or-set_ne t.paginas d.nro_pagina e.nro_pagina p pagina_vacia otra)
  ]
  | inr distinto ↦ ground (arith, leer-escribir_otro ts d e p ne)
]

pub largo-escribir :
    (ts : List Tabla) (d : Duenio) (p : Pagina) (pid : ℕ)
    → largo (escribir_pagina ts d p) pid ≡ largo ts pid
unfolding largo escribir_pagina
largo-escribir [] d p pid = refl
largo-escribir (t ∷ ts) d p pid =
    ground (arith, length-set t.paginas d.nro_pagina p, largo-escribir ts d p pid)

pub pids-escribir :
    (ts : List Tabla) (d : Duenio) (p : Pagina) → pids (escribir_pagina ts d p) ≡ pids ts
unfolding escribir_pagina
pids-escribir [] d p = refl
pids-escribir (t ∷ ts) d p = ground (arith, pids-escribir ts d p)

-- The table of one process is another one.
pub leer-cambiar_propio :
    (ts : List Tabla) (d : Duenio) (ps qs : List Pagina)
    → tabla_de ts d.pid ≡ some ps
    → leer_pagina (cambiar_tabla ts d.pid qs) d ≡ get_or qs d.nro_pagina pagina_vacia
unfolding leer_pagina cambiar_tabla tabla_de
leer-cambiar_propio [] d ps qs h = cc
leer-cambiar_propio (t ∷ ts) d ps qs h = elim (Bool-cases (t.pid == d.pid)) [
  | inl si ↦ ground arith
  | inr distinto ↦ ground (arith, leer-cambiar_propio ts d ps qs (ground arith))
]

pub leer-cambiar_otro :
    (ts : List Tabla) (d : Duenio) (pid : ℕ) (qs : List Pagina)
    → d.pid ≢ pid
    → leer_pagina (cambiar_tabla ts pid qs) d ≡ leer_pagina ts d
unfolding leer_pagina cambiar_tabla
leer-cambiar_otro [] d pid qs ne = refl
leer-cambiar_otro (t ∷ ts) d pid qs ne = ground (arith, leer-cambiar_otro ts d pid qs ne)

pub pids-cambiar :
    (ts : List Tabla) (pid : ℕ) (qs : List Pagina) → pids (cambiar_tabla ts pid qs) ≡ pids ts
unfolding cambiar_tabla
pids-cambiar [] pid qs = refl
pids-cambiar (t ∷ ts) pid qs = ground (arith, pids-cambiar ts pid qs)
