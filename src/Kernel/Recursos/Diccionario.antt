-- ===== src/Kernel/Recursos/Diccionario.antt =====
-- The dictionary of resources: a store through the pointer that a look-up gave.
use recursos_so.Prelude.{
  ◌+◌, ◌≡◌, sym, List, [], ◌∷◌, some, String, str_eq, str_eq_iff, arith, length, if◌then◌else◌, All,
  Bool-cases, inl, inr, subst,
}
use recursos_so.Kernel.{Recurso}
use recursos_so.Kernel.Recursos.{buscar, poner, en_espera}

pub nombre-buscar :
    (nombre : String) (rs : List Recurso) (r : Recurso)
    → buscar nombre rs ≡ some r
    → r.nombre ≡ nombre
unfolding buscar
nombre-buscar nombre [] r h = cc
nombre-buscar nombre (x ∷ rs) r h =
    ground (arith, str_eq_iff x.nombre nombre, nombre-buscar nombre rs r)

-- After the store the name leads to the new value, and every other name to what it led to.
pub buscar-poner :
    (nombre : String) (v r : Recurso) (rs : List Recurso)
    → buscar v.nombre rs ≡ some r
    → buscar nombre (poner v rs) ≡ (if str_eq v.nombre nombre then some v else buscar nombre rs)
unfolding buscar poner
buscar-poner nombre v r [] h = cc
buscar-poner nombre v r (x ∷ rs) h = ground (
  arith,
  str_eq_iff x.nombre v.nombre,
  str_eq_iff x.nombre nombre,
  str_eq_iff v.nombre nombre,
  buscar-poner nombre v r rs,
)

pub en_espera-poner :
    (v r : Recurso) (rs : List Recurso)
    → buscar v.nombre rs ≡ some r
    → en_espera (poner v rs) + length r.cola_bloqueados ≡ en_espera rs + length v.cola_bloqueados
unfolding buscar poner en_espera
en_espera-poner v r [] h = cc
en_espera-poner v r (x ∷ rs) h =
    ground (arith, str_eq_iff x.nombre v.nombre, en_espera-poner v r rs)

pub All-buscar :
    (P : Recurso → Type 0) (nombre : String) (rs : List Recurso) (r : Recurso)
    → All P rs
    → buscar nombre rs ≡ some r
    → P r
unfolding buscar
All-buscar P nombre [] r a h = cc
All-buscar P nombre (x ∷ rs) r a h = elim (Bool-cases (str_eq x.nombre nombre)) [
  | inl e ↦ let h' : some x ≡ some r = rw e at h in let e' : x ≡ r = cc in subst P e' a.0
  | inr e ↦ All-buscar P nombre rs r a.1 (rw e at h)
]

pub All-poner :
    (P : Recurso → Type 0) (v : Recurso) (rs : List Recurso) → All P rs → P v → All P (poner v rs)
unfolding poner
All-poner P v [] a h = tt
All-poner P v (x ∷ rs) a h = elim (Bool-cases (str_eq x.nombre v.nombre)) [
  | inl e ↦ rw e (h, a.1)
  | inr e ↦ rw e (a.0, All-poner P v rs a.1 h)
]

pub buscar_propio :
    (nombre : String) (rs : List Recurso) (r : Recurso)
    → buscar nombre rs ≡ some r
    → buscar r.nombre rs ≡ some r
buscar_propio nombre rs r h =
    subst (λ x. buscar x rs ≡ some r) (sym (nombre-buscar nombre rs r h)) h
