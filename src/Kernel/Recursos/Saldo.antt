-- ===== src/Kernel/Recursos/Saldo.antt =====
-- How many instances of a resource exist: those that are free, and those that processes hold.
use recursos_so.Prelude.{
  ℕ, ◌+◌, ◌*◌, ◌-◌, ◌≡◌, List, [], ◌∷◌, ◌++◌, Option, none, some, String, str_eq, str_eq_iff, arith,
  ◌==◌, if◌then◌else◌, inl, inr, Bool-cases,
}
use recursos_so.Kernel.{Pcb, Recurso, Kernel, escribir_pcb}
use recursos_so.Kernel.Colas.{cuantos}
use recursos_so.Kernel.Recursos.{buscar, poner, quitar}
use recursos_so.Kernel.Recursos.Diccionario.{buscar-poner}

-- How often a name occurs in a list of names.
unfoldable pub veces : String → List String → ℕ
veces nombre [] = 0
veces nombre (x ∷ xs) = (if str_eq x nombre then 1 else 0) + veces nombre xs

-- What the processes `ps` hold of a resource.
unfoldable pub tenencias : String → (ℕ → Pcb) → List ℕ → ℕ
unfolding veces
tenencias nombre h [] = 0
tenencias nombre h (p ∷ ps) = veces nombre (h p).recursos_adquiridos + tenencias nombre h ps

abbrev pub libres_en : Option Recurso → ℕ
libres_en none = 0
libres_en (some r) = r.instancias

-- What is free of a resource.
unfoldable pub libres : String → List Recurso → ℕ
libres nombre rs = libres_en (buscar nombre rs)

-- The free instances and the held ones together.
abbrev pub saldo : String → Kernel → List ℕ → ℕ
saldo nombre k ps = libres nombre k.recursos + tenencias nombre k.pcbs ps

-- A store into a PCB counts once for each time the pointer is listed.
pub tenencias-escribir :
    (nombre : String) (h : ℕ → Pcb) (p : ℕ) (v : Pcb) (ps : List ℕ)
    → tenencias nombre (escribir_pcb h p v) ps
        + cuantos p ps * veces nombre (h p).recursos_adquiridos
      ≡ tenencias nombre h ps + cuantos p ps * veces nombre v.recursos_adquiridos
unfolding tenencias cuantos
tenencias-escribir nombre h p v [] = omega arith
tenencias-escribir nombre h p v (q ∷ qs) = elim (Bool-cases (p == q)) [
  | inl e ↦
      let e' : p ≡ q = ground arith in
      rw e (rw (← e') (omega (arith, tenencias-escribir nombre h p v qs)))
  | inr e ↦ rw e (omega (arith, tenencias-escribir nombre h p v qs))
]

pub veces-append :
    (nombre : String) (xs ys : List String)
    → veces nombre (xs ++ ys) ≡ veces nombre xs + veces nombre ys
unfolding veces
veces-append nombre [] ys = omega arith
veces-append nombre (x ∷ xs) ys = omega (arith, veces-append nombre xs ys)

-- `quitar` takes one occurrence, if there is one, and touches no other name.
pub veces-quitar :
    (n nombre : String) (xs : List String)
    → veces n (quitar nombre xs) ≡ veces n xs - (if str_eq nombre n then 1 else 0)
unfolding veces quitar
veces-quitar n nombre [] = omega arith
veces-quitar n nombre (x ∷ xs) =
    ground
      (arith, str_eq_iff x nombre, str_eq_iff x n, str_eq_iff nombre n, veces-quitar n nombre xs)

pub libres-poner :
    (n : String) (v r : Recurso) (rs : List Recurso)
    → buscar v.nombre rs ≡ some r
    → libres n (poner v rs) ≡ (if str_eq v.nombre n then v.instancias else libres n rs)
unfolding libres
libres-poner n v r rs h = ground (arith, buscar-poner n v r rs)
