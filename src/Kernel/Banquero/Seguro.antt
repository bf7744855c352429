-- ===== src/Kernel/Banquero/Seguro.antt =====
-- What a safe state is, said of the PCBs and the resources, without the matrices of banquero.c.
use recursos_so.Prelude.{
  ℕ, ◌+◌, ◌<◌, ◌≡◌, ◌≢◌, Bool, true, false, List, [], ◌∷◌, String, str_eq, if◌then◌else◌, length,
  get_or, set, All, Alguno,
}
use recursos_so.Kernel.{Estado, Recurso, Kernel}
use recursos_so.Kernel.Banquero.{activos}

-- The process is blocked, and in the queue of the resource.
abbrev pub Pide : Kernel → ℕ → Recurso → Type 0
Pide k p r =
    ((k.pcbs p).estado ≡ Estado.block)
    × Alguno (λ b. (k.pcbs b).pid ≡ (k.pcbs p).pid) r.cola_bloqueados

-- How often the name is in the list.
unfoldable pub cuantas : String → List String → ℕ
cuantas nombre [] = 0
cuantas nombre (x ∷ xs) = (if str_eq x nombre then 1 else 0) + cuantas nombre xs

-- With `libre` instances of each resource, the active processes that are left can end one after the other:
-- the next one is one that asks only for resources with a free instance, and then all that it holds is
-- free.
pub data PuedenTerminar (k : Kernel) : (Recurso → ℕ) → List Bool → Type 0 where
  todos :
      {libre : Recurso → ℕ} {terminado : List Bool}
      → ((i : ℕ) → i < length terminado → get_or terminado i true ≡ true)
      → PuedenTerminar k libre terminado
  uno :
      {libre : Recurso → ℕ} {terminado : List Bool} (i : ℕ)
      → get_or terminado i true ≡ false
      → All (λ r. Pide k (get_or (activos k) i 0) r → 0 < libre r) k.recursos
      → PuedenTerminar k
          (λ r. libre r + cuantas r.nombre (k.pcbs (get_or (activos k) i 0)).recursos_adquiridos)
          (set terminado i true)
      → PuedenTerminar k libre terminado

-- The names are the keys of a dictionary: no two are equal.
abbrev pub Distintos : List Recurso → Type 0
Distintos [] = Unit
Distintos (r ∷ rs) = All (λ r'. r'.nombre ≢ r.nombre) rs × Distintos rs
