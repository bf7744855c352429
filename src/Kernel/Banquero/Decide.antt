-- ===== src/Kernel/Banquero/Decide.antt =====
-- banquero_estado_seguro over the state of the kernel.
use recursos_so.Prelude.{
  ℕ, zero, suc, ◌≡◌, ◌↔◌, refl, inl, inr, Bool, true, false, List, [], ◌∷◌, map, some, arith,
  length, get_or, set, replicate, Bool-cases, ◌==◌, if◌then◌else◌,
}
use recursos_so.Kernel.{Pcb, Recurso, Kernel}
use recursos_so.Kernel.Banquero.{
  puede, fila_necesidad, es_block, activos, disponibles, asignados, necesidades,
  banquero_estado_seguro,
}
use recursos_so.Kernel.Banquero.Segura.{Segura, fin, termina}
use recursos_so.Kernel.Banquero.Rondas.{pendientes, pendientes-set, pendientes_zero}
use recursos_so.Kernel.Banquero.Correcto.{simular_decide}

-- The active processes can end one after the other, each with what its request waits for.
abbrev pub EstadoSeguro : Kernel → Type 0
EstadoSeguro k =
    Segura (asignados k) (necesidades k) (disponibles k) (replicate (length (activos k)) false)

primer_pendiente :
    (t : List Bool) (m : ℕ) → pendientes t ≡ suc m → (p : ℕ) × (get_or t p true ≡ false)
unfolding pendientes
primer_pendiente [] m h = absurd (omega arith)
primer_pendiente (false ∷ t) m h = (0, refl)
primer_pendiente (true ∷ t) m h = let (p, e) = primer_pendiente t m h in (suc p, e)

-- Where no process asks for anything, every one can end.
Segura-sin_pedidos :
    (asignado necesidad : List (List ℕ))
    → ((p : ℕ) → get_or necesidad p [] ≡ [])
    → (m : ℕ) (work : List ℕ) (t : List Bool) → pendientes t ≡ m
    → Segura asignado necesidad work t
unfolding puede
Segura-sin_pedidos asignado necesidad nada zero work t h = fin (pendientes_zero t h)
Segura-sin_pedidos asignado necesidad nada (suc m) work t h =
    let (p, e) = primer_pendiente t m h in
    termina p e (rw (nada p) refl) (
      Segura-sin_pedidos asignado necesidad nada m _ (set t p true)
        (omega (arith, pendientes-set t p e)))

get_or-map_nil :
    (f : ℕ → List ℕ) → ((x : ℕ) → f x ≡ []) → (xs : List ℕ) (p : ℕ) → get_or (map f xs) p [] ≡ []
get_or-map_nil f h [] p = refl
get_or-map_nil f h (x ∷ xs) zero = h x
get_or-map_nil f h (x ∷ xs) (suc p) = get_or-map_nil f h xs p

fila_vacia :
    (h : ℕ → Pcb) (rs : List Recurso) (b : Bool) (pid : ℕ)
    → length rs ≡ 0
    → (if b then fila_necesidad h rs pid else replicate (length rs) 0) ≡ []
unfolding fila_necesidad
fila_vacia h [] true pid e = refl
fila_vacia h [] false pid e = refl
fila_vacia h (r ∷ rs) b pid e = absurd (omega arith)

sin_recursos : (k : Kernel) → length k.recursos ≡ 0 → EstadoSeguro k
sin_recursos k e =
    Segura-sin_pedidos (asignados k) (necesidades k)
      (get_or-map_nil _
        (λ p. fila_vacia k.pcbs k.recursos (es_block (k.pcbs p).estado) (k.pcbs p).pid e)
        (activos k))
      _ _ _ refl

sin_procesos : (k : Kernel) → length (activos k) ≡ 0 → EstadoSeguro k
sin_procesos k e = rw e (fin (λ p h. elim h [ ]))

-- In every state of the kernel the banker's check returns, and it returns true exactly when the rows of its
-- matrices can end one after the other.
pub banquero_matrices :
    (k : Kernel) → (b : Bool) × (banquero_estado_seguro k ≡ some b) × ((b ≡ true) ↔ EstadoSeguro k)
unfolding banquero_estado_seguro
banquero_matrices k = elim (Bool-cases (length k.recursos == 0)) [
  | inl e ↦ (true, ground arith, ((λ _. sin_recursos k (ground arith)), (λ _. refl)))
  | inr e ↦ elim (Bool-cases (length (activos k) == 0)) [
    | inl e' ↦ (true, ground arith, ((λ _. sin_procesos k (ground arith)), (λ _. refl)))
    | inr e' ↦
        let (b, ends, ok) =
          simular_decide (asignados k) (necesidades k) (disponibles k) (length (activos k)) in
        (b, rw (e, e') ends, ok)
  ]
]
