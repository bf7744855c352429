-- ===== src/Kernel/Algoritmo/Eleccion.antt =====
-- The loop that looks for the best process of a queue, and what it takes.
use recursos_so.Prelude.{
  All-append, ℕ, suc, ◌+◌, ◌≡◌, refl, sym, ap, ◌∙◌, Bool, true, false, List, [], ◌∷◌, ◌++◌, some,
  arith, length, All, inl, inr, Bool-cases, length-append,
}
use recursos_so.Prelude.Int.{ltb_ℤ}
use mathlib.Core.List.{append_assoc, append-nil}
use recursos_so.Kernel.{Pcb}
use recursos_so.Kernel.Algoritmo.{
  list_remove, buscar_mejor, obtener_mejor, algoritmo_obtener_prioridad,
}

-- The order that a choice needs: who beats another beats also all that do not beat the other.
pub record EsOrden {V : Type 0} (mejor : V → V → Bool) : Type 0 where
  pub trans : (a b c : V) → mejor a b ≡ true → mejor b c ≡ true → mejor a c ≡ true
  pub corte : (a b c : V) → mejor a b ≡ true → mejor c b ≡ false → mejor a c ≡ true

-- The queue is `antes ++ p ∷ despues`: `p` beats what stands before it, and nothing behind it beats `p`.
pub record Elegido {V : Type 0} (mejor : V → V → Bool) (valor : ℕ → V) (cola : List ℕ) (p : ℕ)
    (resto : List ℕ) : Type 0 where
  pub antes : List ℕ
  pub despues : List ℕ
  pub partida : cola ≡ antes ++ p ∷ despues
  pub quedan : resto ≡ antes ++ despues
  pub gana : All (λ q. mejor (valor p) (valor q) ≡ true) antes
  pub primero : All (λ q. mejor (valor q) (valor p) ≡ false) despues

All-map {ℓ κ μ} :
    {A : Type ℓ} (P : A → Type κ) (Q : A → Type μ)
    → ((a : A) → P a → Q a)
    → (xs : List A) → All P xs
    → All Q xs
All-map P Q f [] h = tt
All-map P Q f (x ∷ xs) h = (f x h.0, All-map P Q f xs h.1)

list_remove-length :
    (antes despues : List ℕ) (p : ℕ)
    → list_remove (length antes) (antes ++ p ∷ despues) ≡ some (p, antes ++ despues)
unfolding list_remove
list_remove-length [] despues p = refl
list_remove-length (a ∷ antes) despues p = rw (list_remove-length antes despues p)

module _ {V : Type 0} (mejor : V → V → Bool) (valor : ℕ → V) (orden : EsOrden mejor) where
  abbrev Gana : ℕ → List ℕ → Type 0
  Gana p = All (λ q. mejor (valor p) (valor q) ≡ true)

  abbrev NoPierde : ℕ → List ℕ → Type 0
  NoPierde p = All (λ q. mejor (valor q) (valor p) ≡ false)

  -- The best so far stands behind `antes`; `medio` has been looked at since.
  buscar_mejor-Elegido :
      (ps antes medio : List ℕ) (b i idx : ℕ)
      → i ≡ length antes + suc (length medio)
      → idx ≡ length antes
      → Gana b antes
      → NoPierde b medio
      → (antes' despues' : List ℕ) × (p : ℕ) × (antes ++ b ∷ (medio ++ ps) ≡ antes' ++ p ∷ despues')
        × (buscar_mejor mejor valor ps i idx (valor b) ≡ length antes')
        × Gana p antes'
        × NoPierde p despues'
  unfolding buscar_mejor
  buscar_mejor-Elegido [] antes medio b i idx e e' g n =
      (antes, medio, b, rw (append-nil medio) refl, e', g, n)
  buscar_mejor-Elegido (x ∷ ps) antes medio b i idx e e' g n =
      elim (Bool-cases (mejor (valor x) (valor b))) [
        | inl si ↦
            let gx : Gana x (antes ++ b ∷ medio) =
              All-append _ antes (b ∷ medio)
                (All-map _ _ (λ q h. orden.trans (valor x) (valor b) (valor q) si h) antes g)
                (si, All-map _ _ (λ q h. orden.corte (valor x) (valor b) (valor q) si h) medio n) in
            let (a', d', p, q1, q2, q3, q4) =
              buscar_mejor-Elegido ps (antes ++ b ∷ medio) [] x (suc i) i
                (omega (arith, length-append antes (b ∷ medio)))
                (omega (arith, length-append antes (b ∷ medio))) gx tt in
            (
              a',
              d',
              p,
              sym (append_assoc antes (b ∷ medio) (x ∷ ps)) ∙ q1,
              rw (si, buscar_mejor) q2,
              q3,
              q4,
            )
        | inr no_gana ↦
            let (a', d', p, q1, q2, q3, q4) =
              buscar_mejor-Elegido ps antes (medio ++ x ∷ []) b (suc i) idx
                (omega (arith, length-append medio (x ∷ []))) e' g
                (All-append _ medio (x ∷ []) n (no_gana, tt)) in
            (
              a',
              d',
              p,
              ap (λ l. antes ++ b ∷ l) (sym (append_assoc medio (x ∷ []) ps)) ∙ q1,
              rw (no_gana, buscar_mejor) q2,
              q3,
              q4,
            )
      ]

  -- From a queue that is not empty a process is taken: the first of the best.
  pub obtener_mejor-Elegido :
      (p : ℕ) (ps : List ℕ)
      → (q : ℕ) × (resto : List ℕ) × (obtener_mejor mejor valor (p ∷ ps) ≡ some (q, resto))
        × Elegido mejor valor (p ∷ ps) q resto
  unfolding obtener_mejor
  obtener_mejor-Elegido p ps =
      let (a, d, q, q1, q2, q3, q4) = buscar_mejor-Elegido ps [] [] p 1 0 refl refl tt tt in
      (
        q,
        a ++ d,
        rw (obtener_mejor, q2) (rw q1 (list_remove-length a d q)),
        record { antes = a; despues = d; partida = q1; quedan = refl; gana = q3; primero = q4 },
      )

ltb_ℤ-EsOrden : EsOrden ltb_ℤ
ltb_ℤ-EsOrden = record { trans = λ a b c h h'. ground arith; corte = λ a b c h h'. ground arith }

-- From a READY queue that is not empty, PRIORIDAD takes the process with the least number, and of
-- several such the one that came first; the others stay in their order.
pub algoritmo_obtener_prioridad-Elegido :
    (h : ℕ → Pcb) (p : ℕ) (ps : List ℕ)
    → (q : ℕ) × (resto : List ℕ) × (algoritmo_obtener_prioridad h (p ∷ ps) ≡ some (q, resto))
      × Elegido ltb_ℤ (λ x. (h x).prioridad) (p ∷ ps) q resto
unfolding algoritmo_obtener_prioridad
algoritmo_obtener_prioridad-Elegido h =
    obtener_mejor-Elegido ltb_ℤ (λ x. (h x).prioridad) ltb_ℤ-EsOrden
