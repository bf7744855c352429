-- ===== src/Kernel/Banquero/Segura.antt =====
-- What a safe state is: the processes that are left can end one after the other.
use recursos_so.Prelude.{
  ℕ, zero, suc, ◌<◌, ◌≡◌, refl, sym, ap, ◌∙◌, subst, Bool, true, false, List, [], ◌∷◌, arith,
  length, get_or, set, get_or-set_ne, ℕ_discrete,
}
use recursos_so.Kernel.Banquero.{puede, sumar}

-- A process that has not ended, and whose request can be met, ends and gives back what it holds.
pub data Segura (asignado necesidad : List (List ℕ)) : List ℕ → List Bool → Type 0 where
  fin :
      {work : List ℕ} {terminado : List Bool}
      → ((p : ℕ) → p < length terminado → get_or terminado p true ≡ true)
      → Segura asignado necesidad work terminado
  termina :
      {work : List ℕ} {terminado : List Bool} (p : ℕ)
      → get_or terminado p true ≡ false
      → puede (get_or necesidad p []) work ≡ true
      → Segura asignado necesidad (sumar work (get_or asignado p [])) (set terminado p true)
      → Segura asignado necesidad work terminado

pub sumar_comm : (w a b : List ℕ) → sumar (sumar w a) b ≡ sumar (sumar w b) a
unfolding sumar
sumar_comm [] a b = refl
sumar_comm (w ∷ ws) [] [] = refl
sumar_comm (w ∷ ws) [] (b ∷ bs) = refl
sumar_comm (w ∷ ws) (a ∷ xs) [] = refl
sumar_comm (w ∷ ws) (a ∷ xs) (b ∷ bs) = ground (arith, sumar_comm ws xs bs)

pub puede-sumar : (n w a : List ℕ) → puede n w ≡ true → puede n (sumar w a) ≡ true
unfolding puede sumar
puede-sumar [] w a h = refl
puede-sumar (n ∷ ns) [] a h = refl
puede-sumar (n ∷ ns) (w ∷ ws) [] h = h
puede-sumar (n ∷ ns) (w ∷ ws) (a ∷ xs) h = ground (arith, puede-sumar ns ws xs)

pub lt-length_of_pendiente : (t : List Bool) (p : ℕ) → get_or t p true ≡ false → p < length t
lt-length_of_pendiente [] p h = cc
lt-length_of_pendiente (b ∷ t) zero h = omega arith
lt-length_of_pendiente (b ∷ t) (suc p) h = omega (arith, lt-length_of_pendiente t p h)

pub set_comm : (t : List Bool) (p q : ℕ) → set (set t p true) q true ≡ set (set t q true) p true
set_comm [] p q = refl
set_comm (b ∷ t) zero zero = refl
set_comm (b ∷ t) zero (suc q) = refl
set_comm (b ∷ t) (suc p) zero = refl
set_comm (b ∷ t) (suc p) (suc q) = ap (◌∷◌ b) (set_comm t p q)

module _ (asignado necesidad : List (List ℕ)) where
  -- A process that can end may end first: no choice of the search is wrong.
  pub Segura-adelantar :
      {work : List ℕ} {terminado : List Bool} (p : ℕ)
      → get_or terminado p true ≡ false
      → puede (get_or necesidad p []) work ≡ true
      → Segura asignado necesidad work terminado
      → Segura asignado necesidad (sumar work (get_or asignado p [])) (set terminado p true)
  Segura-adelantar {work} {terminado} p pend ok (fin todos) =
      absurd (cc (todos p (lt-length_of_pendiente terminado p pend)))
  Segura-adelantar {work} {terminado} p pend ok (termina q pend_q ok_q resto) =
      elim (ℕ_discrete q p) [
        | yes e ↦
            subst
              (λ r.
                Segura asignado necesidad (sumar work (get_or asignado r []))
                  (set terminado r true))
              e resto
        | no d ↦
            termina q (get_or-set_ne terminado p q true true (λ e. d (sym e)) ∙ pend_q)
              (puede-sumar _ _ _ ok_q)
              (rw
                (
                  sumar_comm work (get_or asignado p []) (get_or asignado q []),
                  set_comm terminado p q,
                )
                (Segura-adelantar p (get_or-set_ne terminado q p true true d ∙ pend)
                  (puede-sumar _ _ _ ok) resto))
      ]
