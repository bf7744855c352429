-- ===== src/Kernel/Colas.antt =====
-- The queues of the kernel: lists of pointers, searched by pid and changed by pointer.
use recursos_so.Prelude.{
  ℕ, ◌+◌, ◌-◌, ◌<◌, ◌≡◌, List, [], ◌∷◌, ◌++◌, Option, none, some, arith, ◌==◌, if◌then◌else◌,
  length,
}
use recursos_so.Kernel.{Pcb}

-- The loop over a queue that stops at the first PCB with that pid, and list_find by pcb_equals_pid.
unfoldable pub buscar_pid : (ℕ → Pcb) → ℕ → List ℕ → Option ℕ
buscar_pid h pid [] = none
buscar_pid h pid (p ∷ ps) = if (h p).pid == pid then some p else buscar_pid h pid ps

-- list_remove_element: the first entry that is that pointer goes.
unfoldable pub quitar_puntero : ℕ → List ℕ → List ℕ
quitar_puntero p [] = []
quitar_puntero p (q ∷ qs) = if p == q then qs else q ∷ quitar_puntero p qs

-- How often a pointer occurs in a queue.
unfoldable pub cuantos : ℕ → List ℕ → ℕ
cuantos p [] = 0
cuantos p (q ∷ qs) = (if p == q then 1 else 0) + cuantos p qs

pub cuantos-append : (p : ℕ) (xs ys : List ℕ) → cuantos p (xs ++ ys) ≡ cuantos p xs + cuantos p ys
unfolding cuantos
cuantos-append p [] ys = omega arith
cuantos-append p (x ∷ xs) ys = omega (arith, cuantos-append p xs ys)

-- list_add
pub cuantos-list_add :
    (p q : ℕ) (xs : List ℕ) → cuantos p (xs ++ q ∷ []) ≡ cuantos p xs + (if p == q then 1 else 0)
unfolding cuantos
cuantos-list_add p q xs = omega (arith, cuantos-append p xs (q ∷ []))

pub cuantos-quitar_puntero :
    (p q : ℕ) (xs : List ℕ)
    → cuantos p (quitar_puntero q xs) ≡ cuantos p xs - (if p == q then 1 else 0)
unfolding cuantos quitar_puntero
cuantos-quitar_puntero p q [] = omega arith
cuantos-quitar_puntero p q (x ∷ xs) = ground (arith, cuantos-quitar_puntero p q xs)

pub length-list_add : (q : ℕ) (xs : List ℕ) → length (xs ++ q ∷ []) ≡ length xs + 1
length-list_add q [] = omega arith
length-list_add q (x ∷ xs) = omega (arith, length-list_add q xs)

pub length-quitar_puntero :
    (q : ℕ) (xs : List ℕ) → 0 < cuantos q xs → length (quitar_puntero q xs) + 1 ≡ length xs
unfolding cuantos quitar_puntero
length-quitar_puntero q [] h = absurd (omega arith)
length-quitar_puntero q (x ∷ xs) h = ground (arith, length-quitar_puntero q xs)

-- What the search finds is in the queue, and has the pid.
pub buscar_pid-cuantos :
    (h : ℕ → Pcb) (pid : ℕ) (xs : List ℕ) (p : ℕ)
    → buscar_pid h pid xs ≡ some p
    → (0 < cuantos p xs) × ((h p).pid ≡ pid)
unfolding buscar_pid cuantos
buscar_pid-cuantos h pid [] p e = cc
buscar_pid-cuantos h pid (x ∷ xs) p e = ground (arith, buscar_pid-cuantos h pid xs p)
