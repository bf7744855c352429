-- ===== src/Kernel/Planificacion/Movimientos.antt =====
-- A process leaves one queue, and enters another: what each half does to the consistency of the state.
use recursos_so.Prelude.{
  ℕ, ◌+◌, ◌<◌, ◌≤◌, ◌≡◌, ◌⊎◌, List, [], ◌∷◌, ◌++◌, arith, ◌==◌, if◌then◌else◌,
}
use recursos_so.Kernel.{Estado, Pcb, Recurso, Kernel, escribir_pcb}
use recursos_so.Kernel.Colas.{cuantos, quitar_puntero, cuantos-list_add, cuantos-quitar_puntero}
use recursos_so.Kernel.Planificacion.{con_estado, a_ready, a_blocked}

-- How often a process waits in the queues of the resources.
unfoldable pub esperas : ℕ → List Recurso → ℕ
esperas p [] = 0
esperas p (r ∷ rs) = cuantos p r.cola_bloqueados + esperas p rs

-- The place of one process: it is in one queue at most, in the queue of its state, and it waits for
-- a resource only while it is BLOCKED. `extra` counts the processes that have left a queue of a resource,
-- and that BLOCKED still holds.
pub record Ubicado (extra : ℕ) (k : Kernel) (q : ℕ) : Type 0 where
  pub unico :
      cuantos q k.cola_new
        + cuantos q k.cola_ready
        + cuantos q k.cola_exec
        + cuantos q k.cola_blocked
        + cuantos q k.cola_exit
      ≤ 1
  pub en_new : (cuantos q k.cola_new ≡ 0) ⊎ ((k.pcbs q).estado ≡ Estado.new)
  pub en_ready : (cuantos q k.cola_ready ≡ 0) ⊎ ((k.pcbs q).estado ≡ Estado.ready)
  pub en_exec : (cuantos q k.cola_exec ≡ 0) ⊎ ((k.pcbs q).estado ≡ Estado.exec)
  pub en_blocked : (cuantos q k.cola_blocked ≡ 0) ⊎ ((k.pcbs q).estado ≡ Estado.block)
  pub en_exit : (cuantos q k.cola_exit ≡ 0) ⊎ ((k.pcbs q).estado ≡ Estado.exit)
  pub espera : esperas q k.recursos + extra ≤ cuantos q k.cola_blocked

abbrev pub CoherenteMas : (ℕ → ℕ) → Kernel → Type 0
CoherenteMas f k = (q : ℕ) → Ubicado (f q) k q

abbrev pub Coherente : Kernel → Type 0
Coherente = CoherenteMas (λ _. 0)

-- The process is in no queue.
pub record Suelto (k : Kernel) (p : ℕ) : Type 0 where
  pub new : cuantos p k.cola_new ≡ 0
  pub ready : cuantos p k.cola_ready ≡ 0
  pub exec : cuantos p k.cola_exec ≡ 0
  pub blocked : cuantos p k.cola_blocked ≡ 0
  pub exit : cuantos p k.cola_exit ≡ 0

module _ (f : ℕ → ℕ) where
  -- A store that keeps the state of the process.
  pub escribir-Coherente :
      (k : Kernel) (p : ℕ) (v : Pcb)
      → v.estado ≡ (k.pcbs p).estado
      → CoherenteMas f k
      → CoherenteMas f (record k { pcbs = escribir_pcb k.pcbs p v })
  escribir-Coherente k p v e c q = ground (arith, c q)

  pub a_ready-Coherente :
      (k : Kernel) (p : ℕ) → CoherenteMas f k → Suelto k p → CoherenteMas f (a_ready p k)
  a_ready-Coherente k p c s q = ground (arith, c q, cuantos-list_add q p k.cola_ready)

  pub a_blocked-Coherente :
      (k : Kernel) (ms p : ℕ) → CoherenteMas f k → Suelto k p → CoherenteMas f (a_blocked ms p k)
  a_blocked-Coherente k ms p c s q = ground (arith, c q, cuantos-list_add q p k.cola_blocked)

  pub a_exit-Coherente :
      (k : Kernel) (p : ℕ)
      → CoherenteMas f k
      → Suelto k p
      → CoherenteMas f
          (record k { pcbs = con_estado k.pcbs p Estado.exit; cola_exit = k.cola_exit ++ p ∷ [] })
  a_exit-Coherente k p c s q = ground (arith, c q, cuantos-list_add q p k.cola_exit)

  pub a_exec-Coherente :
      (k : Kernel) (p : ℕ)
      → CoherenteMas f k
      → Suelto k p
      → CoherenteMas f
          (record k { pcbs = con_estado k.pcbs p Estado.exec; cola_exec = k.cola_exec ++ p ∷ [] })
  a_exec-Coherente k p c s q = ground (arith, c q, cuantos-list_add q p k.cola_exec)

  pub sale_exec :
      (k : Kernel) (p : ℕ)
      → 0 < cuantos p k.cola_exec
      → CoherenteMas f k
      → let k' = record k { cola_exec = quitar_puntero p k.cola_exec } in
        CoherenteMas f k' × Suelto k' p
  sale_exec k p h c = (
    λ q. ground (arith, c q, cuantos-quitar_puntero q p k.cola_exec),
    ground (arith, c p, cuantos-quitar_puntero p p k.cola_exec),
  )

  pub sale_ready :
      (k : Kernel) (p : ℕ) (resto : List ℕ)
      → ((q : ℕ) → cuantos q k.cola_ready ≡ (if q == p then 1 else 0) + cuantos q resto)
      → CoherenteMas f k
      → let k' = record k { cola_ready = resto } in CoherenteMas f k' × Suelto k' p
  sale_ready k p resto h c = (λ q. ground (arith, c q, h q), ground (arith, c p, h p))

  pub sale_new :
      (k : Kernel) (p : ℕ) (resto : List ℕ)
      → ((q : ℕ) → cuantos q k.cola_new ≡ (if q == p then 1 else 0) + cuantos q resto)
      → CoherenteMas f k
      → let k' = record k { cola_new = resto } in CoherenteMas f k' × Suelto k' p
  sale_new k p resto h c = (λ q. ground (arith, c q, h q), ground (arith, c p, h p))

-- A process that has left its queue of waiters leaves BLOCKED.
pub sale_blocked :
    (f : ℕ → ℕ) (k : Kernel) (p : ℕ)
    → CoherenteMas (λ q. (if q == p then 1 else 0) + f q) k
    → let k' = record k { cola_blocked = quitar_puntero p k.cola_blocked } in
      CoherenteMas f k' × Suelto k' p
sale_blocked f k p c = (
  λ q. ground (arith, c q, cuantos-quitar_puntero q p k.cola_blocked),
  ground (arith, c p, cuantos-quitar_puntero p p k.cola_blocked),
)
