-- ===== src/Kernel/Peticiones/Bloqueo.antt =====
-- manejar_wait_recurso and the agreement of the queues and the states.
use recursos_so.Prelude.{
  ℕ, ◌-◌, ◌≡◌, refl, ap, ◌∙◌, inl, inr, List, [], ◌∷◌, ◌++◌, Option, none, some, arith, ◌==◌,
  if◌then◌else◌, Option-cases, String, Bool-cases, ltb,
}
use recursos_so.Modelo.{ContextoCpu}
use recursos_so.Kernel.{Pcb, Recurso, Kernel}
use recursos_so.Kernel.Colas.{quitar_puntero, buscar_pid, buscar_pid-cuantos, cuantos-list_add}
use recursos_so.Kernel.Recursos.{buscar, poner, adquirir, recurso_wait}
use recursos_so.Kernel.Recursos.Diccionario.{buscar_propio}
use recursos_so.Kernel.Planificacion.{Motivo, a_blocked, destino, manejar_interrupcion}
use recursos_so.Kernel.Planificacion.Movimientos.{Coherente, Suelto, a_blocked-Coherente, sale_exec}
use recursos_so.Kernel.Planificacion.Coherencia.{manejar_interrupcion-Coherente}
use recursos_so.Kernel.Peticiones.{actualizar, seguir_wait, manejar_wait_recurso}
use recursos_so.Kernel.Peticiones.Esperas.{esperas-poner}
use recursos_so.Kernel.Peticiones.Coherencia.{actualizar-Coherente}

buscar_pid-pid :
    (h h' : ℕ → Pcb) (pid : ℕ) (xs : List ℕ)
    → ((q : ℕ) → (h' q).pid ≡ (h q).pid)
    → buscar_pid h' pid xs ≡ buscar_pid h pid xs
unfolding buscar_pid
buscar_pid-pid h h' pid [] e = refl
buscar_pid-pid h h' pid (x ∷ xs) e =
    rw (e x) (ap (λ r. if (h x).pid == pid then some x else r) (buscar_pid-pid h h' pid xs e))

-- A process that is in no queue enters BLOCKED and a queue of waiters together.
bloquear-Coherente :
    (k : Kernel) (ms p : ℕ) (r : Recurso) (nombre : String)
    → buscar nombre k.recursos ≡ some r
    → Coherente k
    → Suelto k p
    → Coherente (
        a_blocked ms p (record k {
          recursos = poner (record r { cola_bloqueados = r.cola_bloqueados ++ p ∷ [] }) k.recursos;
        }))
bloquear-Coherente k ms p r nombre e c s q =
    let v = record r { cola_bloqueados = r.cola_bloqueados ++ p ∷ [] } in
    let b = a_blocked-Coherente (λ _. 0) k ms p c s q in
    ground (
      arith,
      b,
      c q,
      cuantos-list_add q p r.cola_bloqueados,
      cuantos-list_add q p k.cola_blocked,
      esperas-poner q v r k.recursos (buscar_propio nombre k.recursos r e),
    )

asignar-Coherente :
    (k : Kernel) (p : ℕ) (r : Recurso) (nombre : String)
    → buscar nombre k.recursos ≡ some r
    → Coherente k
    → Coherente (record k {
      recursos = poner (record r { instancias = r.instancias - 1 }) k.recursos;
      pcbs = adquirir k.pcbs p nombre;
    })
asignar-Coherente k p r nombre e c q =
    let v = record r { instancias = r.instancias - 1 } in
    ground (arith, c q, esperas-poner q v r k.recursos (buscar_propio nombre k.recursos r e))

seguir_wait-Coherente :
    (k : Kernel) (pid ms p : ℕ) (nombre : String)
    → buscar_pid k.pcbs pid k.cola_exec ≡ some p
    → Coherente k
    → Coherente (seguir_wait pid ms (recurso_wait k p nombre))
unfolding seguir_wait recurso_wait manejar_interrupcion destino
seguir_wait-Coherente k pid ms p nombre e c = elim (Option-cases (buscar nombre k.recursos)) [
  | inl n ↦ rw (n, recurso_wait) (manejar_interrupcion-Coherente (λ _. 0) pid Motivo.quantum ms k c)
  | inr (r, n) ↦ elim (Bool-cases (ltb 0 r.instancias)) [
    | inl hay ↦
        rw (n, hay, recurso_wait)
          (manejar_interrupcion-Coherente (λ _. 0) pid Motivo.quantum ms _
            (asignar-Coherente k p r nombre n c))
    | inr no_hay ↦
        let (c', s) = sale_exec (λ _. 0) k p (buscar_pid-cuantos k.pcbs pid k.cola_exec p e).0 c in
        rw (n, no_hay, recurso_wait)
          (rw (e, manejar_interrupcion)
            (bloquear-Coherente (record k { cola_exec = quitar_puntero p k.cola_exec }) ms p r
              nombre n c' s))
  ]
]

-- WAIT keeps the queues and the states in agreement, whether the process gets the resource, blocks, or
-- names none that exists.
pub manejar_wait_recurso-Coherente :
    (ctx : ContextoCpu) (nombre : Option String) (ms : ℕ) (k : Kernel)
    → Coherente k
    → Coherente (manejar_wait_recurso ctx nombre ms k)
unfolding manejar_wait_recurso
manejar_wait_recurso-Coherente ctx none ms k c =
    manejar_interrupcion-Coherente (λ _. 0) ctx.pid Motivo.quantum ms k c
manejar_wait_recurso-Coherente ctx (some nombre) ms k c =
    elim (Option-cases (buscar_pid k.pcbs ctx.pid k.cola_exec)) [
      | inl e ↦ rw (e, manejar_wait_recurso) c
      | inr (p, e) ↦
          let k1 = actualizar ctx p k in
          let e1 : buscar_pid k1.pcbs ctx.pid k.cola_exec ≡ some p =
            buscar_pid-pid k.pcbs k1.pcbs ctx.pid k.cola_exec (λ q. ground arith) ∙ e in
          rw (e, manejar_wait_recurso)
            (seguir_wait-Coherente k1 ctx.pid ms p nombre e1
              (actualizar-Coherente (λ _. 0) ctx p k c))
    ]
