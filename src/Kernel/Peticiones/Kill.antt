-- ===== src/Kernel/Peticiones/Kill.antt =====
-- planificacion_finalizar_proceso: a process leaves whatever queue it is in.
use recursos_so.Prelude.{
  ℕ, ◌+◌, ◌-◌, ◌≤◌, ◌≡◌, refl, sym, ap, ◌∙◌, ◌⊎◌, inl, inr, List, [], ◌∷◌, some, arith, ◌==◌,
  if◌then◌else◌, Option-cases, Bool-cases,
}
use recursos_so.Kernel.{Estado, Pcb, Recurso, Kernel}
use recursos_so.Kernel.Colas.{
  cuantos, buscar_pid, buscar_pid-cuantos, cuantos-list_add, cuantos-quitar_puntero,
}
use recursos_so.Kernel.Recursos.{quitar_pid, liberar_colas, recursos_liberar_proceso}
use recursos_so.Kernel.Planificacion.Movimientos.{esperas, Coherente, Suelto, a_exit-Coherente}
use recursos_so.Kernel.Peticiones.{
  Hallado, en_ninguna, en_new, en_otra, buscar_en_exec, buscar_en_blocked, buscar_en_ready,
  buscar_en_colas, a_exit, terminar, planificacion_finalizar_proceso,
}
use recursos_so.Kernel.Peticiones.Fin.{liberar_y_desbloquear-Coherente}

-- The pids of the processes are distinct, as far as `pid` goes.
abbrev pub PidUnico : Kernel → ℕ → Type 0
PidUnico k pid = (p q : ℕ) → (k.pcbs p).pid ≡ pid → (k.pcbs q).pid ≡ pid → p ≡ q

-- `Ubicado`, but for the process that is being ended: a queue of waiters may hold it once.
record CasiUbicado (p : ℕ) (k : Kernel) (q : ℕ) : Type 0 where
  unico :
      cuantos q k.cola_new
        + cuantos q k.cola_ready
        + cuantos q k.cola_exec
        + cuantos q k.cola_blocked
        + cuantos q k.cola_exit
      ≤ 1
  en_new : (cuantos q k.cola_new ≡ 0) ⊎ ((k.pcbs q).estado ≡ Estado.new)
  en_ready : (cuantos q k.cola_ready ≡ 0) ⊎ ((k.pcbs q).estado ≡ Estado.ready)
  en_exec : (cuantos q k.cola_exec ≡ 0) ⊎ ((k.pcbs q).estado ≡ Estado.exec)
  en_blocked : (cuantos q k.cola_blocked ≡ 0) ⊎ ((k.pcbs q).estado ≡ Estado.block)
  en_exit : (cuantos q k.cola_exit ≡ 0) ⊎ ((k.pcbs q).estado ≡ Estado.exit)
  espera :
      (esperas q k.recursos ≤ cuantos q k.cola_blocked) ⊎ ((q ≡ p) × (esperas q k.recursos ≤ 1))

cuantos-quitar_pid :
    (h : ℕ → Pcb) (pid p q : ℕ) (xs : List ℕ)
    → (h p).pid ≡ pid
    → ((r : ℕ) → (h r).pid ≡ pid → r ≡ p)
    → cuantos q (quitar_pid h pid xs) ≡ cuantos q xs - (if q == p then 1 else 0)
unfolding cuantos quitar_pid
cuantos-quitar_pid h pid p q [] e u = omega arith
cuantos-quitar_pid h pid p q (x ∷ xs) e u = elim (Bool-cases ((h x).pid == pid)) [
  | inl si ↦ let xp = u x (ground arith) in rw (si) (rw xp (ground arith))
  | inr distinto ↦ rw (distinto) (ground (arith, cuantos-quitar_pid h pid p q xs e u))
]

esperas-liberar_colas :
    (h : ℕ → Pcb) (pid p q : ℕ) (rs : List Recurso)
    → (h p).pid ≡ pid
    → ((r : ℕ) → (h r).pid ≡ pid → r ≡ p)
    → (esperas q (liberar_colas h pid rs) ≤ esperas q rs)
      × (q ≡ p → esperas q rs ≤ 1 → esperas q (liberar_colas h pid rs) ≡ 0)
unfolding esperas liberar_colas
esperas-liberar_colas h pid p q [] e u = (omega arith, λ _ _. refl)
esperas-liberar_colas h pid p q (r ∷ rs) e u =
    let (a, b) = esperas-liberar_colas h pid p q rs e u in
    let d = cuantos-quitar_pid h pid p q r.cola_bloqueados e u in
    (ground (arith, d, a), λ qp l. ground (arith, d, b qp (omega arith)))

liberar_proceso-Coherente :
    (pid p : ℕ) (k : Kernel)
    → (k.pcbs p).pid ≡ pid
    → ((r : ℕ) → (k.pcbs r).pid ≡ pid → r ≡ p)
    → ((q : ℕ) → CasiUbicado p k q)
    → Coherente (recursos_liberar_proceso k pid)
unfolding recursos_liberar_proceso
liberar_proceso-Coherente pid p k e u c q =
    let (a, b) = esperas-liberar_colas k.pcbs pid p q k.recursos e u in
    let cq = c q in
    elim cq.espera [ inl l ↦ ground (arith, cq, a) | inr (qp, l) ↦ ground (arith, cq, b qp l) ]

-- The process that is found has left its queue; the others are where they were.
record Sacado (pid p : ℕ) (k k' : Kernel) : Type 0 where
  suelto : Suelto k' p
  casi : (q : ℕ) → CasiUbicado p k' q
  su_pid : (k.pcbs p).pid ≡ pid
  pcbs : k'.pcbs ≡ k.pcbs

abbrev HalladoBien : ℕ → Kernel → Hallado → Type 0
HalladoBien pid k en_ninguna = Unit {0}
HalladoBien pid k (en_new p k') = Coherente k' × Suelto k' p
HalladoBien pid k (en_otra p k') = Sacado pid p k k'

module _ (pid : ℕ) (k : Kernel) (c : Coherente k) where
  buscar_en_exec-bien : HalladoBien pid k (buscar_en_exec pid k)
  unfolding buscar_en_exec
  buscar_en_exec-bien = elim (Option-cases (buscar_pid k.pcbs pid k.cola_exec)) [
    | inl e ↦ rw (e, buscar_en_exec) tt
    | inr (p, e) ↦
        let (dentro, su) = buscar_pid-cuantos k.pcbs pid k.cola_exec p e in
        rw (e, buscar_en_exec)
          (record {
            suelto = ground (arith, c p, dentro, cuantos-quitar_puntero p p k.cola_exec);
            casi = λ q. ground (arith, c q, cuantos-quitar_puntero q p k.cola_exec);
            su_pid = su;
            pcbs = refl;
          })
  ]

  buscar_en_blocked-bien : HalladoBien pid k (buscar_en_blocked pid k)
  unfolding buscar_en_blocked
  buscar_en_blocked-bien = elim (Option-cases (buscar_pid k.pcbs pid k.cola_blocked)) [
    | inl e ↦ rw (e, buscar_en_blocked) buscar_en_exec-bien
    | inr (p, e) ↦
        let (dentro, su) = buscar_pid-cuantos k.pcbs pid k.cola_blocked p e in
        rw (e, buscar_en_blocked)
          (record {
            suelto = ground (arith, c p, dentro, cuantos-quitar_puntero p p k.cola_blocked);
            casi = λ q. ground (arith, c q, cuantos-quitar_puntero q p k.cola_blocked);
            su_pid = su;
            pcbs = refl;
          })
  ]

  buscar_en_ready-bien : HalladoBien pid k (buscar_en_ready pid k)
  unfolding buscar_en_ready
  buscar_en_ready-bien = elim (Option-cases (buscar_pid k.pcbs pid k.cola_ready)) [
    | inl e ↦ rw (e, buscar_en_ready) buscar_en_blocked-bien
    | inr (p, e) ↦
        let (dentro, su) = buscar_pid-cuantos k.pcbs pid k.cola_ready p e in
        rw (e, buscar_en_ready)
          (record {
            suelto = ground (arith, c p, dentro, cuantos-quitar_puntero p p k.cola_ready);
            casi = λ q. ground (arith, c q, cuantos-quitar_puntero q p k.cola_ready);
            su_pid = su;
            pcbs = refl;
          })
  ]

  buscar_en_colas-bien : HalladoBien pid k (buscar_en_colas pid k)
  unfolding buscar_en_colas
  buscar_en_colas-bien = elim (Option-cases (buscar_pid k.pcbs pid k.cola_new)) [
    | inl e ↦ rw (e, buscar_en_colas) buscar_en_ready-bien
    | inr (p, e) ↦
        let (dentro, su) = buscar_pid-cuantos k.pcbs pid k.cola_new p e in
        rw (e, buscar_en_colas)
          (
            λ q. ground (arith, c q, cuantos-quitar_puntero q p k.cola_new),
            ground (arith, c p, dentro, cuantos-quitar_puntero p p k.cola_new),
          )
  ]

-- A process that has left its queue enters EXIT, and then the queues of waiters let go of it.
matar-Coherente :
    (pid p : ℕ) (k k' : Kernel) (fines : List ℕ)
    → PidUnico k pid
    → Sacado pid p k k'
    → Coherente (recursos_liberar_proceso (record (a_exit p k') { fines_memoria = fines }) pid)
matar-Coherente pid p k k' fines u s =
    let k1 = record (a_exit p k') { fines_memoria = fines } in
    let mismo_pid : (q : ℕ) → (k1.pcbs q).pid ≡ (k.pcbs q).pid =
      λ q. ground (arith, ap (λ h. (h q).pid) s.pcbs, ap (λ h. (h p).pid) s.pcbs) in
    liberar_proceso-Coherente pid p k1 (mismo_pid p ∙ s.su_pid)
      (λ r e. u r p (sym (mismo_pid r) ∙ e) s.su_pid)
      (λ q. ground (arith, s.casi q, s.suelto, cuantos-list_add q p k'.cola_exit))

terminar-Coherente :
    (pid : ℕ) (k : Kernel) (h : Hallado)
    → Coherente k
    → PidUnico k pid
    → HalladoBien pid k h
    → (k' : Kernel) × (terminar pid h k ≡ some k') × Coherente k'
unfolding terminar
terminar-Coherente pid k en_ninguna c u b = (k, refl, c)
terminar-Coherente pid k (en_new p k') c u b =
    (a_exit p k', refl, a_exit-Coherente (λ _. 0) k' p b.0 b.1)
terminar-Coherente pid k (en_otra p k') c u b =
    let k1 =
      recursos_liberar_proceso (record (a_exit p k') { fines_memoria = pid ∷ k'.fines_memoria })
        pid in
    let (k2, ends, c2) = liberar_y_desbloquear-Coherente p k1 (matar-Coherente pid p k k' _ u b) in
    (record k2 { sem_mp = k2.sem_mp + 1 }, rw (ends, terminar) refl, λ q. ground (arith, c2 q))

-- From a state in which the queues and the states agree: each process is in one queue at most, in that
-- of its state, and it waits for a resource only while BLOCKED holds it, and where only one PCB has
-- the pid, a KILL comes to a result wherever the process was, and in it they agree again.
pub planificacion_finalizar_proceso-Coherente :
    (pid : ℕ) (k : Kernel)
    → PidUnico k pid
    → Coherente k
    → (k' : Kernel) × (planificacion_finalizar_proceso pid k ≡ some k') × Coherente k'
unfolding planificacion_finalizar_proceso
planificacion_finalizar_proceso-Coherente pid k u c =
    terminar-Coherente pid k (buscar_en_colas pid k) c u (buscar_en_colas-bien pid k c)
